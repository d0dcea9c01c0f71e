-- ===== src/Reg.antt =====
-- lib/reg.h, lib/reg.c and lib/green_light.c: the states of a regulator, the duty cycles of a
-- regulator that its client has left alone (`RegSecure`), and the green light that lets it start.
pub mod Secure
mod Tests
use Prim.Native.Nat.{bit_and, bit_or}
use regonf.Prelude.{ℕ, ◌-◌, Bool, true, false, not, ◌&&◌, if◌then◌else◌}
use regonf.Prelude.Int.{ℤ}
use regonf.Float.{FloatOps}
use regonf.Timef.{Timespec, Clock, TonTs, ton_ts, ton_ts_reset}
use regonf.Acp.{SensorFts, Link, read_sensor_fts}

-- `StateReg`, with the source's prefix REG_ left off
pub data StateReg : Type 0 where
  off init run_do disable wait busy secure cooler heater mode_pid mode_onf : StateReg

-- `error_code` is the word that the source's field points to, the program's own `error_code`
pub record RegSecure (F : Type 0) : Type 0 where
  pub id : ℤ
  pub active : Bool
  pub timeout : Timespec
  pub heater_duty_cycle : F
  pub cooler_duty_cycle : F
  pub tmr : TonTs
  pub done : Bool
  pub error_code : ℕ

abbrev pub prog_error_no_signal_from_client : ℕ
prog_error_no_signal_from_client = 1

-- `(buf) |= (v)` and `(buf) &= ~(v)` on a 32-bit word
abbrev pub bit_enable : ℕ → ℕ → ℕ
bit_enable buf v = bit_or buf v

abbrev pub bit_disable : ℕ → ℕ → ℕ
bit_disable buf v = bit_and buf (0xffff_ffff - v)

pub record GreenLight (F : Type 0) : Type 0 where
  pub sensor : SensorFts F
  pub green_value : F
  pub active : Bool

module _ {F W : Type 0} (clock : Clock W) where
  -- `reg_secureNeed`: the client has been silent for longer than the timeout
  unfoldable pub secure_need : RegSecure F → W → Bool × RegSecure F × W
  secure_need item w =
      let (fired, tmr, w1) = ton_ts clock item.timeout item.tmr w in
      let code = bit_enable item.error_code prog_error_no_signal_from_client in
      if not item.active
      then (false, item, w)
      else if item.done
      then (true, item, w)
      else if fired
      then (true, record item { tmr = tmr; done = true; error_code = code }, w1)
      else (false, record item { tmr = tmr }, w1)

-- `reg_secureTouch`: the client has spoken
unfoldable pub secure_touch : {F : Type 0} → RegSecure F → RegSecure F
secure_touch item = record item {
  done = false;
  tmr = ton_ts_reset item.tmr;
  error_code = bit_disable item.error_code prog_error_no_signal_from_client;
}

module _ {F W : Type 0} ⦃float : FloatOps F⦄ ⦃link : Link F W⦄ where
  unfoldable pub is_green : GreenLight F → W → Bool × GreenLight F × W
  is_green item w =
      let (done, sensor, w1) = read_sensor_fts item.sensor w in
      let green = float.eq sensor.value.value item.green_value in
      if item.active then (done && green, record item { sensor = sensor }, w1) else (true, item, w)
