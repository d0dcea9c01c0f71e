-- ===== src/Regpidonfhc.antt =====
-- lib/regpidonfhc.h and lib/regpidonfhc.c: the regulator that drives a heater and a cooler by a PID
-- controller or on and off, each by its own mode. The data and the helpers; `Control` has
-- `regpidonfhc_control`, `Handlers` the other functions.
pub mod Control
pub mod Events
pub mod Handlers
pub mod Single
mod Tests
use regonf.Prelude.{ℕ, Bool, true, false, if◌then◌else◌}
use regonf.Float.{FloatOps}
use regonf.Timef.{Timespec, TonTs}
use regonf.Acp.{SensorFts, Em, Link, set_em_float}
use regonf.Reg.{StateReg, mode_pid, mode_onf, RegSecure, GreenLight}
use regonf.Regonfhc.{Side, heating, cooling}
use regonf.Pid.{Pid}

pub record RegPidOnfHcEm (F : Type 0) : Type 0 where
  pub em : Em F
  pub delta : F
  pub pid : Pid F
  pub output : F
  pub mode : StateReg
  pub use_em : Bool

pub record RegPidOnfHc (F : Type 0) : Type 0 where
  pub sensor : SensorFts F
  pub heater : RegPidOnfHcEm F
  pub cooler : RegPidOnfHcEm F
  pub goal : F
  pub change_gap : Timespec
  pub secure_out : RegSecure F
  pub green_light : GreenLight F
  pub state : StateReg
  pub state_r : StateReg
  pub state_onf : StateReg
  pub output : F
  pub snsrf_count : ℕ
  pub tmr : TonTs

module _ {F : Type 0} where
  abbrev pub get_em : Side → RegPidOnfHc F → RegPidOnfHcEm F
  get_em heating item = item.heater
  get_em cooling item = item.cooler

  abbrev pub put_em : Side → RegPidOnfHcEm F → RegPidOnfHc F → RegPidOnfHc F
  put_em heating e item = record item { heater = e }
  put_em cooling e item = record item { cooler = e }

  abbrev pub stop_tmr : RegPidOnfHc F → RegPidOnfHc F
  stop_tmr item = record item { tmr = record (item.tmr) { ready = false } }

module _ {F : Type 0} ⦃float : FloatOps F⦄ where
  -- VAL_IS_OUT_H and VAL_IS_OUT_C, which are also the tests by which a mechanism is told to wait
  abbrev pub val_is_out : Side → RegPidOnfHc F → Bool
  val_is_out heating item = float.lt (float.add item.goal item.heater.delta) item.sensor.value.value
  val_is_out cooling item = float.lt item.sensor.value.value (float.sub item.goal item.cooler.delta)

  -- The tests by which a waiting mechanism is switched on
  abbrev pub val_is_low : Side → RegPidOnfHc F → Bool
  val_is_low heating item = float.lt item.sensor.value.value (float.sub item.goal item.heater.delta)
  val_is_low cooling item = float.lt (float.add item.goal item.cooler.delta) item.sensor.value.value

  -- `value_is_out`, by the mode of the mechanism in charge
  abbrev pub out_by_mode : StateReg → Side → RegPidOnfHc F → Bool
  out_by_mode mode_pid s item = float.lt item.output float.zero_f
  out_by_mode mode_onf s item = val_is_out s item
  out_by_mode _ s item = false

  abbrev pub value_is_out : Side → RegPidOnfHc F → Bool
  value_is_out s item = out_by_mode (get_em s item).mode s item

module _ {F W : Type 0} ⦃link : Link F W⦄ where
  -- `controlEM`
  unfoldable pub control_em : RegPidOnfHcEm F → F → W → RegPidOnfHcEm F × W
  control_em item output w =
      let (_, em, w1) = set_em_float item.em output w in
      if item.use_em then (record item { em = em; output = output }, w1) else (item, w)
