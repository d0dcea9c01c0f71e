-- ===== src/Regonfhc.antt =====
-- lib/regonfhc.h and lib/regonfhc.c: the on/off regulator with a heater and a cooler.
-- The data and the helpers; `Control` has `regonfhc_control`, `Handlers` the other functions.
pub mod Control
pub mod Events
pub mod Handlers
mod Tests
use regonf.Prelude.{ℕ, Bool, true, false, Option, none, some, if◌then◌else◌}
use regonf.Float.{FloatOps}
use regonf.Timef.{Timespec, TonTs}
use regonf.Acp.{SensorFts, Em, Link, set_em_float}
use regonf.Reg.{StateReg, RegSecure, GreenLight}

pub record RegOnfHcEm (F : Type 0) : Type 0 where
  pub em : Em F
  pub delta : F
  pub output : F
  pub use_em : Bool

pub record RegOnfHc (F : Type 0) : Type 0 where
  pub sensor : SensorFts F
  pub heater : RegOnfHcEm F
  pub cooler : RegOnfHcEm F
  pub goal : F
  pub change_gap : Timespec
  pub secure_out : RegSecure F
  pub green_light : GreenLight F
  pub state : StateReg
  pub state_r : StateReg
  pub state_onf : StateReg
  pub output : F
  pub snsrf_count : ℕ
  pub tmr : TonTs

-- What `reg_em` points to: `&item->heater` or `&item->cooler`. The other one is `reg_em_other`.
pub data Side : Type 0 where
  heating cooling : Side

abbrev pub other : Side → Side
other heating = cooling
other cooling = heating

-- The first and the third `switch (item->state_r)`; `none` where the pointers stay null
abbrev pub side_of : StateReg → Option Side
side_of StateReg.heater = some heating
side_of StateReg.cooler = some cooling
side_of _ = none

abbrev pub state_of : Side → StateReg
state_of heating = StateReg.heater
state_of cooling = StateReg.cooler

module _ {F : Type 0} where
  abbrev pub get_em : Side → RegOnfHc F → RegOnfHcEm F
  get_em heating item = item.heater
  get_em cooling item = item.cooler

  abbrev pub put_em : Side → RegOnfHcEm F → RegOnfHc F → RegOnfHc F
  put_em heating e item = record item { heater = e }
  put_em cooling e item = record item { cooler = e }

  abbrev pub stop_tmr : RegOnfHc F → RegOnfHc F
  stop_tmr item = record item { tmr = record (item.tmr) { ready = false } }

module _ {F : Type 0} ⦃float : FloatOps F⦄ where
  -- VAL_IS_OUT_H and VAL_IS_OUT_C
  abbrev pub val_is_out : Side → RegOnfHc F → Bool
  val_is_out heating item = float.lt (float.add item.goal item.heater.delta) item.sensor.value.value
  val_is_out cooling item = float.lt item.sensor.value.value (float.sub item.goal item.cooler.delta)

  -- The tests by which a waiting mechanism is switched on
  abbrev pub val_is_low : Side → RegOnfHc F → Bool
  val_is_low heating item = float.lt item.sensor.value.value (float.sub item.goal item.heater.delta)
  val_is_low cooling item = float.lt (float.add item.goal item.cooler.delta) item.sensor.value.value

module _ {F W : Type 0} ⦃link : Link F W⦄ where
  -- `controlEM`
  unfoldable pub control_em : RegOnfHcEm F → F → W → RegOnfHcEm F × W
  control_em item output w =
      let (_, em, w1) = set_em_float item.em output w in
      if item.use_em then (record item { em = em; output = output }, w1) else (item, w)
