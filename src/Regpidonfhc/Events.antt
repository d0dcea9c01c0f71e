-- ===== src/Regpidonfhc/Events.antt =====
-- The life of a regulator of lib/regpidonfhc.c that uses one mechanism at a time: its cycles, and what
-- a server does to it in between.
use regonf.Prelude.{ℕ, Bool, true, not, ◌&&◌, Option, none, some, List, [], ◌∷◌}
use regonf.Prelude.Int.{ℤ}
use regonf.CString.{str_eq}
use regonf.Float.{FloatOps, FloatArith}
use regonf.Acp.{Link}
use regonf.Regonfhc.Handlers.{mode_both}
use regonf.Pid.{DoubleArith}
use regonf.Regpidonfhc.{RegPidOnfHc}
use regonf.Regpidonfhc.Control.{regpidonfhc_control}
use regonf.Regpidonfhc.Handlers

pub data PidEvent (F : Type 0) : Type 0 where
  tick : PidEvent F
  enable : PidEvent F
  disable_reg : PidEvent F
  set_cooler_delta : F → PidEvent F
  set_heater_delta : F → PidEvent F
  set_heater_kp : F → PidEvent F
  set_heater_ki : F → PidEvent F
  set_heater_kd : F → PidEvent F
  set_cooler_kp : F → PidEvent F
  set_cooler_ki : F → PidEvent F
  set_cooler_kd : F → PidEvent F
  set_goal : F → PidEvent F
  set_heater_mode : List ℕ → PidEvent F
  set_cooler_mode : List ℕ → PidEvent F
  set_em_mode : List ℕ → PidEvent F
  set_change_gap : ℤ → PidEvent F
  set_heater_power : F → PidEvent F
  set_cooler_power : F → PidEvent F
  turn_off : PidEvent F
  secure_out_touch : PidEvent F

-- No mechanism or one of them is in use.
abbrev pub is_single : {F : Type 0} → RegPidOnfHc F → Bool
is_single item = not (item.heater.use_em && item.cooler.use_em)

-- An event that does not put both mechanisms in use
abbrev pub uses_one : {F : Type 0} → PidEvent F → Bool
uses_one (set_em_mode v) = not (str_eq mode_both v)
uses_one _ = true

module _ {F D W : Type 0} ⦃float : FloatOps F⦄ ⦃arith_f : FloatArith F⦄ ⦃link : Link F W⦄
    (double : DoubleArith F D) where
  unfoldable pub pid_step : PidEvent F → RegPidOnfHc F → W → Option (RegPidOnfHc F × W)
  pid_step tick item w = regpidonfhc_control double item w
  pid_step enable item w = some (Handlers.enable item, w)
  pid_step disable_reg item w = some (Handlers.disable_reg item, w)
  pid_step (set_cooler_delta v) item w = some (Handlers.set_cooler_delta item v, w)
  pid_step (set_heater_delta v) item w = some (Handlers.set_heater_delta item v, w)
  pid_step (set_heater_kp v) item w = some (Handlers.set_heater_kp item v, w)
  pid_step (set_heater_ki v) item w = some (Handlers.set_heater_ki item v, w)
  pid_step (set_heater_kd v) item w = some (Handlers.set_heater_kd item v, w)
  pid_step (set_cooler_kp v) item w = some (Handlers.set_cooler_kp item v, w)
  pid_step (set_cooler_ki v) item w = some (Handlers.set_cooler_ki item v, w)
  pid_step (set_cooler_kd v) item w = some (Handlers.set_cooler_kd item v, w)
  pid_step (set_goal v) item w = some (Handlers.set_goal item v, w)
  pid_step (set_heater_mode v) item w = some (Handlers.set_heater_mode item v, w)
  pid_step (set_cooler_mode v) item w = some (Handlers.set_cooler_mode item v, w)
  pid_step (set_em_mode v) item w = some (Handlers.set_em_mode item v w)
  pid_step (set_change_gap v) item w = some (Handlers.set_change_gap item v, w)
  pid_step (set_heater_power v) item w = some (Handlers.set_heater_power item v w)
  pid_step (set_cooler_power v) item w = some (Handlers.set_cooler_power item v w)
  pid_step turn_off item w = some (Handlers.turn_off item w)
  pid_step secure_out_touch item w = some (Handlers.secure_out_touch item, w)

  unfoldable pub pid_steps : List (PidEvent F) → RegPidOnfHc F → W → Option (RegPidOnfHc F × W)
  unfolding pid_step
  pid_steps [] item w = some (item, w)
  pid_steps (e ∷ es) item w = elim (pid_step e item w) [
    | none ↦ none
    | some (item', w') ↦ pid_steps es item' w'
  ]
