-- ===== src/Regpidonfhc/Single.antt =====
-- The life of a regulator of lib/regpidonfhc.c that uses one mechanism at a time.
use regonf.Prelude.{
  WhenSome, Succeeds, ℕ, true, false, ◌≡◌, Option, none, some, List, [], ◌∷◌, arith, All,
}
use regonf.CString.{str_eq}
use regonf.Float.{FloatOps, FloatArith}
use regonf.Acp.{Link}
use regonf.Regonfhc.Handlers.{mode_both}
use regonf.Pid.{DoubleArith}
use regonf.Regpidonfhc.{RegPidOnfHc, control_em}
use regonf.Regpidonfhc.Control.{regpidonfhc_control}
use regonf.Regpidonfhc.Control.Invariant.{IsSound, regpidonfhc_control-IsSound, starts_sided}
use regonf.Regpidonfhc.Control.Cycle.{control_em-off}
use regonf.Regpidonfhc.Control.Uses.{SameUses, regpidonfhc_control-SameUses}
use regonf.Regpidonfhc.Events.{
  PidEvent, tick, set_em_mode, set_heater_power, set_cooler_power, turn_off, is_single, uses_one,
  pid_step, pid_steps,
}
use regonf.Regpidonfhc.Handlers

module _ {F : Type 0} ⦃float : FloatOps F⦄ where
  -- A sound regulator with at most one mechanism in use
  abbrev IsSingle : RegPidOnfHc F → Type 0
  IsSingle item = IsSound item × (is_single item ≡ true)

module _ {F D W : Type 0} ⦃float : FloatOps F⦄ ⦃arith_f : FloatArith F⦄ ⦃link : Link F W⦄
    (double : DoubleArith F D) where
  starts_sided-single :
      (item : RegPidOnfHc F) (w : W) → is_single item ≡ true → starts_sided item w ≡ true
  unfolding starts_sided
  starts_sided-single item w h = ground arith

  tick-IsSingle :
      (item : RegPidOnfHc F) (w : W)
      → IsSingle item
      → Succeeds (λ r. IsSingle r.0) (regpidonfhc_control double item w)
  tick-IsSingle item w h =
      both (regpidonfhc_control double item w)
        (regpidonfhc_control-IsSound double item w h.0 (λ _. starts_sided-single item w h.1))
        (regpidonfhc_control-SameUses double item w)
    where
      both :
          (o : Option (RegPidOnfHc F × W))
          → Succeeds (λ r. IsSound r.0) o
          → WhenSome (λ r. SameUses item r.0) o
          → Succeeds (λ r. IsSingle r.0) o
      both none s u = s
      both (some r) s u = (s, rw (u.0, u.1) h.1)

  set_em_mode-IsSingle :
      (item : RegPidOnfHc F) (v : List ℕ) (w : W)
      → IsSound item
      → str_eq mode_both v ≡ false
      → IsSingle (Handlers.set_em_mode item v w).0
  unfolding Handlers.set_em_mode
  set_em_mode-IsSingle item v w h b = grind (arith, control_em-off)

  set_power-IsSingle :
      (item : RegPidOnfHc F) (v : F) (w : W)
      → IsSingle item
      → IsSingle (Handlers.set_heater_power item v w).0
        × IsSingle (Handlers.set_cooler_power item v w).0
        × IsSingle (Handlers.turn_off item w).0
  unfolding Handlers.set_heater_power Handlers.set_cooler_power Handlers.turn_off control_em
  set_power-IsSingle item v w h = ground arith

  pid_step-IsSingle :
      (e : PidEvent F) (item : RegPidOnfHc F) (w : W)
      → IsSingle item
      → uses_one e ≡ true
      → Succeeds (λ r. IsSingle r.0) (pid_step double e item w)
  unfolding pid_step Handlers.enable Handlers.disable_reg Handlers.set_cooler_delta
      Handlers.set_heater_delta Handlers.set_heater_kp Handlers.set_heater_ki Handlers.set_heater_kd
      Handlers.set_cooler_kp Handlers.set_cooler_ki Handlers.set_cooler_kd Handlers.set_goal
      Handlers.set_heater_mode Handlers.set_cooler_mode Handlers.set_change_gap
      Handlers.secure_out_touch
  pid_step-IsSingle tick item w h u = tick-IsSingle item w h
  pid_step-IsSingle (set_em_mode v) item w h u = set_em_mode-IsSingle item v w h.0 (ground arith)
  pid_step-IsSingle (set_heater_power v) item w h u = (set_power-IsSingle item v w h).0
  pid_step-IsSingle (set_cooler_power v) item w h u = (set_power-IsSingle item v w h).1
  pid_step-IsSingle turn_off item w h u = (set_power-IsSingle item float.zero_f w h).2
  pid_step-IsSingle _ item w h u = ground arith

  -- A sound regulator with at most one mechanism in use never reaches a null pointer, whatever its
  -- server does to it between its cycles, in any order, except to put both mechanisms in use, and
  -- whatever the world answers. It stays sound.
  pub pid_steps-IsSound :
      (es : List (PidEvent F)) (item : RegPidOnfHc F) (w : W)
      → IsSound item
      → is_single item ≡ true
      → All (λ e. uses_one e ≡ true) es
      → Succeeds (λ r. IsSound r.0) (pid_steps double es item w)
  unfolding pid_steps
  pid_steps-IsSound [] item w h s u = h
  pid_steps-IsSound (e ∷ es) item w h s u =
      rest (pid_step double e item w) (pid_step-IsSingle e item w (h, s) u.0)
        (λ item' w' k. pid_steps-IsSound es item' w' k.0 k.1 u.1)
    where
      rest :
          (o : Option (RegPidOnfHc F × W))
          → Succeeds (λ r. IsSingle r.0) o
          → ((item' : RegPidOnfHc F) (w' : W)
              → IsSingle item'
              → Succeeds (λ r. IsSound r.0) (pid_steps double es item' w'))
          → Succeeds
              (λ r. IsSound r.0)
              (elim o as (λ _. Option (RegPidOnfHc F × W)) [
                | none ↦ none
                | some (item', w') ↦ pid_steps double es item' w'
              ])
      rest none k next = k
      rest (some (item', w')) k next = next item' w' k
