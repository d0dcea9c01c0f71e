-- ===== src/Regonfhc/Events.antt =====
-- The life of a regulator: the cycles of its thread, and what the server does to it in between. The
-- mutex of the program makes each of these a step of its own.
use regonf.Prelude.{Succeeds, ℕ, Option, none, some, List, [], ◌∷◌, arith}
use regonf.Prelude.Int.{ℤ}
use regonf.Float.{FloatOps}
use regonf.Acp.{Link}
use regonf.Regonfhc.{RegOnfHc}
use regonf.Regonfhc.Control.{control}
use regonf.Regonfhc.Control.Invariant.{IsSound, control-IsSound, control_em-IsIdleUnused}
use regonf.Regonfhc.Control.Cycle.{control_em-off}
use regonf.Regonfhc.Handlers

pub data Event (F : Type 0) : Type 0 where
  tick : Event F
  enable : Event F
  disable_reg : Event F
  set_cooler_delta : F → Event F
  set_heater_delta : F → Event F
  set_goal : F → Event F
  set_change_gap : ℤ → Event F
  set_em_mode : List ℕ → Event F
  set_heater_power : F → Event F
  set_cooler_power : F → Event F
  turn_off : Event F
  secure_out_touch : Event F

module _ {F W : Type 0} ⦃float : FloatOps F⦄ ⦃link : Link F W⦄ where
  unfoldable pub step : Event F → RegOnfHc F → W → Option (RegOnfHc F × W)
  step tick item w = control item w
  step enable item w = some (Handlers.enable item, w)
  step disable_reg item w = some (Handlers.disable_reg item, w)
  step (set_cooler_delta v) item w = some (Handlers.set_cooler_delta item v, w)
  step (set_heater_delta v) item w = some (Handlers.set_heater_delta item v, w)
  step (set_goal v) item w = some (Handlers.set_goal item v, w)
  step (set_change_gap v) item w = some (Handlers.set_change_gap item v, w)
  step (set_em_mode v) item w = some (Handlers.set_em_mode item v w)
  step (set_heater_power v) item w = some (Handlers.set_heater_power item v w)
  step (set_cooler_power v) item w = some (Handlers.set_cooler_power item v w)
  step turn_off item w = some (Handlers.turn_off item w)
  step secure_out_touch item w = some (Handlers.secure_out_touch item, w)

  unfoldable pub steps : List (Event F) → RegOnfHc F → W → Option (RegOnfHc F × W)
  unfolding step
  steps [] item w = some (item, w)
  steps (e ∷ es) item w = elim (step e item w) [
    | none ↦ none
    | some (item', w') ↦ steps es item' w'
  ]

  set_em_mode-IsSound :
      (item : RegOnfHc F) (v : List ℕ) (w : W)
      → IsSound item
      → IsSound (Handlers.set_em_mode item v w).0
  unfolding Handlers.set_em_mode
  set_em_mode-IsSound item v w h = grind (arith, control_em-off)

  pub step-IsSound :
      (e : Event F) (item : RegOnfHc F) (w : W)
      → IsSound item
      → Succeeds (λ r. IsSound r.0) (step e item w)
  unfolding step Handlers.enable Handlers.disable_reg Handlers.set_cooler_delta
      Handlers.set_heater_delta Handlers.set_goal Handlers.set_change_gap Handlers.set_heater_power
      Handlers.set_cooler_power Handlers.turn_off Handlers.secure_out_touch
  step-IsSound tick item w h = control-IsSound item w h
  step-IsSound (set_em_mode v) item w h = set_em_mode-IsSound item v w h
  step-IsSound _ item w h = grind (arith, control_em-IsIdleUnused)

  steps-cases :
      (P : RegOnfHc F → Type 0) (o : Option (RegOnfHc F × W)) (es : List (Event F))
      → Succeeds (λ r. P r.0) o
      → ((item : RegOnfHc F) (w : W) → P item → Succeeds (λ r. P r.0) (steps es item w))
      → Succeeds (λ r. P r.0) (elim o [ none ↦ none | some (item', w') ↦ steps es item' w' ])
  steps-cases P none es h next = h
  steps-cases P (some (item, w)) es h next = next item w h

  -- Whatever the server does to a sound regulator between its cycles, in any order, and whatever
  -- the world answers, no cycle reaches a null pointer and the regulator stays sound.
  pub steps-IsSound :
      (es : List (Event F)) (item : RegOnfHc F) (w : W)
      → IsSound item
      → Succeeds (λ r. IsSound r.0) (steps es item w)
  unfolding steps
  steps-IsSound [] item w h = h
  steps-IsSound (e ∷ es) item w h =
      steps-cases IsSound (step e item w) es (step-IsSound e item w h)
        (λ item' w' h'. steps-IsSound es item' w' h')
