-- ===== src/Regonfhc/Control/Cycle.antt =====
-- One cycle of a running regulator: which mechanism works, and when that changes.
use regonf.Prelude.{Succeeds, ◌≡◌, refl, ap, ◌∙◌, ◌⊎◌, true, some, arith, if◌then◌else◌}
use regonf.Float.{FloatOps}
use regonf.Acp.{Link, SensorFts, set_em_float, read_sensor_fts}
use regonf.Reg.{StateReg, busy}
use regonf.Regonfhc.{RegOnfHcEm, RegOnfHc, Side, heating, cooling, side_of, state_of, control_em}
use regonf.Regonfhc.Control.{
  control, dispatch, control_busy, regulate, change_over, drive, switch_onf,
}
use regonf.Regonfhc.Control.Invariant.{
  IsSound, IsIdleUnused, change_over-IsSound, switch_onf-IsSound, side_of_lem,
}

module _ {F W : Type 0} ⦃float : FloatOps F⦄ ⦃link : Link F W⦄ where
  -- What a mechanism is told, it puts out if it is in use; the rest of it stays.
  pub control_em_lem :
      (e : RegOnfHcEm F) (o : F) (w : W)
      → let e' = (control_em e o w).0 in
        (e'.use_em ≡ e.use_em)
        × (e'.delta ≡ e.delta)
        × (e'.em.pwm_rsl ≡ e.em.pwm_rsl)
        × (e'.output ≡ (if e.use_em then o else e.output))
  unfolding control_em set_em_float
  control_em_lem e o w = ground arith

  pub control_em-off :
      (e : RegOnfHcEm F) (w : W)
      → IsIdleUnused e
      → (control_em e float.zero_f w).0.output ≡ float.zero_f
  unfolding control_em
  control_em-off e w h = ground arith

pub side_of-state_of : (s : Side) → side_of (state_of s) ≡ some s
side_of-state_of heating = refl
side_of-state_of cooling = refl

-- One mechanism is in charge, and the other one is off.
module _ {F : Type 0} ⦃float : FloatOps F⦄ where
  abbrev pub Exclusive : RegOnfHc F → Type 0
  Exclusive item =
      ((item.state_r ≡ StateReg.heater) × (item.cooler.output ≡ float.zero_f))
      ⊎ ((item.state_r ≡ StateReg.cooler) × (item.heater.output ≡ float.zero_f))

module _ {F : Type 0} where
  -- The regulator as it enters the regulating step of a cycle
  abbrev pub with_reading : RegOnfHc F → SensorFts F → RegOnfHc F
  with_reading item sensor = record item { sensor = sensor; snsrf_count = 0 }

module _ {F W : Type 0} ⦃float : FloatOps F⦄ ⦃link : Link F W⦄ where
  pub control_state :
      (item : RegOnfHc F) (w : W) {st : StateReg}
      → item.state ≡ st
      → control item w ≡ dispatch st item w
  unfolding control
  control_state item w e = ap (λ t. dispatch t item w) e

  drive-Exclusive :
      (s : Side) (item : RegOnfHc F) (w : W)
      → IsSound item
      → item.state_r ≡ state_of s
      → Exclusive (drive s item w).0
  unfolding drive
  drive-Exclusive heating item w h r = grind (arith, control_em-off)
  drive-Exclusive cooling item w h r = grind (arith, control_em-off)

  -- A busy cycle with a reading is the regulating step of the mechanism in charge.
  pub control_regulates :
      (item : RegOnfHc F) (w : W) (s : Side)
      → item.state ≡ busy
      → item.state_r ≡ state_of s
      → let (done, sensor, w1) = read_sensor_fts item.sensor w in
        done ≡ true → control item w ≡ some (regulate s (with_reading item sensor) w1)
  unfolding dispatch control_busy
  control_regulates item w s e r d =
      let found : side_of item.state_r ≡ some s = ap side_of r ∙ side_of-state_of s in
      rw (control_state item w e, d, found)

  regulate-Exclusive :
      (s : Side) (item : RegOnfHc F) (w : W)
      → IsSound item
      → item.state ≡ busy
      → item.state_r ≡ state_of s
      → Exclusive (regulate s item w).0
  unfolding regulate
  regulate-Exclusive s item w h e r =
      let (s', item1, w1) = change_over s item w in
      let (h1, e1, r1) = change_over-IsSound s item w h e r in
      let (h2, e2, r2) = switch_onf-IsSound s' item1 h1 e1 r1 in
      drive-Exclusive s' (switch_onf item1.state_onf s' item1) w1 h2 r2

  -- After a busy cycle with a reading, from a sound regulator, the mechanism that is not in charge
  -- is off: the heater and the cooler never work against each other.
  pub control-Exclusive :
      (item : RegOnfHc F) (w : W)
      → IsSound item
      → item.state ≡ busy
      → (read_sensor_fts item.sensor w).0 ≡ true
      → Succeeds (λ r. Exclusive r.0) (control item w)
  control-Exclusive item w h e d =
      let (done, sensor, w1) = read_sensor_fts item.sensor w in
      let (s, _, r) = side_of_lem item.state_r (ground (arith, h.sided)) in
      rw (control_regulates item w s e r d)
        (regulate-Exclusive s (with_reading item sensor) w1 (ground arith) e r)
