-- ===== src/Regpidonfhc/Control/Fault.antt =====
-- When `regpidonfhc_control` dereferences a null pointer.
use regonf.Prelude.{
  ◌∙◌, ◌||◌, Succeeds, ◌≡◌, refl, inl, inr, Bool, true, false, not, ◌&&◌, Option, none, some, arith,
  Bool-cases,
}
use regonf.Float.{FloatOps, FloatArith}
use regonf.Acp.{Link, read_sensor_fts}
use regonf.Reg.{StateReg, init, busy, is_green}
use regonf.Regonfhc.{side_of}
use regonf.Regonfhc.Control.Invariant.{is_side}
use regonf.Regonfhc.Handlers.{is_busy}
use regonf.Pid.{DoubleArith}
use regonf.Regpidonfhc.{RegPidOnfHc, control_em}
use regonf.Regpidonfhc.Control.{
  regpidonfhc_control, dispatch, clear, choose, control_init, control_busy,
}
use regonf.Regpidonfhc.Control.Invariant.{control_state, starts_sided}

abbrev pub is_none : {A : Type 0} → Option A → Bool
is_none none = true
is_none (some a) = false

side_of-none : (r : StateReg) → is_none (side_of r) ≡ not (is_side r)
side_of-none _ = ground arith

module _ {F D W : Type 0} ⦃float : FloatOps F⦄ ⦃arith_f : FloatArith F⦄ ⦃link : Link F W⦄
    (double : DoubleArith F D) where
  control_busy-none :
      (item : RegPidOnfHc F) (w : W)
      → is_none (control_busy double item w)
        ≡ ((read_sensor_fts item.sensor w).0 && not (is_side item.state_r))
  unfolding control_busy
  control_busy-none item w = ground (arith, side_of-none item.state_r)

  -- A cycle of the regulator reaches the null pointer just when it is busy, the sensor answers, and
  -- no mechanism is in charge.
  pub regpidonfhc_control_none :
      (item : RegPidOnfHc F) (w : W)
      → is_none (regpidonfhc_control double item w)
        ≡ (is_busy item.state && (read_sensor_fts item.sensor w).0 && not (is_side item.state_r))
  unfolding regpidonfhc_control dispatch
  regpidonfhc_control_none item w = by_state item.state
    where
      by_state :
          (st : StateReg)
          → is_none (dispatch double st item w)
            ≡ (is_busy st && (read_sensor_fts item.sensor w).0 && not (is_side item.state_r))
      by_state busy = control_busy-none item w
      by_state _ = refl

  clear_frame :
      (item : RegPidOnfHc F) (w : W)
      → let item' = (clear item w).0 in
        (item'.state ≡ busy)
        × (item'.state_r ≡ item.state_r)
        × (item'.heater.use_em ≡ item.heater.use_em)
        × (item'.cooler.use_em ≡ item.cooler.use_em)
  unfolding clear control_em
  clear_frame item w = ground arith

  choose-unsided :
      (item : RegPidOnfHc F) (w : W)
      → item.state ≡ busy
      → (not (item.heater.use_em && item.cooler.use_em)
          || is_side item.state_r
          || (read_sensor_fts item.sensor w).0)
        ≡ false
      → let (item', _) = choose item w in (item'.state ≡ busy) × (is_side item'.state_r ≡ false)
  unfolding choose
  choose-unsided item w e s = ground arith

  control_init-unsided :
      (item : RegPidOnfHc F) (w : W)
      → starts_sided item w ≡ false
      → let (item', _) = control_init item w in
        (item'.state ≡ busy) × (is_side item'.state_r ≡ false)
  unfolding control_init starts_sided
  control_init-unsided item w s =
      let (green, light, w1) = is_green item.green_light w in
      let (done, sensor, w2) = read_sensor_fts item.sensor w1 in
      let item2 = record item { green_light = light; sensor = sensor } in
      let (item3, w3) = clear item2 w2 in
      let c = clear_frame item2 w2 in
      elim (Bool-cases green) [
        | inr dark ↦ absurd (ground (arith, rw dark at s))
        | inl light_on ↦ elim (Bool-cases done) [
          | inr failed ↦ absurd (ground (arith, rw (light_on, failed) at s))
          | inl fine ↦
              let unsided = rw (light_on, fine) at s in
              rw (light_on, fine) (choose-unsided item3 w3 c.0 (rw (c.1, c.2, c.3) unsided))
        ]
      ]

  -- A start that gives a regulator with both mechanisms in use none of them leaves it busy all the
  -- same, and the next cycle reaches the null pointer just when the sensor answers it.
  pub unsided_start :
      (item : RegPidOnfHc F) (w : W)
      → item.state ≡ init
      → starts_sided item w ≡ false
      → Succeeds
          (λ r.
            (r.0.state ≡ busy)
            × (is_none (regpidonfhc_control double r.0 r.1) ≡ (read_sensor_fts r.0.sensor r.1).0))
          (regpidonfhc_control double item w)
  unfolding dispatch
  unsided_start item w e s =
      let (item', w') = control_init item w in
      let (started, unsided) = control_init-unsided item w s in
      rw (control_state double item w e)
        (started, regpidonfhc_control_none item' w' ∙ rw (started, unsided) (ground arith))
