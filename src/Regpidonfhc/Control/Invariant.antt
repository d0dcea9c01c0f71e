-- ===== src/Regpidonfhc/Control/Invariant.antt =====
-- What holds of the regulator of lib/regpidonfhc.c between two cycles, and when a cycle fails.
use regonf.Prelude.{
  ap, Succeeds, ◌≤◌, ◌≡◌, refl, inl, inr, Bool, true, false, not, ◌&&◌, ◌||◌, arith, Bool-cases,
}
use regonf.Float.{FloatOps, FloatArith}
use regonf.Acp.{Link, read_sensor_fts}
use regonf.Reg.{StateReg, off, init, disable, busy, secure, mode_pid, mode_onf, is_green}
use regonf.Regonfhc.{Side, heating, cooling, state_of}
use regonf.Regonfhc.Control.Invariant.{is_running, is_side, is_onf, side_of_lem}
use regonf.Pid.{DoubleArith}
use regonf.Regpidonfhc.{RegPidOnfHcEm, RegPidOnfHc, get_em, control_em}
use regonf.Regpidonfhc.Control.{
  regpidonfhc_control, dispatch, clear, choose, control_init, control_busy, control_secure,
  control_disable, regulate, sensor_failed, change_over, compute_output, drive, switch_onf,
}

module _ {F : Type 0} ⦃float : FloatOps F⦄ where
  -- A mechanism that is not in use has no output.
  abbrev pub IsIdleUnused : RegPidOnfHcEm F → Type 0
  IsIdleUnused e = e.use_em ≡ false → e.output ≡ float.zero_f

  pub record IsSound (item : RegPidOnfHc F) : Type 0 where
    pub sided : is_running item.state ≡ true → is_side item.state_r ≡ true
    pub switched : is_running item.state ≡ true → is_onf item.state_onf ≡ true
    pub heater_unused : IsIdleUnused item.heater
    pub cooler_unused : IsIdleUnused item.cooler
    pub counted : item.snsrf_count ≤ 8

  -- The state inside a busy cycle, with the mechanism in charge
  abbrev pub IsBusy : Side → RegPidOnfHc F → Type 0
  IsBusy s item = IsSound item × (item.state ≡ busy) × (item.state_r ≡ state_of s)

module _ {F W : Type 0} ⦃float : FloatOps F⦄ ⦃link : Link F W⦄ where
  pub control_em-IsIdleUnused :
      (e : RegPidOnfHcEm F) (o : F) (w : W) → IsIdleUnused e → IsIdleUnused (control_em e o w).0
  unfolding control_em
  control_em-IsIdleUnused e o w h = ground arith

  -- Whether a start gives the regulator a mechanism: with both in use and none chosen before, the
  -- second reading of the sensor has to succeed.
  unfoldable pub starts_sided : RegPidOnfHc F → W → Bool
  starts_sided item w =
      let (green, light, w1) = is_green item.green_light w in
      let (done, sensor, w2) = read_sensor_fts item.sensor w1 in
      let (item3, w3) = clear (record item { green_light = light; sensor = sensor }) w2 in
      not (green && done)
      || not (item.heater.use_em && item.cooler.use_em)
      || is_side item.state_r
      || (read_sensor_fts item3.sensor w3).0

  pub clear_lem :
      (item : RegPidOnfHc F) (w : W)
      → IsSound item
      → let item' = (clear item w).0 in
        IsIdleUnused item'.heater
        × IsIdleUnused item'.cooler
        × (item'.snsrf_count ≡ 0)
        × (item'.state ≡ busy)
        × (is_onf item'.state_onf ≡ true)
        × (item'.state_r ≡ item.state_r)
        × (item'.heater.use_em ≡ item.heater.use_em)
        × (item'.cooler.use_em ≡ item.cooler.use_em)
  unfolding clear control_em
  clear_lem item w h = grind (arith, control_em-IsIdleUnused)

  choose-IsSound :
      (item : RegPidOnfHc F) (w : W)
      → IsIdleUnused item.heater
      → IsIdleUnused item.cooler
      → item.snsrf_count ≡ 0
      → is_onf item.state_onf ≡ true
      → (not (item.heater.use_em && item.cooler.use_em)
          || is_side item.state_r
          || (read_sensor_fts item.sensor w).0)
        ≡ true
      → IsSound (choose item w).0
  unfolding choose
  choose-IsSound item w h c z o s = ground arith

  control_disable-IsSound :
      (item : RegPidOnfHc F) (w : W) → IsSound item → IsSound (control_disable item w).0
  unfolding control_disable
  control_disable-IsSound item w h = ground arith

  control_secure-IsSound :
      (item : RegPidOnfHc F) (w : W)
      → IsSound item
      → item.state ≡ secure
      → IsSound (control_secure item w).0
  unfolding control_secure
  control_secure-IsSound item w h e = grind (arith, control_em-IsIdleUnused)

  pub change_over-IsBusy :
      (s : Side) (item : RegPidOnfHc F) (w : W)
      → IsBusy s item
      → let (s', item', _) = change_over s item w in IsBusy s' item'
  unfolding change_over
  change_over-IsBusy heating item w (h, e, r) = grind (arith, control_em-IsIdleUnused)
  change_over-IsBusy cooling item w (h, e, r) = grind (arith, control_em-IsIdleUnused)

  drive-IsSound :
      (s : Side) (item : RegPidOnfHc F) (w : W) → IsBusy s item → IsSound (drive s item w).0
  unfolding drive
  drive-IsSound heating item w (h, e, r) = grind (arith, control_em-IsIdleUnused)
  drive-IsSound cooling item w (h, e, r) = grind (arith, control_em-IsIdleUnused)

  sensor_failed-IsSound :
      (item : RegPidOnfHc F) (w : W)
      → IsSound item
      → item.state ≡ busy
      → IsSound (sensor_failed item w).0
  unfolding sensor_failed
  sensor_failed-IsSound item w h e = grind (arith, control_em-IsIdleUnused)

  control_init-IsSound :
      (item : RegPidOnfHc F) (w : W)
      → IsSound item
      → item.state ≡ init
      → starts_sided item w ≡ true
      → IsSound (control_init item w).0
  unfolding control_init starts_sided
  control_init-IsSound item w h e s =
      let (green, light, w1) = is_green item.green_light w in
      let (done, sensor, w2) = read_sensor_fts item.sensor w1 in
      let item2 = record item { green_light = light; sensor = sensor } in
      let (item3, w3) = clear item2 w2 in
      let c = clear_lem item2 w2 (ground arith) in
      elim (Bool-cases green) [
        | inr dark ↦ rw dark (ground arith)
        | inl light_on ↦ elim (Bool-cases done) [
          | inr failed ↦ rw (light_on, failed) (ground arith)
          | inl fine ↦
              let sided = rw (light_on, fine) at s in
              rw (light_on, fine)
                (choose-IsSound item3 w3 c.0 c.1 c.2 c.4 (rw (c.5, c.6, c.7) sided))
        ]
      ]

module _ {F D W : Type 0} ⦃float : FloatOps F⦄ ⦃arith_f : FloatArith F⦄ ⦃link : Link F W⦄
    (double : DoubleArith F D) where
  pub compute_output-IsBusy :
      (m : StateReg) (s : Side) (item : RegPidOnfHc F) (w : W)
      → IsBusy s item
      → IsBusy s (compute_output double m s item w).0
  unfolding compute_output switch_onf
  compute_output-IsBusy mode_pid heating item w h = ground arith
  compute_output-IsBusy mode_pid cooling item w h = ground arith
  compute_output-IsBusy mode_onf s item w h = ground arith
  compute_output-IsBusy _ s item w h = h

  regulate-IsSound :
      (s : Side) (item : RegPidOnfHc F) (w : W)
      → IsBusy s item
      → IsSound (regulate double s item w).0
  unfolding regulate
  regulate-IsSound s item w h =
      let (s', item1, w1) = change_over s item w in
      let m = (get_em s' item1).mode in
      let (item2, w2) = compute_output double m s' item1 w1 in
      drive-IsSound s' item2 w2
        (compute_output-IsBusy m s' item1 w1 (change_over-IsBusy s item w h))

  control_busy-IsSound :
      (item : RegPidOnfHc F) (w : W)
      → IsSound item
      → item.state ≡ busy
      → Succeeds (λ r. IsSound r.0) (control_busy double item w)
  unfolding control_busy
  control_busy-IsSound item w h e =
      let (done, sensor, w1) = read_sensor_fts item.sensor w in
      let item1 = record item { sensor = sensor } in
      let item2 = record item1 { snsrf_count = 0 } in
      elim (Bool-cases done) [
        | inr failed ↦ rw failed (sensor_failed-IsSound item1 w1 (ground arith) e)
        | inl fine ↦
            let (s, found, r) = side_of_lem item.state_r (ground arith) in
            rw (fine, found) (regulate-IsSound s item2 w1 (ground arith, e, r))
      ]

  pub control_state :
      (item : RegPidOnfHc F) (w : W) {st : StateReg}
      → item.state ≡ st
      → regpidonfhc_control double item w ≡ dispatch double st item w
  unfolding regpidonfhc_control
  control_state item w e = ap (λ t. dispatch double t item w) e

  -- From a sound regulator `regpidonfhc_control` reaches no null pointer and the regulator is sound
  -- again, if a start with both mechanisms in use, while none is chosen yet, reads the sensor the
  -- second time too.
  pub regpidonfhc_control-IsSound :
      (item : RegPidOnfHc F) (w : W)
      → IsSound item
      → (item.state ≡ init → starts_sided item w ≡ true)
      → Succeeds (λ r. IsSound r.0) (regpidonfhc_control double item w)
  unfolding regpidonfhc_control dispatch
  regpidonfhc_control-IsSound item w h start = by_state item.state refl
    where
      by_state :
          (st : StateReg)
          → item.state ≡ st
          → Succeeds (λ r. IsSound r.0) (dispatch double st item w)
      by_state init e = control_init-IsSound item w h e (start e)
      by_state busy e = control_busy-IsSound item w h e
      by_state secure e = control_secure-IsSound item w h e
      by_state disable e = control_disable-IsSound item w h
      by_state off e = h
      by_state _ e = ground arith
