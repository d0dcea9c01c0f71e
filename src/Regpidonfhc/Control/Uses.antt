-- ===== src/Regpidonfhc/Control/Uses.antt =====
-- A cycle of `regpidonfhc_control` leaves it as it was which mechanisms are in use.
use regonf.Prelude.{WhenSome, Option, ◌≡◌, refl, ◌∙◌, inl, inr, none, some, arith, Bool-cases}
use regonf.Float.{FloatOps, FloatArith}
use regonf.Acp.{Link, read_sensor_fts}
use regonf.Reg.{StateReg, init, disable, busy, secure, mode_pid, mode_onf}
use regonf.Regonfhc.{Side, heating, cooling, side_of}
use regonf.Pid.{DoubleArith}
use regonf.Regpidonfhc.{RegPidOnfHc, get_em, control_em}
use regonf.Regpidonfhc.Control.{
  regpidonfhc_control, dispatch, clear, choose, control_init, control_busy, control_secure,
  control_disable, regulate, sensor_failed, change_over, compute_output, drive, switch_onf,
}

module _ {F : Type 0} where
  abbrev pub SameUses : RegPidOnfHc F → RegPidOnfHc F → Type 0
  SameUses item item' =
      (item'.heater.use_em ≡ item.heater.use_em) × (item'.cooler.use_em ≡ item.cooler.use_em)

  SameUses-trans : (a b c : RegPidOnfHc F) → SameUses a b → SameUses b c → SameUses a c
  SameUses-trans a b c h k = (k.0 ∙ h.0, k.1 ∙ h.1)

module _ {F W : Type 0} ⦃float : FloatOps F⦄ ⦃link : Link F W⦄ where
  control_init-SameUses : (item : RegPidOnfHc F) (w : W) → SameUses item (control_init item w).0
  unfolding control_init clear choose control_em
  control_init-SameUses item w = ground arith

  control_secure-SameUses : (item : RegPidOnfHc F) (w : W) → SameUses item (control_secure item w).0
  unfolding control_secure control_em
  control_secure-SameUses item w = ground arith

  control_disable-SameUses :
      (item : RegPidOnfHc F) (w : W) → SameUses item (control_disable item w).0
  unfolding control_disable control_em
  control_disable-SameUses item w = ground arith

  sensor_failed-SameUses : (item : RegPidOnfHc F) (w : W) → SameUses item (sensor_failed item w).0
  unfolding sensor_failed control_em
  sensor_failed-SameUses item w = ground arith

  change_over-SameUses :
      (s : Side) (item : RegPidOnfHc F) (w : W) → SameUses item (change_over s item w).1
  unfolding change_over control_em
  change_over-SameUses heating item w = ground arith
  change_over-SameUses cooling item w = ground arith

  drive-SameUses : (s : Side) (item : RegPidOnfHc F) (w : W) → SameUses item (drive s item w).0
  unfolding drive control_em
  drive-SameUses heating item w = ground arith
  drive-SameUses cooling item w = ground arith

module _ {F D W : Type 0} ⦃float : FloatOps F⦄ ⦃arith_f : FloatArith F⦄ ⦃link : Link F W⦄
    (double : DoubleArith F D) where
  compute_output-SameUses :
      (m : StateReg) (s : Side) (item : RegPidOnfHc F) (w : W)
      → SameUses item (compute_output double m s item w).0
  unfolding compute_output switch_onf
  compute_output-SameUses mode_pid heating item w = (refl, refl)
  compute_output-SameUses mode_pid cooling item w = (refl, refl)
  compute_output-SameUses mode_onf s item w = ground arith
  compute_output-SameUses _ s item w = (refl, refl)

  regulate-SameUses :
      (s : Side) (item : RegPidOnfHc F) (w : W) → SameUses item (regulate double s item w).0
  unfolding regulate
  regulate-SameUses s item w =
      let (s', item1, w1) = change_over s item w in
      let m = (get_em s' item1).mode in
      let (item2, w2) = compute_output double m s' item1 w1 in
      let (item3, _) = drive s' item2 w2 in
      SameUses-trans item item1 item3 (change_over-SameUses s item w) (
        SameUses-trans item1 item2 item3 (compute_output-SameUses m s' item1 w1)
          (drive-SameUses s' item2 w2))

  control_busy-SameUses :
      (item : RegPidOnfHc F) (w : W)
      → WhenSome (λ r. SameUses item r.0) (control_busy double item w)
  unfolding control_busy
  control_busy-SameUses item w =
      let (done, sensor, w1) = read_sensor_fts item.sensor w in
      let item1 = record item { sensor = sensor } in
      let item2 = record item1 { snsrf_count = 0 } in
      elim (Bool-cases done) [
        | inr failed ↦ rw failed (sensor_failed-SameUses item1 w1)
        | inl fine ↦ rw fine (in_charge (side_of item.state_r) item2 w1)
      ]
    where
      in_charge :
          (o : Option Side) (it : RegPidOnfHc F) (v : W)
          → WhenSome
              (λ r. SameUses it r.0)
              (elim o as (λ _. Option (RegPidOnfHc F × W)) [
                | none ↦ none
                | some s ↦ some (regulate double s it v)
              ])
      in_charge none it v = tt
      in_charge (some s) it v = regulate-SameUses s it v

  pub regpidonfhc_control-SameUses :
      (item : RegPidOnfHc F) (w : W)
      → WhenSome (λ r. SameUses item r.0) (regpidonfhc_control double item w)
  unfolding regpidonfhc_control dispatch
  regpidonfhc_control-SameUses item w = by_state item.state
    where
      by_state : (st : StateReg) → WhenSome (λ r. SameUses item r.0) (dispatch double st item w)
      by_state init = control_init-SameUses item w
      by_state busy = control_busy-SameUses item w
      by_state secure = control_secure-SameUses item w
      by_state disable = control_disable-SameUses item w
      by_state _ = (refl, refl)
