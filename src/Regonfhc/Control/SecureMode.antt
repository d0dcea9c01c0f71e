-- ===== src/Regonfhc/Control/SecureMode.antt =====
-- Cycles of a regulator whose client has fallen silent.
use regonf.Prelude.{Succeeds, ℕ, zero, suc, ◌≡◌, refl, ap, ◌∙◌, true, false, arith, if◌then◌else◌}
use regonf.Float.{FloatOps}
use regonf.Acp.{Link}
use regonf.Reg.{busy, secure, RegSecure, secure_need, secure_touch}
use regonf.Regonfhc.{RegOnfHcEm, RegOnfHc, control_em}
use regonf.Regonfhc.Control.{control, dispatch, control_secure}
use regonf.Regonfhc.Control.Invariant.{Succeeds-mono}
use regonf.Regonfhc.Control.Cycle.{control_em_lem, control_state}
use regonf.Regonfhc.Control.Failure.{cycles, cycles_step}
use regonf.Regonfhc.Handlers.{secure_out_touch}

module _ {F : Type 0} where
  -- A mechanism puts out a duty cycle, if it is in use.
  abbrev pub PutsOut : F → RegOnfHcEm F → Type 0
  PutsOut duty e = e.use_em ≡ true → e.output ≡ duty

  -- Both mechanisms run at the secure duty cycles.
  pub record IsSecured (item : RegOnfHc F) : Type 0 where
    pub heater_secured : PutsOut item.secure_out.heater_duty_cycle item.heater
    pub cooler_secured : PutsOut item.secure_out.cooler_duty_cycle item.cooler

module _ {F W : Type 0} ⦃float : FloatOps F⦄ ⦃link : Link F W⦄ where
  control_secure_lem :
      (item : RegOnfHc F) (w : W)
      → item.state ≡ secure
      → item.secure_out.active ≡ true
      → item.secure_out.done ≡ true
      → let item' = (control_secure item w).0 in
        IsSecured item' × (item'.state ≡ secure) × (item'.secure_out ≡ item.secure_out)
  unfolding control_secure secure_need
  control_secure_lem item w e a d =
      let duty = item.secure_out.heater_duty_cycle in
      let (_, w1) = control_em item.heater duty w in
      ground (
        arith,
        control_em_lem item.heater duty w,
        control_em_lem item.cooler item.secure_out.cooler_duty_cycle w1,
      )

  -- Once the silence of the client has been noticed, the regulator keeps both mechanisms that are
  -- in use at their secure duty cycles, for any number of cycles, and never faults.
  pub secure_holds :
      (n : ℕ) (item : RegOnfHc F) (w : W)
      → item.state ≡ secure
      → item.secure_out.active ≡ true
      → item.secure_out.done ≡ true
      → Succeeds
          (λ r. IsSecured r.0 × (r.0.state ≡ secure) × (r.0.secure_out ≡ item.secure_out))
          (cycles (suc n) item w)
  unfolding dispatch cycles
  secure_holds zero item w e a d =
      rw (cycles_step zero item w (control_state item w e)) (control_secure_lem item w e a d)
  secure_holds (suc n) item w e a d =
      let (item', w') = control_secure item w in
      let (_, e', same) = control_secure_lem item w e a d in
      rw (cycles_step (suc n) item w (control_state item w e)) (
        Succeeds-mono _ _ (cycles (suc n) item' w') (λ r (sec, st, so). (sec, st, so ∙ same))
          (secure_holds n item' w' e' (ap (λ (o : RegSecure F). o.active) same ∙ a)
            (ap (λ (o : RegSecure F). o.done) same ∙ d)))

  control_secure-releases :
      (item : RegOnfHc F) (w : W)
      → item.state ≡ secure
      → item.secure_out.done ≡ false
      → let item' = (control_secure item w).0 in
        item'.state ≡ (if item'.secure_out.done then secure else busy)
  unfolding control_secure secure_need
  control_secure-releases item w e d = ground arith

  -- A regulator in the secure state that hears from its client is busy again after its next cycle,
  -- unless the check fires once more in that very cycle.
  pub touch_releases :
      (item : RegOnfHc F) (w : W)
      → item.state ≡ secure
      → Succeeds
          (λ r. r.0.state ≡ (if r.0.secure_out.done then secure else busy))
          (control (secure_out_touch item) w)
  unfolding dispatch secure_out_touch secure_touch
  touch_releases item w e =
      rw (control_state (secure_out_touch item) w e)
        (control_secure-releases (secure_out_touch item) w e refl)
