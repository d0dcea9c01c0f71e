-- ===== src/Regonfhc/Control/Invariant.antt =====
-- What holds of a regulator between two cycles.
use regonf.Prelude.{
  Succeeds, ◌≤◌, ◌≡◌, refl, inl, inr, Bool, true, false, Option, none, some, arith, Bool-cases,
}
use regonf.Float.{FloatOps}
use regonf.Acp.{Link, read_sensor_fts}
use regonf.Reg.{StateReg, off, init, run_do, disable, wait, busy, secure}
use regonf.Regonfhc.{RegOnfHcEm, RegOnfHc, Side, heating, cooling, side_of, state_of, control_em}
use regonf.Regonfhc.Control.{
  control, dispatch, control_init, control_busy, control_secure, control_disable, regulate,
  sensor_failed, change_over, drive, switch_onf,
}

-- The states in which a mechanism is in charge
abbrev pub is_running : StateReg → Bool
is_running busy = true
is_running secure = true
is_running _ = false

abbrev pub is_side : StateReg → Bool
is_side StateReg.heater = true
is_side StateReg.cooler = true
is_side _ = false

abbrev pub is_onf : StateReg → Bool
is_onf run_do = true
is_onf wait = true
is_onf _ = false

module _ {F : Type 0} ⦃float : FloatOps F⦄ where
  -- A mechanism that is not in use has no output.
  abbrev pub IsIdleUnused : RegOnfHcEm F → Type 0
  IsIdleUnused e = e.use_em ≡ false → e.output ≡ float.zero_f

  pub record IsSound (item : RegOnfHc F) : Type 0 where
    pub sided : is_running item.state ≡ true → is_side item.state_r ≡ true
    pub switched : is_running item.state ≡ true → is_onf item.state_onf ≡ true
    pub heater_unused : IsIdleUnused item.heater
    pub cooler_unused : IsIdleUnused item.cooler
    pub counted : item.snsrf_count ≤ 8

  pub switch_onf-IsSound :
      (s : Side) (item : RegOnfHc F)
      → IsSound item
      → item.state ≡ busy
      → item.state_r ≡ state_of s
      → let item' = switch_onf item.state_onf s item in
        IsSound item' × (item'.state ≡ busy) × (item'.state_r ≡ state_of s)
  unfolding switch_onf
  switch_onf-IsSound s item h e r = ground arith

pub side_of_lem :
    (r : StateReg) → is_side r ≡ true → (s : Side) × (side_of r ≡ some s) × (r ≡ state_of s)
side_of_lem StateReg.heater h = (heating, refl, refl)
side_of_lem StateReg.cooler h = (cooling, refl, refl)
side_of_lem _ h = cc

pub Succeeds-mono :
    {A : Type 0} (P Q : A → Type 0) (o : Option A)
    → ((a : A) → P a → Q a)
    → Succeeds P o
    → Succeeds Q o
Succeeds-mono P Q none f h = h
Succeeds-mono P Q (some a) f h = f a h

module _ {F W : Type 0} ⦃float : FloatOps F⦄ ⦃link : Link F W⦄ where
  pub control_em-IsIdleUnused :
      (e : RegOnfHcEm F) (o : F) (w : W) → IsIdleUnused e → IsIdleUnused (control_em e o w).0
  unfolding control_em
  control_em-IsIdleUnused e o w h = ground arith

  control_disable-IsSound :
      (item : RegOnfHc F) (w : W) → IsSound item → IsSound (control_disable item w).0
  unfolding control_disable
  control_disable-IsSound item w h = ground arith

  control_secure-IsSound :
      (item : RegOnfHc F) (w : W)
      → IsSound item
      → item.state ≡ secure
      → IsSound (control_secure item w).0
  unfolding control_secure
  control_secure-IsSound item w h e = grind (arith, control_em-IsIdleUnused)

  control_init-IsSound :
      (item : RegOnfHc F) (w : W)
      → IsSound item
      → item.state ≡ init
      → IsSound (control_init item w).0
  unfolding control_init
  control_init-IsSound item w h e = grind (arith, control_em-IsIdleUnused)

  pub change_over-IsSound :
      (s : Side) (item : RegOnfHc F) (w : W)
      → IsSound item
      → item.state ≡ busy
      → item.state_r ≡ state_of s
      → let (s', item', _) = change_over s item w in
        IsSound item' × (item'.state ≡ busy) × (item'.state_r ≡ state_of s')
  unfolding change_over
  change_over-IsSound heating item w h e r = grind (arith, control_em-IsIdleUnused)
  change_over-IsSound cooling item w h e r = grind (arith, control_em-IsIdleUnused)

  drive-IsSound :
      (s : Side) (item : RegOnfHc F) (w : W)
      → IsSound item
      → item.state ≡ busy
      → IsSound (drive s item w).0
  unfolding drive
  drive-IsSound heating item w h e = grind (arith, control_em-IsIdleUnused)
  drive-IsSound cooling item w h e = grind (arith, control_em-IsIdleUnused)

  regulate-IsSound :
      (s : Side) (item : RegOnfHc F) (w : W)
      → IsSound item
      → item.state ≡ busy
      → item.state_r ≡ state_of s
      → IsSound (regulate s item w).0
  unfolding regulate
  regulate-IsSound s item w h e r =
      let (s', item1, w1) = change_over s item w in
      let (h1, e1, r1) = change_over-IsSound s item w h e r in
      let (h2, e2, r2) = switch_onf-IsSound s' item1 h1 e1 r1 in
      drive-IsSound s' (switch_onf item1.state_onf s' item1) w1 h2 e2

  pub sensor_failed-IsSound :
      (item : RegOnfHc F) (w : W)
      → IsSound item
      → item.state ≡ busy
      → IsSound (sensor_failed item w).0
  unfolding sensor_failed
  sensor_failed-IsSound item w h e = grind (arith, control_em-IsIdleUnused)

  control_busy-IsSound :
      (item : RegOnfHc F) (w : W)
      → IsSound item
      → item.state ≡ busy
      → Succeeds (λ r. IsSound r.0) (control_busy item w)
  unfolding control_busy
  control_busy-IsSound item w h e =
      let (done, sensor, w1) = read_sensor_fts item.sensor w in
      let item1 = record item { sensor = sensor } in
      let item2 = record item1 { snsrf_count = 0 } in
      elim (Bool-cases done) [
        | inr failed ↦ rw failed (sensor_failed-IsSound item1 w1 (ground arith) e)
        | inl fine ↦
            let (s, found, r) = side_of_lem item.state_r (ground arith) in
            rw (fine, found) (regulate-IsSound s item2 w1 (ground arith) e r)
      ]

  -- From a sound regulator `regonfhc_control` reaches no null pointer, in any state and whatever
  -- the sensors, the peers and the clock answer, and the regulator is sound again.
  pub control-IsSound :
      (item : RegOnfHc F) (w : W) → IsSound item → Succeeds (λ r. IsSound r.0) (control item w)
  unfolding control
  control-IsSound item w h = by_state item.state refl
    where
      by_state :
          (st : StateReg) → item.state ≡ st → Succeeds (λ r. IsSound r.0) (dispatch st item w)
      by_state init e = control_init-IsSound item w h e
      by_state busy e = control_busy-IsSound item w h e
      by_state secure e = control_secure-IsSound item w h e
      by_state disable e = control_disable-IsSound item w h
      by_state off e = h
      by_state _ e = ground arith
