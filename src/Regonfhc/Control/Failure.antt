-- ===== src/Regonfhc/Control/Failure.antt =====
-- Several cycles of a regulator: a sensor that stops answering, and a regulator that is off.
use regonf.Prelude.{
  Succeeds, ℕ, zero, suc, ◌+◌, ◌≤◌, ◌<◌, ◌≡◌, refl, ap, ◌∙◌, false, Option, none, some, arith,
  if◌then◌else◌,
}
use regonf.Float.{FloatOps}
use regonf.Acp.{Link, SensorFts, read_sensor_fts, set_em_float}
use regonf.Reg.{off, init, disable, busy}
use regonf.Regonfhc.{RegOnfHc, RegOnfHcEm, control_em}
use regonf.Regonfhc.Control.{control, dispatch, control_busy, control_disable, sensor_failed}
use regonf.Regonfhc.Control.Invariant.{IsSound}
use regonf.Regonfhc.Control.Cycle.{control_em-off, control_state}

-- No sensor answers over this link.
abbrev pub IsSilent : {F W : Type 0} → Link F W → Type 0
IsSilent {F} {W} link = (s : SensorFts F) (w : W) → (read_sensor_fts ⦃link = link⦄ s w).0 ≡ false

-- Both mechanisms are off.
pub record IsStopped {F : Type 0} ⦃float : FloatOps F⦄ (item : RegOnfHc F) : Type 0 where
  pub heater_stopped : item.heater.output ≡ float.zero_f
  pub cooler_stopped : item.cooler.output ≡ float.zero_f

module _ {F W : Type 0} ⦃float : FloatOps F⦄ ⦃link : Link F W⦄ where
  -- `n` cycles of the thread that runs a program
  unfoldable pub cycles : ℕ → RegOnfHc F → W → Option (RegOnfHc F × W)
  cycles zero item w = some (item, w)
  cycles (suc n) item w = elim (control item w) [
    | none ↦ none
    | some (item', w') ↦ cycles n item' w'
  ]

  pub cycles_step :
      (n : ℕ) (item : RegOnfHc F) (w : W) {item' : RegOnfHc F} {w' : W}
      → control item w ≡ some (item', w')
      → cycles (suc n) item w ≡ cycles n item' w'
  unfolding cycles
  cycles_step n item w e = rw (e, cycles)

  control_fails :
      (item : RegOnfHc F) (w : W)
      → item.state ≡ busy
      → let (done, sensor, w1) = read_sensor_fts item.sensor w in
        done ≡ false → control item w ≡ some (sensor_failed (record item { sensor = sensor }) w1)
  unfolding dispatch control_busy
  control_fails item w e d = rw (control_state item w e, d)

  sensor_failed-stops :
      (item : RegOnfHc F) (w : W)
      → IsSound item
      → 7 < item.snsrf_count
      → let item' = (sensor_failed item w).0 in IsStopped item' × (item'.state ≡ init)
  unfolding sensor_failed
  sensor_failed-stops item w h c = grind (arith, control_em-off)

  sensor_failed-counts :
      (item : RegOnfHc F) (w : W)
      → item.snsrf_count ≤ 7
      → sensor_failed item w ≡ (record item { snsrf_count = item.snsrf_count + 1 }, w)
  unfolding sensor_failed
  sensor_failed-counts item w c = ground arith

  -- A busy, sound regulator whose sensor has failed `8 - k` times in a row and stays silent has
  -- switched both mechanisms off and waits to be started again after `k + 1` more cycles.
  pub silent_stops :
      (k : ℕ) (item : RegOnfHc F) (w : W)
      → IsSilent link
      → IsSound item
      → item.state ≡ busy
      → item.snsrf_count + k ≡ 8
      → Succeeds (λ r. IsStopped r.0 × (r.0.state ≡ init)) (cycles (suc k) item w)
  unfolding cycles
  silent_stops zero item w quiet h e c =
      let (done, sensor, w1) = read_sensor_fts item.sensor w in
      rw (cycles_step zero item w (control_fails item w e (quiet item.sensor w)))
        (sensor_failed-stops (record item { sensor = sensor }) w1 (ground arith) (omega arith))
  silent_stops (suc k) item w quiet h e c =
      let (done, sensor, w1) = read_sensor_fts item.sensor w in
      let item1 = record item { sensor = sensor } in
      let counted : item1.snsrf_count ≤ 7 = omega arith in
      let failed = control_fails item w e (quiet item.sensor w) in
      rw (cycles_step (suc k) item w (failed ∙ ap some (sensor_failed-counts item1 w1 counted))) (
        silent_stops k (record item1 { snsrf_count = item.snsrf_count + 1 }) w1 quiet (ground arith)
          e (omega arith))

  -- A mechanism in use is sent an output of 0.
  abbrev pub told_off : RegOnfHcEm F → W → W
  told_off e w = if e.use_em then (set_em_float e.em float.zero_f w).2 else w

  pub control_em-told : (e : RegOnfHcEm F) (w : W) → (control_em e float.zero_f w).1 ≡ told_off e w
  unfolding control_em
  control_em-told e w = ground arith

  control_disable-told :
      (item : RegOnfHc F) (w : W)
      → (control_disable item w).1 ≡ told_off item.cooler (told_off item.heater w)
  unfolding control_disable
  control_disable-told item w =
      control_em-told item.cooler (control_em item.heater float.zero_f w).1
      ∙ ap (told_off item.cooler) (control_em-told item.heater w)

  off_stays :
      (n : ℕ) (item : RegOnfHc F) (w : W) → item.state ≡ off → cycles n item w ≡ some (item, w)
  unfolding cycles dispatch
  off_stays zero item w e = refl
  off_stays (suc n) item w e = cycles_step n item w (control_state item w e) ∙ off_stays n item w e

  -- The cycle after `regonfhc_disable` sends an output of 0 to the heater and then to the cooler, to each
  -- if it is in use, and asks nothing else of the world. Afterwards both outputs are 0 and the regulator
  -- is off, and no number of cycles changes it or asks anything of the world.
  pub disabled_stays :
      (n : ℕ) (item : RegOnfHc F) (w : W)
      → item.state ≡ disable
      → Succeeds
          (λ r.
            IsStopped r.0
            × (r.0.state ≡ off)
            × (r.1 ≡ told_off item.cooler (told_off item.heater w))
            × (cycles n r.0 r.1 ≡ some r))
          (control item w)
  unfolding dispatch control_disable
  disabled_stays n item w e = rw (control_state item w e) (
    record { heater_stopped = refl; cooler_stopped = refl },
    refl,
    control_disable-told item w,
    off_stays n _ _ refl,
  )
