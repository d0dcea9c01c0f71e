-- ===== src/Regonfhc/Control/Hysteresis.antt =====
-- One cycle of a running regulator: the two-point switch and the change from one mechanism to the
-- other.
use regonf.Prelude.{Succeeds, ◌≡◌, ◌≢◌, Bool, true, false, not, ◌&&◌, arith, if◌then◌else◌}
use regonf.Float.{FloatOps}
use regonf.Timef.{ton_ts}
use regonf.Timef.Arithmetic.{IsNormal}
use regonf.Timef.Timer.{Elapsed, ton_ts_fires}
use regonf.Acp.{Link, read_sensor_fts}
use regonf.Reg.{StateReg, run_do, busy}
use regonf.Regonfhc.{
  RegOnfHc, Side, heating, cooling, other, state_of, get_em, val_is_out, val_is_low,
}
use regonf.Regonfhc.Control.{control, regulate, change_over, drive, switch_onf}
use regonf.Regonfhc.Control.Invariant.{IsSound, IsIdleUnused, is_onf}
use regonf.Regonfhc.Control.Cycle.{with_reading, control_em_lem, control_regulates}

abbrev pub is_do : StateReg → Bool
is_do run_do = true
is_do _ = false

module _ {F : Type 0} ⦃float : FloatOps F⦄ where
  -- A two-point switch: on when it is told to, and then until it is told to go off.
  abbrev pub latch : Side → RegOnfHc F → Bool
  latch s item = if is_do item.state_onf then not (val_is_out s item) else val_is_low s item

  -- The output of the mechanism in charge, by the state of the switch before the cycle.
  abbrev pub demand : Side → RegOnfHc F → F
  demand s item =
      if is_do item.state_onf && (get_em s item).use_em
      then (get_em s item).em.pwm_rsl
      else float.zero_f

  -- The value asks for the other mechanism, which is in use.
  abbrev pub wants_change : Side → RegOnfHc F → Bool
  wants_change s item = val_is_out s item && (get_em (other s) item).use_em

  switch_onf_lem :
      (s : Side) (item : RegOnfHc F)
      → is_onf item.state_onf ≡ true
      → let item' = switch_onf item.state_onf s item in
        (is_do item'.state_onf ≡ latch s item)
        × (item'.output
            ≡ (if is_do item.state_onf then (get_em s item).em.pwm_rsl else float.zero_f))
        × (get_em s item' ≡ get_em s item)
        × (item'.state_r ≡ item.state_r)
        × (item'.tmr ≡ item.tmr)
  unfolding switch_onf
  switch_onf_lem s item h = ground arith

module _ {F W : Type 0} ⦃float : FloatOps F⦄ ⦃link : Link F W⦄ where
  drive_lem :
      (s : Side) (item : RegOnfHc F) (w : W)
      → IsIdleUnused (get_em s item)
      → let item' = (drive s item w).0 in
        ((get_em s item').output ≡ (if (get_em s item).use_em then item.output else float.zero_f))
        × (item'.state_r ≡ item.state_r)
        × (item'.state_onf ≡ item.state_onf)
        × (item'.tmr ≡ item.tmr)
  unfolding drive
  drive_lem heating item w h = ground (arith, control_em_lem item.heater item.output w)
  drive_lem cooling item w h = ground (arith, control_em_lem item.cooler item.output w)

  change_over_stay :
      (s : Side) (item : RegOnfHc F) (w : W)
      → wants_change s item ≡ false
      → change_over s item w ≡ (s, record item { tmr = record (item.tmr) { ready = false } }, w)
  unfolding change_over
  change_over_stay s item w h = rw h

  regulate-latch :
      (s : Side) (item : RegOnfHc F) (w : W)
      → wants_change s item ≡ false
      → is_onf item.state_onf ≡ true
      → IsIdleUnused item.heater
      → IsIdleUnused item.cooler
      → let item' = (regulate s item w).0 in
        (item'.state_r ≡ item.state_r)
        × (is_do item'.state_onf ≡ latch s item)
        × ((get_em s item').output ≡ demand s item)
        × (item'.tmr.ready ≡ false)
  unfolding regulate
  regulate-latch heating item w h onf ih ic =
      let item1 = record item { tmr = record (item.tmr) { ready = false } } in
      let item2 = switch_onf item1.state_onf heating item1 in
      rw (change_over_stay heating item w h)
        (ground (arith, switch_onf_lem heating item1 onf, drive_lem heating item2 w))
  regulate-latch cooling item w h onf ih ic =
      let item1 = record item { tmr = record (item.tmr) { ready = false } } in
      let item2 = switch_onf item1.state_onf cooling item1 in
      rw (change_over_stay cooling item w h)
        (ground (arith, switch_onf_lem cooling item1 onf, drive_lem cooling item2 w))

  -- In a busy cycle with a reading, while the value does not ask for the other mechanism (or that
  -- one is not in use), the mechanism in charge stays in charge, the switch goes on or off as a
  -- two-point switch does, the mechanism puts out what the switch said before the cycle (its
  -- greatest duty cycle or nothing), and the timer of the change is idle.
  pub control-latch :
      (item : RegOnfHc F) (w : W) (s : Side)
      → IsSound item
      → item.state ≡ busy
      → item.state_r ≡ state_of s
      → (read_sensor_fts item.sensor w).0 ≡ true
      → let seen = with_reading item (read_sensor_fts item.sensor w).1 in
        wants_change s seen ≡ false
        → Succeeds
            (λ r.
              (r.0.state_r ≡ item.state_r)
              × (is_do r.0.state_onf ≡ latch s seen)
              × ((get_em s r.0).output ≡ demand s seen)
              × (r.0.tmr.ready ≡ false))
            (control item w)
  control-latch item w s h e r d stay =
      let (done, sensor, w1) = read_sensor_fts item.sensor w in
      rw (control_regulates item w s e r d) (
        regulate-latch s (with_reading item sensor) w1 stay (ground (arith, h.switched))
          h.heater_unused h.cooler_unused)

  -- The timer's answer, if the value asks for the other mechanism in this cycle
  abbrev pub due : Side → RegOnfHc F → W → Bool
  due s item w = wants_change s item && (ton_ts link.clock item.change_gap item.tmr w).0

  regulate_side :
      (s : Side) (item : RegOnfHc F) (w : W)
      → item.state_r ≡ state_of s
      → let item' = (regulate s item w).0 in
        (item'.state_r ≡ (if due s item w then state_of (other s) else state_of s))
        × (item'.tmr ≡ (
            if wants_change s item
            then (ton_ts link.clock item.change_gap item.tmr w).1
            else record (item.tmr) { ready = false }))
  unfolding regulate change_over drive switch_onf
  regulate_side heating item w r = ground arith
  regulate_side cooling item w r = ground arith

  -- In a busy cycle with a reading, the other mechanism takes over exactly when the value asks for
  -- it, it is in use, and the timer of the change fires; in every other case the mechanism in
  -- charge stays. The timer runs on while the value asks for the change and is stopped otherwise.
  pub control_change :
      (item : RegOnfHc F) (w : W) (s : Side)
      → item.state ≡ busy
      → item.state_r ≡ state_of s
      → let (done, sensor, w1) = read_sensor_fts item.sensor w in
        let seen = with_reading item sensor in
        done ≡ true
        → Succeeds
            (λ r.
              (r.0.state_r ≡ (if due s seen w1 then state_of (other s) else state_of s))
              × (r.0.tmr ≡ (
                  if wants_change s seen
                  then (ton_ts link.clock item.change_gap item.tmr w1).1
                  else record (item.tmr) { ready = false })))
            (control item w)
  control_change item w s e r d =
      let (done, sensor, w1) = read_sensor_fts item.sensor w in
      rw (control_regulates item w s e r d) (regulate_side s (with_reading item sensor) w1 r)

  -- Between normal times, with the timer of the change running, a busy cycle with a reading puts
  -- the other mechanism in charge only if more than the gap has elapsed since the timer was started.
  pub control_change-Elapsed :
      (item : RegOnfHc F) (w : W) (s : Side)
      → item.state ≡ busy
      → item.state_r ≡ state_of s
      → item.tmr.ready ≡ true
      → let (done, sensor, w1) = read_sensor_fts item.sensor w in
        let now = (link.clock w1).0 in
        done ≡ true
        → IsNormal item.change_gap
        → IsNormal item.tmr.start
        → IsNormal now
        → Succeeds
            (λ r. r.0.state_r ≢ state_of s → Elapsed item.change_gap item.tmr.start now)
            (control item w)
  control_change-Elapsed item w s e r run d ng ns nn =
      let (done, sensor, w1) = read_sensor_fts item.sensor w in
      let seen = with_reading item sensor in
      let (fires, _, _) = ton_ts_fires link.clock item.change_gap item.tmr w1 run ng ns nn in
      let (side, _) = regulate_side s seen w1 r in
      rw (control_regulates item w s e r d) (λ moved. fires.0 (fired seen w1 side moved))
    where
      fired :
          (seen : RegOnfHc F) (w1 : W) {st : StateReg}
          → st ≡ (if due s seen w1 then state_of (other s) else state_of s)
          → st ≢ state_of s
          → (ton_ts link.clock seen.change_gap seen.tmr w1).0 ≡ true
      fired seen w1 q moved = ground arith
