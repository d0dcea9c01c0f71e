-- ===== src/Regpidonfhc/Control/Cycle.antt =====
-- One cycle of a running regulator of lib/regpidonfhc.c: which mechanism works, and with what output.
use regonf.Prelude.{
  Succeeds, ◌&&◌, false, ◌≡◌, refl, ap, ◌∙◌, ◌⊎◌, true, some, arith, if◌then◌else◌,
}
use regonf.Float.{FloatOps, FloatArith}
use regonf.Acp.{Link, SensorFts, read_sensor_fts}
use regonf.Reg.{mode_pid, StateReg, busy}
use regonf.Regonfhc.{Side, heating, cooling, other, side_of, state_of}
use regonf.Regonfhc.Control.Invariant.{side_of_lem}
use regonf.Regonfhc.Control.Cycle.{side_of-state_of}
use regonf.Regpidonfhc.{
  out_by_mode, RegPidOnfHcEm, RegPidOnfHc, get_em, put_em, stop_tmr, value_is_out, control_em,
}
use regonf.Regpidonfhc.Control.{
  regpidonfhc_control, dispatch, control_busy, regulate, change_over, drive, compute_output,
}
use regonf.Regpidonfhc.Control.Invariant.{
  IsSound, IsBusy, IsIdleUnused, change_over-IsBusy, compute_output-IsBusy, control_state,
}
use regonf.Pid.{DoubleArith, pid}

module _ {F W : Type 0} ⦃float : FloatOps F⦄ ⦃link : Link F W⦄ where
  pub control_em-off :
      (e : RegPidOnfHcEm F) (w : W)
      → IsIdleUnused e
      → (control_em e float.zero_f w).0.output ≡ float.zero_f
  unfolding control_em
  control_em-off e w h = ground arith

-- One mechanism is in charge, and the other one is off.
module _ {F : Type 0} ⦃float : FloatOps F⦄ where
  abbrev pub Exclusive : RegPidOnfHc F → Type 0
  Exclusive item =
      ((item.state_r ≡ StateReg.heater) × (item.cooler.output ≡ float.zero_f))
      ⊎ ((item.state_r ≡ StateReg.cooler) × (item.heater.output ≡ float.zero_f))

module _ {F : Type 0} ⦃float : FloatOps F⦄ where
  value_is_out_pid :
      (s : Side) (item : RegPidOnfHc F)
      → (get_em s item).mode ≡ mode_pid
      → value_is_out s item ≡ float.lt item.output float.zero_f
  value_is_out_pid s item m = ap (λ mode. out_by_mode mode s item) m

module _ {F : Type 0} where
  -- The regulator as it enters the regulating step of a cycle
  abbrev pub with_reading : RegPidOnfHc F → SensorFts F → RegPidOnfHc F
  with_reading item sensor = record item { sensor = sensor; snsrf_count = 0 }

module _ {F D W : Type 0} ⦃float : FloatOps F⦄ ⦃arith_f : FloatArith F⦄ ⦃link : Link F W⦄
    (double : DoubleArith F D) where
  drive-Exclusive :
      (s : Side) (item : RegPidOnfHc F) (w : W) → IsBusy s item → Exclusive (drive s item w).0
  unfolding drive
  drive-Exclusive heating item w (h, e, r) = grind (arith, control_em-off)
  drive-Exclusive cooling item w (h, e, r) = grind (arith, control_em-off)

  -- A busy cycle with a reading is the regulating step of the mechanism in charge.
  pub control_regulates :
      (item : RegPidOnfHc F) (w : W) (s : Side)
      → item.state ≡ busy
      → item.state_r ≡ state_of s
      → let (done, sensor, w1) = read_sensor_fts item.sensor w in
        done ≡ true
        → regpidonfhc_control double item w ≡ some (regulate double s (with_reading item sensor) w1)
  unfolding dispatch control_busy
  control_regulates item w s e r d =
      let found : side_of item.state_r ≡ some s = ap side_of r ∙ side_of-state_of s in
      rw (control_state double item w e, d, found)

  regulate-Exclusive :
      (s : Side) (item : RegPidOnfHc F) (w : W)
      → IsBusy s item
      → Exclusive (regulate double s item w).0
  unfolding regulate
  regulate-Exclusive s item w h =
      let (s', item1, w1) = change_over s item w in
      let m = (get_em s' item1).mode in
      let (item2, w2) = compute_output double m s' item1 w1 in
      drive-Exclusive s' item2 w2
        (compute_output-IsBusy double m s' item1 w1 (change_over-IsBusy s item w h))

  -- After a busy cycle with a reading, from a sound regulator, the mechanism that is not in charge
  -- is off, whether a PID controller or the on/off rule drives the one that is.
  pub regpidonfhc_control-Exclusive :
      (item : RegPidOnfHc F) (w : W)
      → IsSound item
      → item.state ≡ busy
      → (read_sensor_fts item.sensor w).0 ≡ true
      → Succeeds (λ r. Exclusive r.0) (regpidonfhc_control double item w)
  regpidonfhc_control-Exclusive item w h e d =
      let (done, sensor, w1) = read_sensor_fts item.sensor w in
      let (s, _, r) = side_of_lem item.state_r (ground (arith, h.sided)) in
      rw (control_regulates item w s e r d)
        (regulate-Exclusive s (with_reading item sensor) w1 (ground arith, e, r))

  drive_output :
      (s : Side) (item : RegPidOnfHc F) (w : W)
      → let item' = (drive s item w).0 in
        ((get_em s item').output
          ≡ (if (get_em s item).use_em then item.output else (get_em s item).output))
        × ((get_em s item').pid ≡ (get_em s item).pid)
        × (item'.state_r ≡ item.state_r)
  unfolding drive control_em
  drive_output heating item w = ground arith
  drive_output cooling item w = ground arith

  change_over_keep :
      (s : Side) (item : RegPidOnfHc F) (w : W)
      → (value_is_out s item && (get_em (other s) item).use_em) ≡ false
      → change_over s item w ≡ (s, stop_tmr item, w)
  unfolding change_over
  change_over_keep s item w z = rw z refl

  -- What `compute_output` leaves of a mechanism in PID mode, with the timer of the change stopped
  abbrev pub with_pid : Side → RegPidOnfHc F → W → RegPidOnfHc F × W
  with_pid s item w =
      let e = get_em s item in
      let ((output, p), w1) = pid double link.clock e.pid item.goal item.sensor.value.value w in
      (record (put_em s (record e { pid = p }) (stop_tmr item)) { output = output }, w1)

  regulate-with_pid :
      (s : Side) (item : RegPidOnfHc F) (w : W)
      → (get_em s item).mode ≡ mode_pid
      → (float.lt item.output float.zero_f && (get_em (other s) item).use_em) ≡ false
      → regulate double s item w ≡ (let (it, v) = with_pid s item w in drive s it v)
  unfolding regulate
  regulate-with_pid s item w m z =
      let keep = change_over_keep s item w (rw (value_is_out_pid s item m) z) in
      ap
        (λ t.
          let (s', item1, w1) = t in
          let (it, v) = compute_output double (get_em s' item1).mode s' item1 w1 in drive s' it v)
        keep
      ∙ at_mode s m
    where
      at_mode :
          (s : Side)
          → (get_em s item).mode ≡ mode_pid
          → (let (it, v) =
                compute_output double (get_em s (stop_tmr item)).mode s (stop_tmr item) w in
              drive s it v)
            ≡ (let (it, v) = with_pid s item w in drive s it v)
      at_mode heating m =
          ap
            (λ k.
              let (it, v) = compute_output double k heating (stop_tmr item) w in drive heating it v)
            m
      at_mode cooling m =
          ap
            (λ k.
              let (it, v) = compute_output double k cooling (stop_tmr item) w in drive cooling it v)
            m

  regulate_pid :
      (s : Side) (item : RegPidOnfHc F) (w : W)
      → item.state_r ≡ state_of s
      → (get_em s item).use_em ≡ true
      → (get_em s item).mode ≡ mode_pid
      → (float.lt item.output float.zero_f && (get_em (other s) item).use_em) ≡ false
      → let item' = (regulate double s item w).0 in
        let ((output, p), _) =
          pid double link.clock (get_em s item).pid item.goal item.sensor.value.value w in
        ((get_em s item').output ≡ output)
        × ((get_em s item').pid ≡ p)
        × (item'.state_r ≡ state_of s)
  regulate_pid heating item w r u m z =
      let (it, v) = with_pid heating item w in
      let d = drive_output heating it v in
      rw (regulate-with_pid heating item w m z)
        (d.0 ∙ ap (λ b. if b then it.output else (get_em heating it).output) u, d.1, d.2 ∙ r)
  regulate_pid cooling item w r u m z =
      let (it, v) = with_pid cooling item w in
      let d = drive_output cooling it v in
      rw (regulate-with_pid cooling item w m z)
        (d.0 ∙ ap (λ b. if b then it.output else (get_em cooling it).output) u, d.1, d.2 ∙ r)

  -- A busy cycle with a reading of a mechanism in use and in PID mode, with an output that is not
  -- negative or an other mechanism that is not in use: the output is what the PID controller computes
  -- from the goal and the reading, and the mechanism stays in charge.
  pub regpidonfhc_control_pid :
      (item : RegPidOnfHc F) (w : W) (s : Side)
      → item.state ≡ busy
      → item.state_r ≡ state_of s
      → (get_em s item).use_em ≡ true
      → (get_em s item).mode ≡ mode_pid
      → (float.lt item.output float.zero_f && (get_em (other s) item).use_em) ≡ false
      → (read_sensor_fts item.sensor w).0 ≡ true
      → let (_, sensor, w1) = read_sensor_fts item.sensor w in
        let ((output, p), _) =
          pid double link.clock (get_em s item).pid item.goal sensor.value.value w1 in
        Succeeds
          (λ r.
            ((get_em s r.0).output ≡ output)
            × ((get_em s r.0).pid ≡ p)
            × (r.0.state_r ≡ state_of s))
          (regpidonfhc_control double item w)
  regpidonfhc_control_pid item w heating e r u m z d =
      let (done, sensor, w1) = read_sensor_fts item.sensor w in
      rw (control_regulates item w heating e r d)
        (regulate_pid heating (with_reading item sensor) w1 r u m z)
  regpidonfhc_control_pid item w cooling e r u m z d =
      let (done, sensor, w1) = read_sensor_fts item.sensor w in
      rw (control_regulates item w cooling e r d)
        (regulate_pid cooling (with_reading item sensor) w1 r u m z)
