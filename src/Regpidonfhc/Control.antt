-- ===== src/Regpidonfhc/Control.antt =====
-- lib/regpidonfhc.c: `regpidonfhc_control`, one cycle of the regulator.
-- It returns `none` where the source dereferences the null pointer `reg_em`.
pub mod Invariant
pub mod Cycle
pub mod Fault
pub mod Uses
use regonf.Prelude.{◌+◌, ◌&&◌, true, false, Option, none, some, ltb, if◌then◌else◌}
use regonf.Float.{FloatOps, FloatArith}
use regonf.Timef.{ton_ts}
use regonf.Acp.{Link, read_sensor_fts}
use regonf.Reg.{
  StateReg, off, init, run_do, disable, wait, busy, secure, mode_pid, mode_onf, secure_need,
  is_green,
}
use regonf.Regonfhc.{Side, heating, cooling, other, side_of, state_of}
use regonf.Regpidonfhc.{
  RegPidOnfHc, get_em, put_em, stop_tmr, val_is_out, val_is_low, value_is_out, control_em,
}
use regonf.Pid.{DoubleArith, pid, pid_mode_heater, pid_mode_cooler}

module _ {F : Type 0} ⦃float : FloatOps F⦄ where
  -- `switch (item->state_onf)` with `reg_em` on the given side
  pub switch_onf : StateReg → Side → RegPidOnfHc F → RegPidOnfHc F
  switch_onf run_do s item = record item {
    state_onf = if val_is_out s item then wait else run_do;
    output = (get_em s item).em.pwm_rsl;
  }
  switch_onf wait s item = record item {
    state_onf = if val_is_low s item then run_do else wait;
    output = float.zero_f;
  }
  switch_onf _ s item = item

module _ {F W : Type 0} ⦃float : FloatOps F⦄ ⦃link : Link F W⦄ where
  -- `controlEM(&item->…, output)` on one side
  pub control_side : Side → F → RegPidOnfHc F → W → RegPidOnfHc F × W
  control_side s output item w =
      let (e, w1) = control_em (get_em s item) output w in (put_em s e item, w1)

  -- REG_INIT, from the light and the first reading to `item->state = REG_BUSY`
  pub clear : RegPidOnfHc F → W → RegPidOnfHc F × W
  unfolding control_side
  clear item w =
      let (item1, w1) = control_side heating float.zero_f (stop_tmr item) w in
      let (item2, w2) = control_side cooling float.zero_f item1 w1 in
      (
        record item2 {
          output = float.zero_f;
          snsrf_count = 0;
          heater = record (item2.heater) {
            pid = record (item2.heater.pid) { mode = pid_mode_heater; reset = true };
          };
          cooler = record (item2.cooler) {
            pid = record (item2.cooler.pid) { mode = pid_mode_cooler; reset = true };
          };
          state_onf = wait;
          state = busy;
        },
        w2,
      )

  -- The choice of the mechanism. With both in use the sensor is read a second time, and where that
  -- fails `state_r` stays as it was.
  pub choose : RegPidOnfHc F → W → RegPidOnfHc F × W
  choose item w =
      let (done, sensor, w1) = read_sensor_fts item.sensor w in
      let item1 = record item { sensor = sensor } in
      let above = float.lt item.goal sensor.value.value in
      if item.heater.use_em && item.cooler.use_em
      then (
        if done
            then record item1 { state_r = if above then StateReg.cooler else StateReg.heater }
            else item1,
        w1,
      )
      else if item.heater.use_em
      then (record item { state_r = StateReg.heater }, w)
      else if item.cooler.use_em
      then (record item { state_r = StateReg.cooler }, w)
      else (record item { state = disable }, w)

  pub control_init : RegPidOnfHc F → W → RegPidOnfHc F × W
  unfolding clear choose
  control_init item w =
      let (green, light, w1) = is_green item.green_light w in
      let item1 = record item { green_light = light } in
      let (done, sensor, w2) = read_sensor_fts item.sensor w1 in
      let item2 = record item1 { sensor = sensor } in
      let (item3, w3) = clear item2 w2 in
      if green then if done then choose item3 w3 else (item2, w2) else (item1, w1)

  -- `if (value_is_out && reg_em_other->use)`: the mechanism in charge after it, and the state
  pub change_over : Side → RegPidOnfHc F → W → Side × RegPidOnfHc F × W
  unfolding control_side
  change_over s item w =
      let (fired, tmr, w1) = ton_ts link.clock item.change_gap item.tmr w in
      let item1 = record item { tmr = tmr } in
      let (item2, w2) =
        control_side s float.zero_f (record item1 { state_r = state_of (other s) }) w1 in
      if value_is_out s item && (get_em (other s) item).use_em
      then if fired then (other s, item2, w2) else (s, item1, w1)
      else (s, stop_tmr item, w)

  -- The two calls of `controlEM` and the test of the secure timer that end a regulating step
  pub drive : Side → RegPidOnfHc F → W → RegPidOnfHc F × W
  unfolding control_side
  drive s item w =
      let (item1, w1) = control_side s item.output item w in
      let (item2, w2) = control_side (other s) float.zero_f item1 w1 in
      let (need, secure_out, w3) = secure_need link.clock item2.secure_out w2 in
      (record item2 { secure_out = secure_out; state = if need then secure else item2.state }, w3)

  -- REG_BUSY without a value from the sensor; SNSRF_COUNT_MAX is 7
  pub sensor_failed : RegPidOnfHc F → W → RegPidOnfHc F × W
  unfolding control_side
  sensor_failed item w =
      let (item1, w1) = control_side heating float.zero_f item w in
      let (item2, w2) = control_side cooling float.zero_f item1 w1 in
      if ltb 7 item.snsrf_count
      then (record item2 { output = float.zero_f; state = init }, w2)
      else (record item { snsrf_count = item.snsrf_count + 1 }, w)

  pub control_secure : RegPidOnfHc F → W → RegPidOnfHc F × W
  unfolding control_side
  control_secure item w =
      let (item1, w1) = control_side heating item.secure_out.heater_duty_cycle item w in
      let (item2, w2) = control_side cooling item.secure_out.cooler_duty_cycle item1 w1 in
      let (need, secure_out, w3) = secure_need link.clock item2.secure_out w2 in
      (record item2 { secure_out = secure_out; state = if need then item2.state else busy }, w3)

  pub control_disable : RegPidOnfHc F → W → RegPidOnfHc F × W
  unfolding control_side
  control_disable item w =
      let (item1, w1) = control_side heating float.zero_f item w in
      let (item2, w2) = control_side cooling float.zero_f item1 w1 in
      (
        stop_tmr (record item2 {
          heater = record (item2.heater) { output = float.zero_f };
          cooler = record (item2.cooler) { output = float.zero_f };
          output = float.zero_f;
          state_r = off;
          state_onf = off;
          state = off;
        }),
        w2,
      )

module _ {F D W : Type 0} ⦃float : FloatOps F⦄ ⦃arith_f : FloatArith F⦄ ⦃link : Link F W⦄
    (double : DoubleArith F D) where
  -- `switch (reg_em->mode)`
  pub compute_output : StateReg → Side → RegPidOnfHc F → W → RegPidOnfHc F × W
  unfolding switch_onf
  compute_output mode_pid s item w =
      let e = get_em s item in
      let ((output, p), w1) = pid double link.clock e.pid item.goal item.sensor.value.value w in
      (record (put_em s (record e { pid = p }) item) { output = output }, w1)
  compute_output mode_onf s item w = (switch_onf item.state_onf s item, w)
  compute_output _ s item w = (item, w)

  -- REG_BUSY with a value from the sensor
  pub regulate : Side → RegPidOnfHc F → W → RegPidOnfHc F × W
  unfolding change_over compute_output drive
  regulate s item w =
      let (s', item1, w1) = change_over s item w in
      let (item2, w2) = compute_output (get_em s' item1).mode s' item1 w1 in drive s' item2 w2

  pub control_busy : RegPidOnfHc F → W → Option (RegPidOnfHc F × W)
  unfolding regulate sensor_failed
  control_busy item w =
      let (done, sensor, w1) = read_sensor_fts item.sensor w in
      let item1 = record item { sensor = sensor } in
      let item2 = record item1 { snsrf_count = 0 } in
      if done
      then elim (side_of item.state_r) [ none ↦ none | some s ↦ some (regulate s item2 w1) ]
      else some (sensor_failed item1 w1)

  -- `switch (item->state)`
  pub dispatch : StateReg → RegPidOnfHc F → W → Option (RegPidOnfHc F × W)
  unfolding control_busy control_init control_secure control_disable
  dispatch init item w = some (control_init item w)
  dispatch busy item w = control_busy item w
  dispatch secure item w = some (control_secure item w)
  dispatch disable item w = some (control_disable item w)
  dispatch off item w = some (item, w)
  dispatch _ item w = some (record item { state = off }, w)

  unfoldable pub regpidonfhc_control : RegPidOnfHc F → W → Option (RegPidOnfHc F × W)
  unfolding dispatch
  regpidonfhc_control item w = dispatch item.state item w
