-- ===== src/Regonfhc/Control.antt =====
-- lib/regonfhc.c: `regonfhc_control`, one cycle of the regulator.
-- It returns `none` where the source dereferences the null pointer `reg_em`.
pub mod Cycle
pub mod Failure
pub mod Hysteresis
pub mod Invariant
pub mod SecureMode
use regonf.Prelude.{◌+◌, ◌&&◌, Option, none, some, ltb, if◌then◌else◌}
use regonf.Float.{FloatOps}
use regonf.Timef.{ton_ts}
use regonf.Acp.{Link, read_sensor_fts}
use regonf.Reg.{StateReg, off, init, run_do, disable, wait, busy, secure, secure_need, is_green}
use regonf.Regonfhc.{
  RegOnfHc, Side, heating, cooling, other, side_of, state_of, get_em, put_em, stop_tmr, val_is_out,
  val_is_low, control_em,
}

module _ {F : Type 0} ⦃float : FloatOps F⦄ where
  -- `switch (item->state_onf)` with `reg_em` on the given side
  pub switch_onf : StateReg → Side → RegOnfHc F → RegOnfHc F
  switch_onf run_do s item = record item {
    state_onf = if val_is_out s item then wait else run_do;
    output = (get_em s item).em.pwm_rsl;
  }
  switch_onf wait s item = record item {
    state_onf = if val_is_low s item then run_do else wait;
    output = float.zero_f;
  }
  switch_onf _ s item = item

  -- The state and the mechanism that a start chooses
  start_side : RegOnfHc F → StateReg × StateReg
  start_side item =
      if item.heater.use_em && item.cooler.use_em
      then (
        busy,
        if float.lt item.goal item.sensor.value.value then StateReg.cooler else StateReg.heater,
      )
      else if item.heater.use_em
      then (busy, StateReg.heater)
      else if item.cooler.use_em
      then (busy, StateReg.cooler)
      else (disable, StateReg.heater)

module _ {F W : Type 0} ⦃float : FloatOps F⦄ ⦃link : Link F W⦄ where
  -- `controlEM(&item->…, output)` on one side
  pub control_side : Side → F → RegOnfHc F → W → RegOnfHc F × W
  control_side s output item w =
      let (e, w1) = control_em (get_em s item) output w in (put_em s e item, w1)

  -- REG_INIT, after the light and the sensor
  start : RegOnfHc F → W → RegOnfHc F × W
  unfolding control_side start_side
  start item w =
      let (item1, w1) = control_side heating float.zero_f (stop_tmr item) w in
      let (item2, w2) = control_side cooling float.zero_f item1 w1 in
      let (state, state_r) = start_side item in
      (
        record item2 {
          output = float.zero_f;
          snsrf_count = 0;
          state_onf = wait;
          state = state;
          state_r = state_r;
        },
        w2,
      )

  control_init : RegOnfHc F → W → RegOnfHc F × W
  unfolding start
  control_init item w =
      let (green, light, w1) = is_green item.green_light w in
      let item1 = record item { green_light = light } in
      let (done, sensor, w2) = read_sensor_fts item.sensor w1 in
      let item2 = record item1 { sensor = sensor } in
      if green then if done then start item2 w2 else (item2, w2) else (item1, w1)

  -- `if (value_is_out && reg_em_other->use)`: the mechanism in charge after it, and the state
  pub change_over : Side → RegOnfHc F → W → Side × RegOnfHc F × W
  unfolding control_side
  change_over s item w =
      let (fired, tmr, w1) = ton_ts link.clock item.change_gap item.tmr w in
      let item1 = record item { tmr = tmr } in
      let (item2, w2) =
        control_side s float.zero_f (record item1 { state_r = state_of (other s) }) w1 in
      if val_is_out s item && (get_em (other s) item).use_em
      then if fired then (other s, item2, w2) else (s, item1, w1)
      else (s, stop_tmr item, w)

  -- The two calls of `controlEM` and the test of the secure timer that end a regulating step
  pub drive : Side → RegOnfHc F → W → RegOnfHc F × W
  unfolding control_side
  drive s item w =
      let (item1, w1) = control_side s item.output item w in
      let (item2, w2) = control_side (other s) float.zero_f item1 w1 in
      let (need, secure_out, w3) = secure_need link.clock item2.secure_out w2 in
      (record item2 { secure_out = secure_out; state = if need then secure else item2.state }, w3)

  -- REG_BUSY with a value from the sensor
  pub regulate : Side → RegOnfHc F → W → RegOnfHc F × W
  regulate s item w =
      let (s', item1, w1) = change_over s item w in
      drive s' (switch_onf item1.state_onf s' item1) w1

  -- REG_BUSY without one; SNSRF_COUNT_MAX is 7
  pub sensor_failed : RegOnfHc F → W → RegOnfHc F × W
  unfolding control_side
  sensor_failed item w =
      let (item1, w1) = control_side heating float.zero_f item w in
      let (item2, w2) = control_side cooling float.zero_f item1 w1 in
      if ltb 7 item.snsrf_count
      then (record item2 { output = float.zero_f; state = init }, w2)
      else (record item { snsrf_count = item.snsrf_count + 1 }, w)

  control_busy : RegOnfHc F → W → Option (RegOnfHc F × W)
  unfolding regulate sensor_failed
  control_busy item w =
      let (done, sensor, w1) = read_sensor_fts item.sensor w in
      let item1 = record item { sensor = sensor } in
      let item2 = record item1 { snsrf_count = 0 } in
      if done
      then elim (side_of item.state_r) [ none ↦ none | some s ↦ some (regulate s item2 w1) ]
      else some (sensor_failed item1 w1)

  control_secure : RegOnfHc F → W → RegOnfHc F × W
  unfolding control_side
  control_secure item w =
      let (item1, w1) = control_side heating item.secure_out.heater_duty_cycle item w in
      let (item2, w2) = control_side cooling item.secure_out.cooler_duty_cycle item1 w1 in
      let (need, secure_out, w3) = secure_need link.clock item2.secure_out w2 in
      (record item2 { secure_out = secure_out; state = if need then item2.state else busy }, w3)

  control_disable : RegOnfHc F → W → RegOnfHc F × W
  unfolding control_side
  control_disable item w =
      let (item1, w1) = control_side heating float.zero_f item w in
      let (item2, w2) = control_side cooling float.zero_f item1 w1 in
      (
        stop_tmr (record item2 {
          heater = record (item2.heater) { output = float.zero_f };
          cooler = record (item2.cooler) { output = float.zero_f };
          output = float.zero_f;
          state_r = off;
          state_onf = off;
          state = off;
        }),
        w2,
      )

  -- `switch (item->state)`
  pub dispatch : StateReg → RegOnfHc F → W → Option (RegOnfHc F × W)
  dispatch init item w = some (control_init item w)
  dispatch busy item w = control_busy item w
  dispatch secure item w = some (control_secure item w)
  dispatch disable item w = some (control_disable item w)
  dispatch off item w = some (item, w)
  dispatch _ item w = some (record item { state = off }, w)

  unfoldable pub control : RegOnfHc F → W → Option (RegOnfHc F × W)
  unfolding dispatch control_init control_busy control_secure control_disable regulate change_over
      switch_onf drive
  control item w = dispatch item.state item w
