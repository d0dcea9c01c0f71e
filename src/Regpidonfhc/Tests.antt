-- ===== src/Regpidonfhc/Tests.antt =====
-- lib/regpidonfhc.c on the bench, and the theorems at inputs that meet their hypotheses.
use regonf.Prelude.{Succeeds, ◌≡◌, refl, false, none, some, [], ◌∷◌, arith}
use regonf.Prelude.Int.{ℤ, pos}
use regonf.Bench.{World, world, bench_link, int_float, int_arith, int_double, regulator, answer}
use regonf.Timef.{timespec}
use regonf.Acp.{read_sensor_fts, set_em_float}
use regonf.Reg.{StateReg, init, busy, mode_pid, is_green}
use regonf.Regonfhc.{RegOnfHcEm, heating}
use regonf.Pid.{Pid, pid}
use regonf.Regpidonfhc.{RegPidOnfHcEm, RegPidOnfHc, control_em}
use regonf.Regpidonfhc.Control.{regpidonfhc_control}
use regonf.Regpidonfhc.Control.Invariant.{IsSound, starts_sided}
use regonf.Regpidonfhc.Control.Cycle.{
  Exclusive, regpidonfhc_control-Exclusive, regpidonfhc_control_pid,
}
use regonf.Regpidonfhc.Control.Fault.{is_none, unsided_start}
use regonf.Regpidonfhc.Events.{tick, set_heater_kp, disable_reg, enable, pid_steps}
use regonf.Regpidonfhc.Single.{pid_steps-IsSound}

abbrev pid_of : Pid ℤ
pid_of = record {
  integral_error = pos 0;
  previous_error = pos 0;
  kp = pos 3;
  ki = pos 1;
  kd = pos 0;
  max_output = pos 100;
  min_output = pos 0;
  previous_output = pos 0;
  previous_time = timespec (pos 0) (pos 0);
  reset = false;
  mode = 104;
}

abbrev with_controller : RegOnfHcEm ℤ → RegPidOnfHcEm ℤ
with_controller e = record {
  em = e.em;
  delta = e.delta;
  pid = pid_of;
  output = e.output;
  mode = mode_pid;
  use_em = e.use_em;
}

-- A regulator with goal 20 that has been enabled, and one that is heating
abbrev started : RegPidOnfHc ℤ
started = record {
  sensor = regulator.sensor;
  heater = with_controller regulator.heater;
  cooler = with_controller regulator.cooler;
  goal = regulator.goal;
  change_gap = regulator.change_gap;
  secure_out = regulator.secure_out;
  green_light = regulator.green_light;
  state = init;
  state_r = StateReg.off;
  state_onf = StateReg.off;
  output = pos 0;
  snsrf_count = 0;
  tmr = regulator.tmr;
}

abbrev heating_up : RegPidOnfHc ℤ
heating_up = record started { state = busy; state_r = StateReg.heater; state_onf = StateReg.wait }

abbrev heater_only : RegPidOnfHc ℤ
heater_only = record started { cooler = record (started.cooler) { use_em = false } }

abbrev mild : World
mild = world 2 (some (pos 15) ∷ some (pos 15) ∷ [])

-- The sensor answers, is silent once, and answers again.
abbrev faltering : World
faltering = world 0 (some (pos 15) ∷ none ∷ some (pos 15) ∷ [])

-- Two cycles of a start over the faltering sensor reach the null pointer.
falters : pid_steps int_double (tick ∷ tick ∷ []) started faltering ≡ none
unfolding pid_steps regpidonfhc_control control_em read_sensor_fts set_em_float is_green answer
falters = refl

started-IsSound : IsSound started
started-IsSound = ground arith

heating_up-IsSound : IsSound heating_up
heating_up-IsSound = ground arith

heater_only-IsSound : IsSound heater_only
heater_only-IsSound = ground arith

regpidonfhc_control-Exclusive_example :
    Succeeds (λ r. Exclusive r.0) (regpidonfhc_control int_double heating_up mild)
unfolding read_sensor_fts answer
regpidonfhc_control-Exclusive_example =
    regpidonfhc_control-Exclusive int_double heating_up mild heating_up-IsSound refl refl

regpidonfhc_control_pid_example :
    let (_, sensor, w1) = read_sensor_fts heating_up.sensor mild in
    let ((output, p), _) =
      pid int_double bench_link.clock heating_up.heater.pid heating_up.goal sensor.value.value w1 in
    Succeeds
      (λ r. (r.0.heater.output ≡ output) × (r.0.heater.pid ≡ p) × (r.0.state_r ≡ StateReg.heater))
      (regpidonfhc_control int_double heating_up mild)
unfolding read_sensor_fts answer
regpidonfhc_control_pid_example =
    regpidonfhc_control_pid int_double heating_up mild heating refl refl refl refl refl refl

unsided_start_example :
    Succeeds
      (λ r.
        (r.0.state ≡ busy)
        × (is_none (regpidonfhc_control int_double r.0 r.1) ≡ (read_sensor_fts r.0.sensor r.1).0))
      (regpidonfhc_control int_double started faltering)
unfolding starts_sided regpidonfhc_control control_em read_sensor_fts set_em_float is_green answer
unsided_start_example = unsided_start int_double started faltering refl refl

pid_steps-IsSound_example :
    Succeeds
      (λ r. IsSound r.0)
      (pid_steps int_double
        (tick ∷ set_heater_kp (pos 4) ∷ tick ∷ disable_reg ∷ tick ∷ enable ∷ tick ∷ [])
        heater_only
        faltering)
pid_steps-IsSound_example =
    pid_steps-IsSound int_double
      (tick ∷ set_heater_kp (pos 4) ∷ tick ∷ disable_reg ∷ tick ∷ enable ∷ tick ∷ []) heater_only
      faltering heater_only-IsSound refl (ground arith)
