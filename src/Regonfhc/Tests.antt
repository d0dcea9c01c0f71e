-- ===== src/Regonfhc/Tests.antt =====
-- lib/regonfhc.c on the bench, and the theorems at inputs that meet their hypotheses.
use regonf.Prelude.{Succeeds, ◌≡◌, ◌≢◌, refl, true, false, Option, none, some, List, [], ◌∷◌, arith}
use regonf.Prelude.Int.{ℤ, pos, ◌+ℤ◌, ◌-ℤ◌}
use regonf.Bench.{World, world, bench_link, int_float, regulator, answer, epoch}
use regonf.Timef.{timespec, ton_ts, timespecsub, timespeccmp}
use regonf.Timef.Timer.{Elapsed}
use regonf.Acp.{Link, read_sensor_fts, set_em_float}
use regonf.Reg.{StateReg, is_green, secure_need}
use regonf.Regonfhc.{RegOnfHc, heating, control_em}
use regonf.Regonfhc.Control.{control}
use regonf.Regonfhc.Control.Invariant.{IsSound}
use regonf.Regonfhc.Control.Cycle.{Exclusive, with_reading, control-Exclusive}
use regonf.Regonfhc.Control.Hysteresis.{is_do, latch, demand, control-latch, control_change-Elapsed}
use regonf.Regonfhc.Control.Failure.{
  IsSilent, IsStopped, cycles, told_off, silent_stops, disabled_stays,
}
use regonf.Regonfhc.Control.SecureMode.{IsSecured, secure_holds}
use regonf.Regonfhc.Handlers.{mode_cooler}
use regonf.Regonfhc.Events.{tick, set_em_mode, steps, steps-IsSound}

-- A regulator that is heating, one whose timer of the change runs, and one that has lost its client
abbrev heating_up : RegOnfHc ℤ
heating_up = record regulator {
  state = StateReg.busy;
  state_r = StateReg.heater;
  state_onf = StateReg.run_do;
}

abbrev waiting : RegOnfHc ℤ
waiting = record heating_up { tmr = record { start = epoch; ready = true } }

abbrev secured : RegOnfHc ℤ
secured = record heating_up {
  state = StateReg.secure;
  secure_out = record (heating_up.secure_out) { done = true };
}

abbrev warm : World
warm = world 0 (some (pos 30) ∷ some (pos 30) ∷ [])

abbrev cold : World
cold = world 0 (some (pos 15) ∷ [])

-- A link over which no sensor answers
abbrev dead_link : Link ℤ World
dead_link = record bench_link { response_fts = λ id p w. (none, w) }

-- What a run leaves: the state, the mechanism in charge, and the commands in the order of sending
abbrev outcome : Option (RegOnfHc ℤ × World) → Option (StateReg × StateReg × List (ℤ × ℤ))
outcome none = none
outcome (some (item, w)) = some (item.state, item.state_r, w.log)

-- Two cycles at 15 degrees: the heater is chosen and told to wait, then switched on (but told so
-- only in the third cycle).
warms :
    outcome (
      steps
        (tick ∷ tick ∷ tick ∷ [])
        regulator
        (world 0 (some (pos 15) ∷ some (pos 15) ∷ some (pos 15) ∷ [])))
    ≡ some (
      StateReg.busy,
      StateReg.heater,
      (pos 3, pos 0)
          ∷ (pos 2, pos 100)
          ∷ (pos 3, pos 0)
          ∷ (pos 2, pos 0)
          ∷ (pos 3, pos 0)
          ∷ (pos 2, pos 0)
          ∷ [],
    )
unfolding steps control control_em read_sensor_fts set_em_float is_green secure_need ton_ts answer
    timespecsub timespeccmp ◌+ℤ◌ ◌-ℤ◌
warms = refl

-- A sensor that is silent for nine cycles: everything is switched off.
gives_up :
    outcome (
      steps
        (tick ∷ tick ∷ tick ∷ tick ∷ tick ∷ tick ∷ tick ∷ tick ∷ tick ∷ [])
        heating_up
        (world 0 []))
    ≡ some (StateReg.init, StateReg.heater, (pos 3, pos 0) ∷ (pos 2, pos 0) ∷ [])
unfolding steps control control_em read_sensor_fts set_em_float answer
gives_up = refl

regulator-IsSound : IsSound regulator
regulator-IsSound = ground arith

heating_up-IsSound : IsSound heating_up
heating_up-IsSound = ground arith

dead_link-IsSilent : IsSilent dead_link
unfolding read_sensor_fts
dead_link-IsSilent s w = refl

steps-IsSound_example :
    Succeeds (λ r. IsSound r.0) (steps (tick ∷ set_em_mode mode_cooler ∷ tick ∷ []) regulator warm)
steps-IsSound_example =
    steps-IsSound (tick ∷ set_em_mode mode_cooler ∷ tick ∷ []) regulator warm regulator-IsSound

control-Exclusive_example : Succeeds (λ r. Exclusive r.0) (control heating_up warm)
unfolding read_sensor_fts answer
control-Exclusive_example = control-Exclusive heating_up warm heating_up-IsSound refl refl

control-latch_example :
    let seen = with_reading heating_up (read_sensor_fts heating_up.sensor cold).1 in
    Succeeds
      (λ r.
        (r.0.state_r ≡ StateReg.heater)
        × (is_do r.0.state_onf ≡ latch heating seen)
        × (r.0.heater.output ≡ demand heating seen)
        × (r.0.tmr.ready ≡ false))
      (control heating_up cold)
unfolding read_sensor_fts answer ◌+ℤ◌
control-latch_example = control-latch heating_up cold heating heating_up-IsSound refl refl refl refl

control_change-Elapsed_example :
    Succeeds
      (λ r.
        r.0.state_r ≢ StateReg.heater → Elapsed waiting.change_gap epoch (timespec (pos 9) (pos 0)))
      (control waiting (world 8 (some (pos 30) ∷ [])))
unfolding read_sensor_fts answer
control_change-Elapsed_example =
    control_change-Elapsed waiting (world 8 (some (pos 30) ∷ [])) heating refl refl refl refl
      (omega arith) (omega arith) (omega arith)

silent_stops_example :
    Succeeds
      (λ r. IsStopped r.0 × (r.0.state ≡ StateReg.init))
      (cycles ⦃link = dead_link⦄ 9 heating_up warm)
silent_stops_example =
    silent_stops ⦃link = dead_link⦄ 8 heating_up warm dead_link-IsSilent heating_up-IsSound refl
      refl

disabled_stays_example :
    Succeeds
      (λ r.
        IsStopped r.0
        × (r.0.state ≡ StateReg.off)
        × (r.1 ≡ told_off heating_up.cooler (told_off heating_up.heater warm))
        × (cycles 4 r.0 r.1 ≡ some r))
      (control (record heating_up { state = StateReg.disable }) warm)
disabled_stays_example = disabled_stays 4 (record heating_up { state = StateReg.disable }) warm refl

secure_holds_example :
    Succeeds
      (λ r. IsSecured r.0 × (r.0.state ≡ StateReg.secure) × (r.0.secure_out ≡ secured.secure_out))
      (cycles 3 secured warm)
secure_holds_example = secure_holds 2 secured warm refl refl refl
