-- ===== src/Bench.antt =====
-- A bench for the tests: integers as floats, and a world with a counting clock, sensors that answer
-- from a script, and a log of what the mechanisms were told. No code of the repository.
use regonf.Prelude.{◌*◌, ℕ, ◌+◌, true, false, Option, none, some, List, [], ◌∷◌}
use regonf.Prelude.Int.{negsuc, neg_part, sub_ℕ, ℤ, pos, ltb_ℤ, eq_ℤ, ◌+ℤ◌, ◌-ℤ◌, pos_part}
use regonf.Float.{FloatArith, FloatOps}
use regonf.Timef.{Timespec, timespec, TonTs}
use regonf.Acp.{Peer, Fts, SensorFts, Link}
use regonf.Reg.{StateReg, init}
use regonf.Regonfhc.{RegOnfHcEm, RegOnfHc}
use regonf.Pid.{DoubleArith}

instance abbrev pub int_float : FloatOps ℤ
int_float = record { zero_f = pos 0; add = ◌+ℤ◌; sub = ◌-ℤ◌; lt = ltb_ℤ; eq = eq_ℤ }

abbrev pub times : ℤ → ℤ → ℤ
times a b =
    sub_ℕ (pos_part a * pos_part b + neg_part a * neg_part b)
      (pos_part a * neg_part b + neg_part a * pos_part b)

-- Integers in place of floats; a second is the unit of time, and nanoseconds are of no account.
instance abbrev pub int_arith : FloatArith ℤ
int_arith = record { one_f = pos 1; mul = times; div = λ a b. a; of_nat = pos }

abbrev pub int_double : DoubleArith ℤ ℤ
int_double = record {
  float_of_int = λ n. n;
  double_of_int = λ n. n;
  widen = λ v. v;
  narrow = λ v. v;
  add_d = ◌+ℤ◌;
  mul_d = times;
  div_d = λ a b. a;
  lt_zero_d = λ v. ltb_ℤ v (pos 0);
  nano_factor = pos 0;
  minus_one = negsuc 0;
}

pub record World : Type 0 where
  pub seconds : ℕ
  -- what the sensors answer next; they are silent when nothing is left
  pub script : List (Option ℤ)
  -- the id and the output of each command to a mechanism, the latest one first
  pub log : List (ℤ × ℤ)

abbrev pub world : ℕ → List (Option ℤ) → World
world t script = record { seconds = t; script = script; log = [] }

unfoldable pub answer : ℕ → List (Option ℤ) → Option (List (Fts ℤ)) × List (Option ℤ)
answer request_id [] = (none, [])
answer request_id (none ∷ rest) = (none, rest)
answer request_id (some v ∷ rest) = (
  some (
      record { id = pos request_id; value = v; tm = timespec (pos 0) (pos 0); state = pos 1 } ∷ []),
  rest,
)

instance abbrev pub bench_link : Link ℤ World
bench_link = record {
  clock = λ w. (timespec (pos w.seconds) (pos 0), record w { seconds = w.seconds + 1 });
  request_fts = λ id p w. (some (pos_part id), w);
  response_fts =
      λ id p w. let (items, rest) = answer id w.script in (items, record w { script = rest });
  send_float = λ id v p w. (true, record w { log = (id, v) ∷ w.log });
}

abbrev pub epoch : Timespec
epoch = timespec (pos 0) (pos 0)

abbrev pub peer : Peer
peer = record { id = []; addr_str = []; port = pos 49180; active = false; time1 = epoch }

abbrev pub sensor : ℤ → SensorFts ℤ
sensor n = record {
  id = n;
  remote_id = n;
  peer = peer;
  value = record { id = n; value = pos 0; tm = epoch; state = pos 0 };
  last_read_time = epoch;
  interval_min = epoch;
  last_return = false;
}

abbrev pub mechanism : ℤ → RegOnfHcEm ℤ
mechanism n = record {
  em = record { id = n; remote_id = n; peer = peer; last_output = pos 0; pwm_rsl = pos 100 };
  delta = pos 2;
  output = pos 0;
  use_em = true;
}

abbrev pub idle_timer : TonTs
idle_timer = record { start = epoch; ready = false }

-- A regulator with goal 20 and deltas 2 that has been enabled
abbrev pub regulator : RegOnfHc ℤ
regulator = record {
  sensor = sensor (pos 1);
  heater = mechanism (pos 2);
  cooler = mechanism (pos 3);
  goal = pos 20;
  change_gap = timespec (pos 5) (pos 0);
  secure_out = record {
    id = pos 0;
    active = true;
    timeout = timespec (pos 1000) (pos 0);
    heater_duty_cycle = pos 30;
    cooler_duty_cycle = pos 10;
    tmr = idle_timer;
    done = false;
    error_code = 0;
  };
  green_light = record { sensor = sensor (pos 4); green_value = pos 1; active = false };
  state = init;
  state_r = StateReg.off;
  state_onf = StateReg.off;
  output = pos 0;
  snsrf_count = 0;
  tmr = idle_timer;
}
