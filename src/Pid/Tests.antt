-- ===== src/Pid/Tests.antt =====
-- lib/pid.c: a controller at concrete inputs.
use regonf.Prelude.{ℕ, ◌≡◌, refl, true, List, [], ◌∷◌, All}
use regonf.Prelude.Int.{ℤ, pos, ◌+ℤ◌, ◌-ℤ◌}
use regonf.Bench.{int_float, int_arith, int_double}
use regonf.Timef.{Timespec, timespec}
use regonf.Pid.{Pid, outputs_mx, restart, advance_mx, pidwt_mx, output_of}
use regonf.Pid.Bounds.{Within, outputs_mx-Within}

abbrev controller : Pid ℤ
controller = record {
  integral_error = pos 0;
  previous_error = pos 0;
  kp = pos 3;
  ki = pos 1;
  kd = pos 0;
  max_output = pos 100;
  min_output = pos 0;
  previous_output = pos 0;
  previous_time = timespec (pos 0) (pos 0);
  reset = true;
  mode = 104;
}

abbrev at_second : ℕ → ℤ → ℤ × ℤ × Timespec
at_second n input = (pos 50, input, timespec (pos n) (pos 0))

-- The start, a great error, a clock that has gone back, a small error, and a negative one
abbrev calls : List (ℤ × ℤ × Timespec)
calls =
    at_second 5 (pos 0)
    ∷ at_second 6 (pos 10)
    ∷ at_second 4 (pos 20)
    ∷ at_second 5 (pos 48)
    ∷ at_second 6 (pos 90)
    ∷ []

limited : outputs_mx int_double controller calls ≡ pos 0 ∷ pos 100 ∷ pos 100 ∷ pos 8 ∷ pos 0 ∷ []
unfolding outputs_mx pidwt_mx advance_mx restart output_of ◌+ℤ◌ ◌-ℤ◌
limited = refl

outputs_mx-Within_example :
    All (Within int_double (pos 0) (pos 100)) (outputs_mx int_double controller calls)
outputs_mx-Within_example =
    outputs_mx-Within int_double (pos 0) (pos 100) controller calls (refl, refl) (refl, refl)
      (refl, refl) (refl, refl, (refl, refl))
