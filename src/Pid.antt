-- ===== src/Pid.antt =====
-- lib/pid.h and lib/pid.c: the PID controllers `pid`, `pid_mx`, `pidwt` and `pidwt_mx`, and `stopPid`.
-- C's `double` is a type of its own, with the conversions that the code uses.
pub mod Bounds
mod Tests
use regonf.Prelude.{ℕ, Bool, true, false, Option, List, [], ◌∷◌, ◌==◌, if◌then◌else◌}
use regonf.Prelude.Int.{ℤ, ◌-ℤ◌}
use regonf.Float.{FloatOps, FloatArith}
use regonf.Timef.{Timespec, Clock}

pub record DoubleArith (F D : Type 0) : Type 0 where
  pub float_of_int : ℤ → F
  pub double_of_int : ℤ → D
  pub widen : F → D
  pub narrow : D → F
  pub add_d : D → D → D
  pub mul_d : D → D → D
  pub div_d : D → D → D
  pub lt_zero_d : D → Bool
  pub nano_factor : D
  pub minus_one : F

-- `mode` is a character.
pub record Pid (F : Type 0) : Type 0 where
  pub integral_error : F
  pub previous_error : F
  pub kp : F
  pub ki : F
  pub kd : F
  pub max_output : F
  pub min_output : F
  pub previous_output : F
  pub previous_time : Timespec
  pub reset : Bool
  pub mode : ℕ

-- PID_MODE_HEATER and PID_MODE_COOLER, which are 'h' and 'c'
abbrev pub pid_mode_heater : ℕ
pid_mode_heater = 104

abbrev pub pid_mode_cooler : ℕ
pid_mode_cooler = 99

-- `stopPid`
unfoldable pub stop_pid : {F : Type 0} → Pid F → Pid F
stop_pid p = record p { reset = true }

module _ {F D : Type 0} ⦃float : FloatOps F⦄ ⦃arith_f : FloatArith F⦄
    (double : DoubleArith F D) where
  -- The seconds since the last call
  abbrev pub dt_of : Pid F → Timespec → D
  dt_of p now =
      double.add_d (double.widen (double.float_of_int (now.tv_sec -ℤ p.previous_time.tv_sec))) (
        double.mul_d (double.double_of_int (now.tv_nsec -ℤ p.previous_time.tv_nsec))
          double.nano_factor)

  -- The integral and the derivative of the error
  abbrev pub integral_of : Pid F → F → D → F
  integral_of p error dt =
      double.narrow
        (double.add_d (double.widen p.integral_error) (double.mul_d (double.widen error) dt))

  abbrev pub derivative_of : Pid F → F → D → F
  derivative_of p error dt =
      double.narrow (double.div_d (double.widen (float.sub error p.previous_error)) dt)

  -- One term of the output
  abbrev pub term : Pid F → F → F → F
  term p k x =
      if p.mode == pid_mode_cooler
      then arith_f.mul (arith_f.mul k double.minus_one) x
      else arith_f.mul k x

  unfoldable pub output_of : Pid F → (error integral derivative : F) → F
  output_of p error integral derivative =
      float.add (float.add (term p p.kp error) (term p p.ki integral)) (term p p.kd derivative)

  -- The first call after a stop
  unfoldable pub restart : Pid F → Timespec → F × Pid F
  restart p now = (
    float.zero_f,
    record p {
      integral_error = float.zero_f;
      previous_error = float.zero_f;
      previous_time = now;
      reset = false;
      previous_output = float.zero_f;
    },
  )

  -- A step without limits
  unfoldable pub advance : Pid F → (error : F) → D → Timespec → F × Pid F
  unfolding output_of
  advance p error dt now =
      let integral = integral_of p error dt in
      let output = output_of p error integral (derivative_of p error dt) in
      (
        output,
        record p {
          integral_error = integral;
          previous_error = error;
          previous_time = now;
          previous_output = output;
        },
      )

  unfoldable pub pidwt : Pid F → (set_point input : F) → Timespec → F × Pid F
  unfolding advance restart
  pidwt p set_point input tm =
      if p.reset then restart p tm else advance p (float.sub set_point input) (dt_of p tm) tm

  -- A clock that has gone back
  abbrev pub wait : Pid F → Timespec → F × Pid F
  wait p now = (p.previous_output, record p { previous_time = now })

  unfoldable pub pid : {W : Type 0} → Clock W → Pid F → (set_point input : F) → W → (F × Pid F) × W
  unfolding advance restart
  pid clock p set_point input w =
      let (now, w1) = clock w in
      let dt = dt_of p now in
      (
        if p.reset
            then restart p now
            else if double.lt_zero_d dt
            then wait p now
            else advance p (float.sub set_point input) dt now,
        w1,
      )

  -- A step with limits. The integral is kept only if the output is within them.
  unfoldable pub advance_mx : Pid F → (error : F) → D → Timespec → F × Pid F
  unfolding output_of
  advance_mx p error dt now =
      let integral = integral_of p error dt in
      let output = output_of p error integral (derivative_of p error dt) in
      let p1 = record p { previous_error = error; previous_time = now } in
      if float.lt p.max_output output
      then (p.max_output, record p1 { previous_output = p.max_output })
      else if float.lt output p.min_output
      then (p.min_output, record p1 { previous_output = p.min_output })
      else (output, record p1 { integral_error = integral; previous_output = output })

  unfoldable pub pidwt_mx : Pid F → (set_point input : F) → Timespec → F × Pid F
  unfolding advance_mx restart
  pidwt_mx p set_point input tm =
      let dt = dt_of p tm in
      if p.reset
      then restart p tm
      else if double.lt_zero_d dt
      then wait p tm
      else advance_mx p (float.sub set_point input) dt tm

  -- `pid_mx` is `pidwt_mx` at the time of the clock.
  unfoldable pub pid_mx :
      {W : Type 0} → Clock W → Pid F → (set_point input : F) → W → (F × Pid F) × W
  unfolding pidwt_mx
  pid_mx clock p set_point input w = let (now, w1) = clock w in (pidwt_mx p set_point input now, w1)

  -- Calls one after the other: the outputs
  unfoldable pub outputs_mx : Pid F → List (F × F × Timespec) → List F
  unfolding pidwt_mx
  outputs_mx p [] = []
  outputs_mx p ((set_point, input, tm) ∷ calls) =
      let (output, p1) = pidwt_mx p set_point input tm in output ∷ outputs_mx p1 calls
