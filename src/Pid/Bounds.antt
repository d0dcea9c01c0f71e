-- ===== src/Pid/Bounds.antt =====
-- lib/pid.c: the limits of the output.
use mathlib.Core.Path.{subst}
use regonf.Prelude.{if_cases, ◌≡◌, sym, ap, ◌∙◌, false, List, [], ◌∷◌, All}
use regonf.Float.{FloatOps, FloatArith}
use regonf.Timef.{Timespec}
use regonf.Pid.{
  DoubleArith, Pid, dt_of, integral_of, derivative_of, output_of, restart, advance_mx, pidwt_mx,
  outputs_mx,
}

module _ {F D : Type 0} ⦃float : FloatOps F⦄ ⦃arith_f : FloatArith F⦄
    (double : DoubleArith F D) where
  -- Not above `high` and not below `low`
  abbrev pub Within : (low high v : F) → Type 0
  Within low high v = (float.lt high v ≡ false) × (float.lt v low ≡ false)

  -- The state between the calls
  abbrev pub IsLimited : (low high : F) → Pid F → Type 0
  IsLimited low high p =
      (p.min_output ≡ low) × (p.max_output ≡ high) × Within low high p.previous_output

  abbrev Limits : (low high : F) → F × Pid F → Type 0
  Limits low high (v, p) = Within low high v × IsLimited low high p

  advance_mx-Limits :
      (low high error : F) (p : Pid F) (dt : D) (now : Timespec)
      → Within low high low
      → Within low high high
      → IsLimited low high p
      → Limits low high (advance_mx double p error dt now)
  unfolding advance_mx
  advance_mx-Limits low high error p dt now hl hh h =
      let (lo, hi, within) = h in
      let integral = integral_of double p error dt in
      let output = output_of double p error integral (derivative_of double p error dt) in
      if_cases (Limits low high) (float.lt p.max_output output) _ _
        (λ e. (subst (Within low high) (sym hi) hh, (lo, hi, subst (Within low high) (sym hi) hh)))
        (λ e.
          if_cases (Limits low high) (float.lt output p.min_output) _ _
            (λ f.
              (subst (Within low high) (sym lo) hl, (lo, hi, subst (Within low high) (sym lo) hl)))
            (λ f.
              let inside : Within low high output =
                (ap (λ t. float.lt t output) (sym hi) ∙ e, ap (float.lt output) (sym lo) ∙ f) in
              (inside, (lo, hi, inside))))

  pidwt_mx-Limits :
      (low high set_point input : F) (p : Pid F) (tm : Timespec)
      → Within low high low
      → Within low high high
      → Within low high float.zero_f
      → IsLimited low high p
      → Limits low high (pidwt_mx double p set_point input tm)
  unfolding pidwt_mx restart
  pidwt_mx-Limits low high set_point input p tm hl hh hz h =
      let (lo, hi, within) = h in
      if_cases (Limits low high) p.reset _ _ (λ e. (hz, (lo, hi, hz)))
        (λ e.
          if_cases (Limits low high) (double.lt_zero_d (dt_of double p tm)) _ _
            (λ f. (within, (lo, hi, within)))
            (λ f.
              advance_mx-Limits low high (float.sub set_point input) p (dt_of double p tm) tm hl hh
                h))

  -- A controller with limits between which 0 is, and whose last output is within them, is called any
  -- number of times, with whatever goals, inputs and times, also when the clock goes back. No output
  -- is above the upper limit or below the lower one.
  pub outputs_mx-Within :
      (low high : F) (p : Pid F) (calls : List (F × F × Timespec))
      → Within low high low
      → Within low high high
      → Within low high float.zero_f
      → IsLimited low high p
      → All (Within low high) (outputs_mx double p calls)
  unfolding outputs_mx
  outputs_mx-Within low high p [] hl hh hz h = tt
  outputs_mx-Within low high p ((set_point, input, tm) ∷ calls) hl hh hz h =
      let (within, limited) = pidwt_mx-Limits low high set_point input p tm hl hh hz h in
      (
        within,
        outputs_mx-Within low high (pidwt_mx double p set_point input tm).1 calls hl hh hz limited,
      )
