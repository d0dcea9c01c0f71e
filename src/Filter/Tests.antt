-- ===== src/Filter/Tests.antt =====
-- lib/filter/ma.c: a moving average at concrete inputs.
use regonf.Prelude.{ℕ, ◌*◌, ◌/◌, ◌≡◌, refl, Option, some, List, [], ◌∷◌, replicate}
use regonf.Prelude.Int.{ℤ, pos, pos_part, ◌+ℤ◌}
use regonf.Bench.{int_float}
use regonf.Float.{FloatArith}
use regonf.Filter.{FilterMa, fma_init, fma_calc, put_value, sum_loop}
use regonf.Filter.Average.{IsMean, calc_all, fma_calc-IsMean}

-- Numbers that are not negative, in place of floats
instance abbrev natural_arith : FloatArith ℤ
natural_arith = record {
  one_f = pos 1;
  mul = λ a b. pos (pos_part a * pos_part b);
  div = λ a b. pos (pos_part a / pos_part b);
  of_nat = pos;
}

abbrev filter : FilterMa ℤ
filter = record { id = pos 0; buf = []; length = 0; c_length = 0; i = 0 }

abbrev memory : ℕ → Option (List ℤ)
memory n = some (replicate n (pos 99))

abbrev inputs : List ℤ
inputs = pos 4 ∷ pos 8 ∷ pos 6 ∷ pos 10 ∷ []

fma_calc-IsMean_example :
    IsMean
      (pos 6 ∷ pos 10 ∷ pos 5 ∷ [])
      (fma_calc (pos 5) (calc_all inputs (fma_init filter (pos 1) (pos 3) memory).1)).0
fma_calc-IsMean_example =
    fma_calc-IsMean filter (pos 1) 2 memory (replicate 3 (pos 99)) inputs (pos 5) refl refl

-- The mean of 6, 10 and 5
average : (fma_calc (pos 5) (calc_all inputs (fma_init filter (pos 1) (pos 3) memory).1)).0 ≡ pos 7
unfolding fma_calc calc_all fma_init put_value sum_loop ◌+ℤ◌
average = refl
