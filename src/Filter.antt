-- ===== src/Filter.antt =====
-- lib/filter/ma.h, ma.c, exp.h, exp.c, lib/lcorrection.c and lib/lreduction.c: the filters and the
-- linear corrections that are applied to the value of a sensor.
pub mod Average
pub mod Window
mod Tests
use regonf.Prelude.{
  ℕ, zero, suc, ◌+◌, Bool, true, false, not, ◌||◌, Option, none, some, List, [], ◌∷◌, ltb, leb,
  ◌==◌, if◌then◌else◌, set, take,
}
use regonf.Prelude.Int.{ℤ, pos, negsuc}
use regonf.Float.{FloatOps, FloatArith}

-- The moving average. `buf` is the memory that `malloc` has returned.
pub record FilterMa (F : Type 0) : Type 0 where
  pub id : ℤ
  pub buf : List F
  pub length : ℕ
  pub c_length : ℕ
  pub i : ℕ

-- The exponential filter
pub record FilterExp (F : Type 0) : Type 0 where
  pub id : ℤ
  pub a : F
  pub vp : F
  pub f : Bool

pub record LCorrection (F : Type 0) : Type 0 where
  pub id : ℤ
  pub factor : F
  pub delta : F

pub record LReduction (F : Type 0) : Type 0 where
  pub id : ℤ
  pub min_in : F
  pub max_in : F
  pub min_out : F
  pub max_out : F

module _ {F : Type 0} where
  abbrev pub reset_ma : FilterMa F → ℤ → ℕ → FilterMa F
  reset_ma item id length = record item { id = id; length = length; c_length = 0; i = 0 }

  -- `fma_init`, with the memory that `malloc` returns
  unfoldable pub fma_init : FilterMa F → ℤ → ℤ → (ℕ → Option (List F)) → Bool × FilterMa F
  fma_init item id (negsuc n) malloc = (false, item)
  fma_init item id (pos zero) malloc = (true, reset_ma item id 0)
  fma_init item id (pos (suc n)) malloc = elim (malloc (suc n)) [
    | none ↦ (false, item)
    | some buf ↦ (true, reset_ma (record item { buf = buf }) id (suc n))
  ]

  unfoldable pub fma_free : FilterMa F → FilterMa F
  fma_free item = record item { buf = []; c_length = 0; length = 0; i = 0 }

module _ {F : Type 0} ⦃float : FloatOps F⦄ ⦃arith_f : FloatArith F⦄ where
  -- The loop of `fma_calc`
  unfoldable pub sum_loop : F → List F → F
  sum_loop s [] = s
  sum_loop s (x ∷ xs) = sum_loop (float.add s x) xs

  -- The sum of the first `c_length` elements, divided
  abbrev pub mean : List F → ℕ → F
  mean xs c_length = arith_f.div (sum_loop float.zero_f xs) (arith_f.of_nat c_length)

  -- `fma_calc` up to the sum: the value is put into the buffer
  unfoldable pub put_value : F → FilterMa F → FilterMa F
  put_value v item =
      let i = if leb item.length item.i then 0 else item.i in
      record item {
        buf = set item.buf i v;
        i = i + 1;
        c_length = if ltb item.c_length item.length then item.c_length + 1 else item.c_length;
      }

  unfoldable pub fma_calc : F → FilterMa F → F × FilterMa F
  unfolding put_value sum_loop
  fma_calc v item =
      let item1 = put_value v item in
      if item.length == 0
      then (v, item)
      else (mean (take item1.c_length item1.buf) item1.c_length, item1)

  -- `fexp_init`
  unfoldable pub fexp_init : FilterExp F → ℤ → F → Bool × FilterExp F
  fexp_init item id a =
      if float.lt a float.zero_f || float.lt arith_f.one_f a
      then (false, item)
      else (true, record item { id = id; a = a; f = false })

  unfoldable pub fexp_calc : F → FilterExp F → F × FilterExp F
  fexp_calc v item =
      let v1 =
        float.add (arith_f.mul item.a item.vp) (arith_f.mul (float.sub arith_f.one_f item.a) v) in
      if not item.f then (v, record item { f = true }) else (v1, record item { vp = v1 })

  -- `lcorrect`; `none` is a null pointer
  unfoldable pub lcorrect : F → Option (LCorrection F) → F
  lcorrect out none = out
  lcorrect out (some x) = float.add (arith_f.mul out x.factor) x.delta

  -- `lreduct`. C's `x >= y` is `lt y x` or `eq y x`.
  unfoldable pub lreduct : F → Option (LReduction F) → F
  lreduct out none = out
  lreduct out (some x) =
      let d_in = float.sub x.max_in x.min_in in
      if float.lt x.min_out x.max_out || float.eq x.min_out x.max_out
      then arith_f.mul (arith_f.div out d_in) (float.sub x.max_out x.min_out)
      else arith_f.mul (arith_f.div (float.sub d_in out) d_in) (float.sub x.min_out x.max_out)
