-- ===== src/Filter/Average.antt =====
-- lib/filter/ma.c: what the moving average returns.
use mathlib.Core.Path.{subst}
use regonf.Prelude.{
  ℕ, suc, ◌-◌, ◌<◌, ◌≡◌, refl, sym, ap, ◌∙◌, Option, some, List, [], ◌∷◌, ◌++◌, arith, length, take,
  take_all, append_assoc, append_nil, length-append,
}
use regonf.Prelude.Int.{ℤ, pos}
use regonf.Float.{FloatOps, FloatArith}
use regonf.Filter.{FilterMa, fma_init, put_value, fma_calc, mean, reset_ma}
use regonf.Filter.Window.{
  last_of, skip, push, push_last, take-append, Ring, filling, full, put_value-Ring,
}

module _ {F : Type 0} ⦃float : FloatOps F⦄ ⦃arith_f : FloatArith F⦄ where
  -- A mean of the elements of a window, which are added from one of them on to the last and then from
  -- the first
  pub record IsMean (w : List F) (result : F) : Type 0 where
    pub before : List F
    pub after : List F
    pub window : w ≡ after ++ before
    pub value : result ≡ mean (before ++ after) (length w)

  -- The filter after some inputs
  unfoldable pub calc_all : List F → FilterMa F → FilterMa F
  unfolding fma_calc
  calc_all [] item = item
  calc_all (v ∷ vs) item = calc_all vs (fma_calc v item).1

  fma_calc-state :
      (v : F) (item : FilterMa F) → 0 < item.length → (fma_calc v item).1 ≡ put_value v item
  unfolding fma_calc
  fma_calc-state v item h = ground arith

  fma_calc-value :
      (v : F) (item : FilterMa F)
      → 0 < item.length
      → (fma_calc v item).0
        ≡ mean (take (put_value v item).c_length (put_value v item).buf) (put_value v item).c_length
  unfolding fma_calc
  fma_calc-value v item h = ground arith

  Ring-IsMean :
      (item : FilterMa F) (w : List F)
      → Ring item w
      → IsMean w (mean (take item.c_length item.buf) item.c_length)
  Ring-IsMean item w (filling rest b i c l p) = record {
    before = w;
    after = [];
    window = refl;
    value =
        ap (λ k. mean (take k item.buf) k) c
        ∙ ap (λ t. mean (take (length w) t) (length w)) b
        ∙ ap (λ t. mean t (length w)) (take-append w rest ∙ sym (append_nil w));
  }
  Ring-IsMean item w (full xs ys b e i c l) =
      let size = ap length e ∙ length-append ys xs in
      record {
        before = xs;
        after = ys;
        window = e;
        value =
            ap (λ t. mean (take item.c_length t) item.c_length) b
            ∙ ap (λ t. mean t item.c_length)
                (take_all item.c_length (xs ++ ys) (omega (arith, c, l, length-append xs ys)))
            ∙ ap (mean (xs ++ ys)) (omega (arith, c, l, size));
      }

  put_value-last :
      (n : ℕ) (us : List F) (v : F) (item : FilterMa F)
      → 0 < n
      → item.length ≡ n
      → Ring item (last_of n us)
      → Ring (put_value v item) (last_of n (us ++ v ∷ []))
  put_value-last n us v item h e r =
      subst (Ring (put_value v item)) (ap (λ k. push k (last_of n us) v) e ∙ push_last n us v h)
        (put_value-Ring v item (last_of n us) (omega (arith, h, e)) r)

  calc_all-Ring :
      (n : ℕ) (vs us : List F) (item : FilterMa F)
      → 0 < n
      → item.length ≡ n
      → Ring item (last_of n us)
      → Ring (calc_all vs item) (last_of n (us ++ vs)) × ((calc_all vs item).length ≡ n)
  unfolding calc_all put_value
  calc_all-Ring n [] us item h e r =
      (subst (λ t. Ring item (last_of n t)) (sym (append_nil us)) r, e)
  calc_all-Ring n (v ∷ vs) us item h e r =
      let state = fma_calc-state v item (omega (arith, h, e)) in
      let pushed = put_value-last n us v item h e r in
      let (ring, size) =
        calc_all-Ring n vs (us ++ v ∷ []) (fma_calc v item).1 h (ap (λ t. t.length) state ∙ e)
          (subst (λ t. Ring t (last_of n (us ++ v ∷ []))) (sym state) pushed) in
      (
        subst (λ t. Ring (calc_all vs (fma_calc v item).1) (last_of n t))
            (append_assoc us (v ∷ []) vs) ring,
        size,
      )

  put_value-IsMean :
      (n : ℕ) (us : List F) (v : F) (item : FilterMa F)
      → 0 < n
      → item.length ≡ n
      → Ring item (last_of n us)
      → IsMean (last_of n (us ++ v ∷ [])) (fma_calc v item).0
  put_value-IsMean n us v item h e r =
      let pushed = put_value-last n us v item h e r in
      subst (IsMean (last_of n (us ++ v ∷ []))) (sym (fma_calc-value v item (omega (arith, h, e))))
        (Ring-IsMean (put_value v item) (last_of n (us ++ v ∷ [])) pushed)

  -- A filter for means of one value or more is initialised, with the memory that it asks for, and given
  -- inputs, however many. What it returns for the next input is the mean of the last inputs, that one
  -- included: of as many as the filter is for, or of all while there are fewer. They are added in the
  -- order of the buffer, which is a rotation of the order in which they came.
  pub fma_calc-IsMean :
      (item : FilterMa F) (id : ℤ) (n : ℕ) (malloc : ℕ → Option (List F)) (buf : List F)
      (vs : List F) (v : F)
      → malloc (suc n) ≡ some buf
      → length buf ≡ suc n
      → IsMean
          (last_of (suc n) (vs ++ v ∷ []))
          (fma_calc v (calc_all vs (fma_init item id (pos (suc n)) malloc).1)).0
  unfolding fma_init
  fma_calc-IsMean item id n malloc buf vs v m size =
      let start = reset_ma (record item { buf = buf }) id (suc n) in
      let begun : (fma_init item id (pos (suc n)) malloc).1 ≡ start = ground (arith, m) in
      let empty : Ring start (last_of (suc n) []) =
        subst (λ k. Ring start (skip k [])) {x = 0} {y = 0 - suc n} (omega arith)
          (filling buf refl refl refl (omega (arith, size)) (omega (arith, size))) in
      let (ring, kept) = calc_all-Ring (suc n) vs [] start (omega arith) refl empty in
      subst (λ f. IsMean (last_of (suc n) (vs ++ v ∷ [])) (fma_calc v (calc_all vs f)).0)
        (sym begun) (put_value-IsMean (suc n) vs v (calc_all vs start) (omega arith) kept ring)
