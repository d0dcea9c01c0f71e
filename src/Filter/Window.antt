-- ===== src/Filter/Window.antt =====
-- lib/filter/ma.c: the buffer of the moving average holds the last inputs.
use mathlib.Core.Path.{subst}
use regonf.Prelude.{
  ℕ, zero, suc, ◌+◌, ◌-◌, ◌<◌, ◌≤◌, ◌≡◌, refl, sym, ap, ◌∙◌, Bool, true, false, List, [], ◌∷◌, ◌++◌,
  arith, ltb, if◌then◌else◌, length, set, take, append_assoc, append_nil, length-append,
}
use regonf.Float.{FloatOps, FloatArith}
use regonf.Filter.{FilterMa, put_value}

module _ {A : Type 0} where
  -- A list less its first elements
  abbrev pub skip : ℕ → List A → List A
  skip zero xs = xs
  skip (suc n) [] = []
  skip (suc n) (x ∷ xs) = skip n xs

  -- The last elements, `n` at most
  abbrev pub last_of : ℕ → List A → List A
  last_of n xs = skip (length xs - n) xs

  set-append :
      (xs : List A) (y v : A) (ys : List A) → set (xs ++ y ∷ ys) (length xs) v ≡ xs ++ v ∷ ys
  set-append [] y v ys = refl
  set-append (x ∷ xs) y v ys = ap (λ t. x ∷ t) (set-append xs y v ys)

  pub take-append : (xs ys : List A) → take (length xs) (xs ++ ys) ≡ xs
  take-append [] [] = refl
  take-append [] (y ∷ ys) = refl
  take-append (x ∷ xs) ys = ap (λ t. x ∷ t) (take-append xs ys)

  skip-append : (k : ℕ) (xs ys : List A) → k ≤ length xs → skip k (xs ++ ys) ≡ skip k xs ++ ys
  skip-append zero xs ys l = refl
  skip-append (suc k) [] ys l = ground arith
  skip-append (suc k) (x ∷ xs) ys l = skip-append k xs ys (omega arith)

  length-skip : (k : ℕ) (xs : List A) → length (skip k xs) ≡ length xs - k
  length-skip zero xs = omega arith
  length-skip (suc k) [] = omega arith
  length-skip (suc k) (x ∷ xs) = length-skip k xs ∙ omega arith

  skip-suc : (k : ℕ) (xs : List A) → skip (suc k) xs ≡ skip 1 (skip k xs)
  skip-suc zero xs = refl
  skip-suc (suc k) [] = refl
  skip-suc (suc k) (x ∷ xs) = skip-suc k xs

  -- How the last elements change with a new one
  abbrev pub push : ℕ → List A → A → List A
  push n w v = if ltb (length w) n then w ++ v ∷ [] else skip 1 (w ++ v ∷ [])

  pub push_last :
      (n : ℕ) (us : List A) (v : A) → 0 < n → push n (last_of n us) v ≡ last_of n (us ++ v ∷ [])
  push_last n us v h = by_size (ltb (length us) n) refl
    where
      w : List A
      w = last_of n us

      size : length w ≡ length us - (length us - n)
      size = length-skip (length us - n) us

      grown : length (us ++ v ∷ []) ≡ length us + 1
      grown = length-append us (v ∷ [])

      by_size : (b : Bool) → ltb (length us) n ≡ b → push n w v ≡ last_of n (us ++ v ∷ [])
      by_size true e =
          let all : w ≡ us = ap (λ k. skip k us) {y = 0} (ground (arith, e)) in
          ap (λ b. if b then w ++ v ∷ [] else skip 1 (w ++ v ∷ [])) {y = true}
            (ground (arith, e, size))
          ∙ ap (λ t. t ++ v ∷ []) all
          ∙ ap (λ k. skip k (us ++ v ∷ [])) {x = 0} (ground (arith, e, grown))
      by_size false e =
          let k = length us - n in
          ap (λ b. if b then w ++ v ∷ [] else skip 1 (w ++ v ∷ [])) {y = false}
            (ground (arith, e, size))
          ∙ ap (skip 1) (sym (skip-append k us (v ∷ []) (omega arith)))
          ∙ sym (skip-suc k (us ++ v ∷ []))
          ∙ ap (λ k. skip k (us ++ v ∷ [])) {x = suc k} (ground (arith, e, grown))

module _ {F : Type 0} where
  -- The filter holds the window `w`: it is filling up, or it is full and the window is the buffer
  -- from the index on, followed by what is before the index.
  pub data Ring (item : FilterMa F) (w : List F) : Type 0 where
    filling :
        (rest : List F)
        → item.buf ≡ w ++ rest
        → item.i ≡ length w
        → item.c_length ≡ length w
        → item.length ≡ length w + length rest
        → 0 < length rest
        → Ring item w
    full :
        (xs ys : List F)
        → item.buf ≡ xs ++ ys
        → w ≡ ys ++ xs
        → item.i ≡ length xs
        → item.c_length ≡ item.length
        → item.length ≡ length xs + length ys
        → Ring item w

module _ {F : Type 0} ⦃float : FloatOps F⦄ ⦃arith_f : FloatArith F⦄ where
  -- The fields after a value has been put at an index of the buffer
  put_at :
      (v : F) (item : FilterMa F) (j : ℕ)
      → item.i ≡ j
      → j < item.length
      → ((put_value v item).buf ≡ set item.buf j v) × ((put_value v item).i ≡ j + 1)
  unfolding put_value
  put_at v item j e l = ground (arith, e)

  put_wrapped :
      (v : F) (item : FilterMa F)
      → item.length ≤ item.i
      → ((put_value v item).buf ≡ set item.buf 0 v) × ((put_value v item).i ≡ 1)
  unfolding put_value
  put_wrapped v item l = ground arith

  put_count :
      (v : F) (item : FilterMa F) (n : ℕ)
      → item.c_length ≡ n
      → n < item.length
      → (put_value v item).c_length ≡ n + 1
  unfolding put_value
  put_count v item n e l = ground (arith, e)

  put_counted :
      (v : F) (item : FilterMa F)
      → item.c_length ≡ item.length
      → (put_value v item).c_length ≡ item.length
  unfolding put_value
  put_counted v item e = ground (arith, e)

  length_snoc : (xs : List F) (v : F) → length (xs ++ v ∷ []) ≡ length xs + 1
  length_snoc xs v = length-append xs (v ∷ [])

  push_short : (n : ℕ) (w : List F) (v : F) → length w < n → push n w v ≡ w ++ v ∷ []
  push_short n w v l = ground arith

  push_long : (n : ℕ) (w : List F) (v : F) → n ≤ length w → push n w v ≡ skip 1 (w ++ v ∷ [])
  push_long n w v l = ground arith

  put_value-filling :
      (v : F) (item : FilterMa F) (w : List F) (r : F) (rest : List F)
      → item.buf ≡ w ++ r ∷ rest
      → item.i ≡ length w
      → item.c_length ≡ length w
      → item.length ≡ length w + suc (length rest)
      → Ring (put_value v item) (w ++ v ∷ [])
  unfolding put_value
  put_value-filling v item w r rest b i c l =
      let (at, next) = put_at v item (length w) i (omega (arith, l)) in
      let buffer : (put_value v item).buf ≡ (w ++ v ∷ []) ++ rest =
        at
        ∙ ap (λ t. set t (length w) v) b
        ∙ set-append w r v rest
        ∙ sym (append_assoc w (v ∷ []) rest) in
      let count = put_count v item (length w) c (omega (arith, l)) in
      by_room rest buffer next count l
    where
      by_room :
          (rest : List F)
          → (put_value v item).buf ≡ (w ++ v ∷ []) ++ rest
          → (put_value v item).i ≡ length w + 1
          → (put_value v item).c_length ≡ length w + 1
          → item.length ≡ length w + suc (length rest)
          → Ring (put_value v item) (w ++ v ∷ [])
      by_room [] b i c l =
          full (w ++ v ∷ []) [] b refl (omega (arith, i, length_snoc w v)) (omega (arith, c, l))
            (omega (arith, l, length_snoc w v))
      by_room (x ∷ rest) b i c l =
          filling (x ∷ rest) b (omega (arith, i, length_snoc w v))
            (omega (arith, c, length_snoc w v)) (omega (arith, l, length_snoc w v)) (omega arith)

  pub put_value-Ring :
      (v : F) (item : FilterMa F) (w : List F)
      → 0 < item.length
      → Ring item w
      → Ring (put_value v item) (push item.length w v)
  unfolding put_value
  put_value-Ring v item w h (filling [] b i c l p) = ground arith
  put_value-Ring v item w h (filling (r ∷ rest) b i c l p) =
      subst (Ring (put_value v item)) (sym (push_short item.length w v (omega (arith, l))))
        (put_value-filling v item w r rest b i c l)
  put_value-Ring v item w h (full xs (y ∷ ys) b e i c l) =
      let (at, next) = put_at v item (length xs) i (omega (arith, l)) in
      let size = ap length e ∙ length-append (y ∷ ys) xs in
      full (xs ++ v ∷ []) ys
        (at
          ∙ ap (λ t. set t (length xs) v) b
          ∙ set-append xs y v ys
          ∙ sym (append_assoc xs (v ∷ []) ys))
        (push_long item.length w v (omega (arith, l, size))
          ∙ ap (λ t. skip 1 (t ++ v ∷ [])) e
          ∙ append_assoc ys xs (v ∷ []))
        (omega (arith, next, length_snoc xs v)) (put_counted v item c)
        (omega (arith, l, length_snoc xs v))
  put_value-Ring v item w h (full [] [] b e i c l) = ground (arith, l)
  put_value-Ring v item w h (full (x ∷ xs) [] b e i c l) =
      let (at, next) = put_wrapped v item (omega (arith, i, l)) in
      full (v ∷ []) xs (at ∙ ap (λ t. set t 0 v) b ∙ ap (λ t. v ∷ t) (append_nil xs))
        (push_long item.length w v (omega (arith, l, ap length e))
          ∙ ap (λ t. skip 1 (t ++ v ∷ [])) e)
        next (put_counted v item c) (omega (arith, l))
