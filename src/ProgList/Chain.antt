-- ===== src/ProgList/Chain.antt =====
-- main.h: what the heap holds of a list of programs.
use regonf.Prelude.{
  ℕ, ◌<◌, ◌≡◌, ◌≢◌, refl, sym, ◌∙◌, Option, none, some, List, [], ◌∷◌, ◌++◌, arith, All, All-append,
  length, ◌^◌,
}
use regonf.ProgList.{Prog, ProgList, Heap, store}

module _ {F : Type 0} where
  -- An entry is a program with its address.
  abbrev pub first : List (ℕ × Prog F) → Option ℕ
  first [] = none
  first (e ∷ es) = some e.0

  abbrev pub final_from : ℕ → List (ℕ × Prog F) → ℕ
  final_from a [] = a
  final_from a (e ∷ es) = final_from (e.0) es

  abbrev pub final : List (ℕ × Prog F) → Option ℕ
  final [] = none
  final (e ∷ es) = some (final_from (e.0) es)

  -- The nodes of the entries, each with the address of the one after it
  abbrev pub Chain : Heap F → List (ℕ × Prog F) → Type 0
  Chain h [] = Unit
  Chain h (e ∷ es) = (h e.0 ≡ some (record (e.1) { next = first es })) × Chain h es

  -- An address that no entry has
  abbrev pub Fresh : ℕ → List (ℕ × Prog F) → Type 0
  Fresh a = All (λ e. e.0 ≢ a)

  abbrev pub Distinct : List (ℕ × Prog F) → Type 0
  Distinct [] = Unit
  Distinct (e ∷ es) = Fresh e.0 es × Distinct es

  -- An address, if there is one, is of memory that has been freed.
  abbrev pub IsFreed : Heap F → Option ℕ → Type 0
  IsFreed h none = Unit
  IsFreed h (some a) = h a ≡ none

  -- The list in the heap has these entries, in this order.
  pub record Represents (h : Heap F) (l : ProgList) (es : List (ℕ × Prog F)) : Type 0 where
    pub top : l.top ≡ first es
    pub last : l.last ≡ final es
    pub counted : l.length ≡ length es
    pub bounded : length es < 2 ^ 31
    pub chain : Chain h es
    pub distinct : Distinct es

  pub store_other : (h : Heap F) (a : ℕ) (p : Option (Prog F)) (b : ℕ) → b ≢ a → store h a p b ≡ h b
  store_other h a p b n = ground arith

  pub store_same : (h : Heap F) (a : ℕ) (p : Option (Prog F)) → store h a p a ≡ p
  store_same h a p = ground arith

  pub Chain-store :
      (h : Heap F) (a : ℕ) (p : Option (Prog F)) (es : List (ℕ × Prog F))
      → Chain h es
      → Fresh a es
      → Chain (store h a p) es
  Chain-store h a p [] c f = tt
  Chain-store h a p (e ∷ es) c f = (ground (arith, c.0, f.0), Chain-store h a p es c.1 f.1)

  pub final_from-Fresh :
      (a b : ℕ) (es : List (ℕ × Prog F)) → b ≢ a → Fresh a es → final_from b es ≢ a
  final_from-Fresh a b [] n f = n
  final_from-Fresh a b (e ∷ es) n f = final_from-Fresh a e.0 es f.0 f.1

  -- The last node of a chain is made to point to another one.
  pub Chain-relink :
      (h : Heap F) (e : ℕ × Prog F) (es old new : List (ℕ × Prog F))
      → Chain h (e ∷ (es ++ old))
      → Distinct (e ∷ es)
      → Chain h new
      → All (λ f. Fresh f.0 new) (e ∷ es)
      → let z = final_from e.0 es in
        (q : Prog F) × (h z ≡ some q)
        × Chain (store h z (some (record q { next = first new }))) (e ∷ (es ++ new))
  Chain-relink h e [] old new c d n f =
      (record (e.1) { next = first old }, c.0, (ground arith, Chain-store h e.0 _ new n f.0))
  Chain-relink h e (g ∷ es) old new c d n f =
      let (q, eq, chain) = Chain-relink h g es old new c.1 d.1 n f.1 in
      let z = final_from g.0 es in
      let differ : z ≢ e.0 = final_from-Fresh e.0 g.0 es d.0.0 d.0.1 in
      (q, eq, (store_other h z _ e.0 (λ same. differ (sym same)) ∙ c.0, chain))

  -- A chain in two parts
  pub Chain-split : (h : Heap F) (es fs : List (ℕ × Prog F)) → Chain h (es ++ fs) → Chain h fs
  Chain-split h [] fs c = c
  Chain-split h (e ∷ es) fs c = Chain-split h es fs c.1

  pub All-split :
      (P : ℕ × Prog F → Type 0) (es fs : List (ℕ × Prog F)) → All P (es ++ fs) → All P es × All P fs
  All-split P [] fs a = (tt, a)
  All-split P (e ∷ es) fs a = let (x, y) = All-split P es fs a.1 in ((a.0, x), y)

  pub Distinct-split :
      (es fs : List (ℕ × Prog F))
      → Distinct (es ++ fs)
      → Distinct es × Distinct fs × All (λ e. Fresh e.0 fs) es
  Distinct-split [] fs d = (tt, d, tt)
  Distinct-split (e ∷ es) fs d =
      let (x, y) = All-split (λ f. f.0 ≢ e.0) es fs d.0 in
      let (u, v, w) = Distinct-split es fs d.1 in ((x, u), v, (y, w))

  -- One entry is taken out.
  pub Distinct-without :
      (es : List (ℕ × Prog F)) (e : ℕ × Prog F) (fs : List (ℕ × Prog F))
      → Distinct (es ++ e ∷ fs)
      → Distinct (es ++ fs) × Fresh e.0 (es ++ fs)
  Distinct-without [] e fs d = (d.1, d.0)
  Distinct-without (g ∷ es) e fs d =
      let (u, v) = Distinct-without es e fs d.1 in
      let (x, y) = All-split (λ f. f.0 ≢ g.0) es (e ∷ fs) d.0 in
      ((All-append _ es fs x y.1, u), ((λ same. y.0 (sym same)), v))

  pub final-append :
      (es : List (ℕ × Prog F)) (e : ℕ × Prog F) (fs : List (ℕ × Prog F))
      → final (es ++ e ∷ fs) ≡ some (final_from e.0 fs)
  final-append [] e fs = refl
  final-append (g ∷ []) e fs = refl
  final-append (g ∷ (k ∷ es)) e fs = final-append (k ∷ es) e fs
