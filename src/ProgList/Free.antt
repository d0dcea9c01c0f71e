-- ===== src/ProgList/Free.antt =====
-- util.c: `freeProgList` on the list of programs that the heap holds.
use mathlib.Core.Path.{subst}
use regonf.Prelude.{
  ℕ, zero, suc, ◌≤◌, ◌≡◌, refl, sym, ◌∙◌, Option, none, some, List, [], ◌∷◌, arith, All, length,
  Succeeds,
}
use regonf.ProgList.{Prog, ProgList, Heap, store}
use regonf.ProgList.Chain.{first, Chain, Fresh, Distinct, Represents, store_other, Chain-store}

module _ {F : Type 0} where
  -- The loop: each node is freed once its `next` has been read. A freed node that is reached is `none`.
  unfoldable pub free_loop : (fuel : ℕ) → Option ℕ → Heap F → Option (Heap F)
  free_loop fuel none h = some h
  free_loop zero (some a) h = none
  free_loop (suc fuel) (some a) h = elim (h a) [
    | none ↦ none
    | some p ↦ free_loop fuel p.next (store h a none)
  ]

  -- `freeProgList`
  unfoldable pub free_prog_list : Heap F → ProgList → Option (Heap F × ProgList)
  unfolding free_loop
  free_prog_list h l = elim (free_loop l.length l.top h) [
    | none ↦ none
    | some h1 ↦ some (h1, record { top = none; last = none; length = 0 })
  ]

  -- Every entry is freed, and other memory is as it was.
  abbrev pub Frees : Heap F → List (ℕ × Prog F) → Heap F → Type 0
  Frees h es h1 = All (λ e. h1 (e.0) ≡ none) es × ((b : ℕ) → Fresh b es → h1 b ≡ h b)

  Frees-cons :
      (h : Heap F) (e : ℕ × Prog F) (es : List (ℕ × Prog F)) (h1 : Heap F)
      → Fresh e.0 es
      → Frees (store h (e.0) none) es h1
      → Frees h (e ∷ es) h1
  Frees-cons h e es h1 f k = (
    (k.1 e.0 f ∙ ground arith, k.0),
    (λ b g. k.1 b g.1 ∙ store_other h (e.0) none b (λ same. g.0 (sym same))),
  )

  free_loop_lem :
      (fuel : ℕ) (h : Heap F) (es : List (ℕ × Prog F))
      → length es ≤ fuel
      → Chain h es
      → Distinct es
      → Succeeds (Frees h es) (free_loop fuel (first es) h)
  unfolding free_loop
  free_loop_lem fuel h [] l c d = (tt, λ b g. refl)
  free_loop_lem zero h (e ∷ es) l c d = ground arith
  free_loop_lem (suc fuel) h (e ∷ es) l c d =
      let rest =
        free_loop_lem fuel (store h (e.0) none) es (omega arith)
          (Chain-store h (e.0) none es c.1 d.0) d.1 in
      subst
        (λ o. Succeeds (Frees h (e ∷ es)) (elim o as (λ _. Option (Heap F)) [
          | none ↦ none
          | some p ↦ free_loop fuel p.next (store h (e.0) none)
        ]))
        (sym c.0) (freed (free_loop fuel (first es) (store h (e.0) none)) rest)
    where
      freed :
          (o : Option (Heap F))
          → Succeeds (Frees (store h (e.0) none) es) o
          → Succeeds (Frees h (e ∷ es)) o
      freed none k = k
      freed (some h1) k = Frees-cons h e es h1 d.0 k

  -- The freeing of a list that the heap holds ends and reaches no freed node. Every program of the list
  -- is freed, other memory is as it was, and the list is empty.
  pub free_prog_list_lem :
      (h : Heap F) (l : ProgList) (es : List (ℕ × Prog F))
      → Represents h l es
      → Succeeds (λ r. Frees h es r.0 × Represents r.0 r.1 []) (free_prog_list h l)
  unfolding free_prog_list
  free_prog_list_lem h l es r = freed (free_loop l.length l.top h) (
      subst (λ t. Succeeds (Frees h es) (free_loop l.length t h)) (sym r.top)
        (free_loop_lem l.length h es (omega (arith, r.counted)) r.chain r.distinct))
    where
      freed :
          (o : Option (Heap F))
          → Succeeds (Frees h es) o
          → Succeeds
              (λ r. Frees h es r.0 × Represents r.0 r.1 [])
              (elim o as (λ _. Option (Heap F × ProgList)) [
                | none ↦ none
                | some h1 ↦ some (h1, record { top = none; last = none; length = 0 })
              ])
      freed none k = k
      freed (some h1) k = (
        k,
        record {
          top = refl;
          last = refl;
          counted = refl;
          bounded = omega arith;
          chain = tt;
          distinct = tt;
        },
      )
