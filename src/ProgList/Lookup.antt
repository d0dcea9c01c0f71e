-- ===== src/ProgList/Lookup.antt =====
-- util.c: what the search finds in the list of programs that the heap holds.
use regonf.Prelude.{
  ℕ, zero, suc, ◌≤◌, ◌≡◌, refl, ap, ◌∙◌, Bool, true, false, Option, none, some, List, [], ◌∷◌,
  arith, if◌then◌else◌, length,
}
use regonf.Prelude.Int.{ℤ, eq_ℤ}
use regonf.ProgList.{Prog, ProgList, Heap, get_loop, get_prog_by_id}
use regonf.ProgList.Chain.{first, Chain, Represents}

module _ {F : Type 0} where
  -- The operations on the entries
  abbrev pub lookup_id : ℤ → List (ℕ × Prog F) → Option ℕ
  lookup_id id [] = none
  lookup_id id (e ∷ es) =
      let rest = lookup_id id es in if eq_ℤ (e.1.id) id then some (e.0) else rest

  abbrev pub remove_id : ℤ → List (ℕ × Prog F) → List (ℕ × Prog F)
  remove_id id [] = []
  remove_id id (e ∷ es) = let rest = e ∷ remove_id id es in if eq_ℤ (e.1.id) id then es else rest

  abbrev pub has_id : ℤ → List (ℕ × Prog F) → Bool
  has_id id [] = false
  has_id id (e ∷ es) = let rest = has_id id es in if eq_ℤ (e.1.id) id then true else rest

  get_loop_lem :
      (fuel : ℕ) (id : ℤ) (h : Heap F) (es : List (ℕ × Prog F))
      → length es ≤ fuel
      → Chain h es
      → get_loop fuel id h (first es) ≡ some (lookup_id id es)
  unfolding get_loop
  get_loop_lem fuel id h [] l c = refl
  get_loop_lem zero id h (e ∷ es) l c = ground arith
  get_loop_lem (suc fuel) id h (e ∷ es) l c =
      ground (arith, c.0, get_loop_lem fuel id h es (omega arith) c.1)

  -- The search in a list that the heap holds ends, follows no bad pointer, and finds the first
  -- program with the id, or none.
  pub get_prog_by_id_lem :
      (id : ℤ) (h : Heap F) (l : ProgList) (es : List (ℕ × Prog F))
      → Represents h l es
      → get_prog_by_id id h l ≡ some (lookup_id id es)
  unfolding get_prog_by_id
  get_prog_by_id_lem id h l es r =
      ap (λ k. get_loop k id h l.top) r.counted
      ∙ ap (get_loop (length es) id h) r.top
      ∙ get_loop_lem (length es) id h es (omega arith) r.chain
