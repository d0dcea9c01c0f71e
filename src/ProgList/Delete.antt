-- ===== src/ProgList/Delete.antt =====
-- db.c: what `deleteProgById` does to the list of programs that the heap holds.
use mathlib.Core.Path.{subst}
use regonf.Prelude.{
  ℕ, zero, suc, ◌≤◌, ◌≡◌, refl, sym, Bool, true, false, Option, none, some, List, [], ◌∷◌, ◌++◌,
  arith, if◌then◌else◌, length, Succeeds, append_assoc,
}
use regonf.Prelude.Int.{ℤ, eq_ℤ}
use regonf.ProgList.{Prog, ProgList, Heap, unlink, deleted, delete_loop, delete_prog_by_id}
use regonf.ProgList.Chain.{IsFreed, first, final, Represents, Chain-split, final-append}
use regonf.ProgList.Lookup.{lookup_id, remove_id, has_id}
use regonf.ProgList.Unlink.{unlink_lem}

module _ {F : Type 0} where
  snoc : (ps : List (ℕ × Prog F)) (c : ℕ × Prog F) → final (ps ++ c ∷ []) ≡ some (c.0)
  snoc ps c = final-append ps c []

  delete_loop-go_on :
      (fuel : ℕ) (id : ℤ) (prev : Option ℕ) (c : ℕ) (p : Prog F) (h : Heap F) (l : ProgList)
      → h c ≡ some p
      → delete_loop (suc fuel) id prev (some c) h l ≡ (
          if eq_ℤ p.id id
          then deleted (unlink prev c p h l)
          else delete_loop fuel id (some c) p.next h l)
  unfolding delete_loop
  delete_loop-go_on fuel id prev c p h l e = ground (arith, e)

  -- What a deletion leaves of the part of the list from `curr` on
  abbrev Deletes : ℤ → (ps cs : List (ℕ × Prog F)) → Option (Bool × Heap F × ProgList) → Type 0
  Deletes id ps cs = Succeeds (λ r.
      (r.0 ≡ has_id id cs)
      × IsFreed r.1 (lookup_id id cs)
      × Represents r.1 r.2 (ps ++ remove_id id cs))

  deleted_lem :
      (a : Option ℕ) (es : List (ℕ × Prog F)) (o : Option (Heap F × ProgList))
      → Succeeds (λ r. IsFreed r.0 a × Represents r.0 r.1 es) o
      → Succeeds (λ r. (r.0 ≡ true) × IsFreed r.1 a × Represents r.1 r.2 es) (deleted o)
  deleted_lem a es none s = s
  deleted_lem a es (some r) s = (refl, s.0, s.1)

  Deletes-if :
      (b found : Bool) (a c : Option ℕ) (ps xs ys : List (ℕ × Prog F))
      (x y : Option (Bool × Heap F × ProgList))
      → Succeeds (λ r. (r.0 ≡ true) × IsFreed r.1 a × Represents r.1 r.2 (ps ++ xs)) x
      → Succeeds (λ r. (r.0 ≡ found) × IsFreed r.1 c × Represents r.1 r.2 (ps ++ ys)) y
      → Succeeds
          (λ r.
            (r.0 ≡ (if b then true else found))
            × IsFreed r.1 (if b then a else c)
            × Represents r.1 r.2 (ps ++ (if b then xs else ys)))
          (if b then x else y)
  Deletes-if true found a c ps xs ys x y hx hy = hx
  Deletes-if false found a c ps xs ys x y hx hy = hy

  delete_loop_lem :
      (fuel : ℕ) (id : ℤ) (h : Heap F) (l : ProgList) (ps cs : List (ℕ × Prog F))
      → length cs ≤ fuel
      → Represents h l (ps ++ cs)
      → Deletes id ps cs (delete_loop fuel id (final ps) (first cs) h l)
  unfolding delete_loop
  delete_loop_lem fuel id h l ps [] k r = (refl, tt, r)
  delete_loop_lem zero id h l ps (c ∷ cs) k r = ground arith
  delete_loop_lem (suc fuel) id h l ps (c ∷ cs) k r =
      let p = record (c.1) { next = first cs } in
      let e : h c.0 ≡ some p = (Chain-split h ps (c ∷ cs) r.chain).0 in
      let moved : Represents h l ((ps ++ c ∷ []) ++ cs) =
        subst (Represents h l) (sym (append_assoc ps (c ∷ []) cs)) r in
      let rest = delete_loop_lem fuel id h l (ps ++ c ∷ []) cs (omega arith) moved in
      let rest' =
        subst (λ t. Deletes id (ps ++ c ∷ []) cs (delete_loop fuel id t (first cs) h l)) (snoc ps c)
          rest in
      let after =
        subst
          (λ t.
            Succeeds
              (λ r. (r.0 ≡ has_id id cs) × IsFreed r.1 (lookup_id id cs) × Represents r.1 r.2 t)
              (delete_loop fuel id (some (c.0)) (first cs) h l))
          (append_assoc ps (c ∷ []) (remove_id id cs)) rest' in
      subst (Deletes id ps (c ∷ cs)) (sym (delete_loop-go_on fuel id (final ps) c.0 p h l e)) (
        Deletes-if (eq_ℤ c.1.id id) (has_id id cs) (some (c.0)) (lookup_id id cs) ps cs
          (c ∷ remove_id id cs) _ _
          (deleted_lem (some (c.0)) (ps ++ cs) _ (unlink_lem h l ps c cs r)) after)

  -- A deletion in a list that the heap holds ends and follows no bad pointer. It says whether a
  -- program has the id, takes the first such program out and frees its node, corrects `last` and
  -- `length`, and leaves the other ones in their order.
  pub delete_prog_by_id_lem :
      (id : ℤ) (h : Heap F) (l : ProgList) (es : List (ℕ × Prog F))
      → Represents h l es
      → Succeeds
          (λ r.
            (r.0 ≡ has_id id es)
            × IsFreed r.1 (lookup_id id es)
            × Represents r.1 r.2 (remove_id id es))
          (delete_prog_by_id id h l)
  unfolding delete_prog_by_id
  delete_prog_by_id_lem id h l es r =
      subst (λ t. Deletes id [] es (delete_loop l.length id none t h l)) (sym r.top)
        (delete_loop_lem l.length id h l [] es (omega (arith, r.counted)) r)
