-- ===== src/ProgList/Tests.antt =====
-- util.c and db.c: a list of programs at concrete inputs.
use regonf.Prelude.{ℕ, ◌≡◌, refl, true, Option, none, some, List, [], ◌∷◌, ◌++◌, arith, Succeeds}
use regonf.Prelude.Int.{ℤ, pos}
use regonf.Bench.{regulator}
use regonf.ProgList.{Prog, ProgList, Heap, store, add_prog, delete_prog_by_id}
use regonf.ProgList.Chain.{IsFreed, Represents}
use regonf.ProgList.Lookup.{lookup_id, remove_id, has_id}
use regonf.ProgList.Delete.{delete_prog_by_id_lem}
use regonf.ProgList.Free.{free_prog_list, Frees, free_prog_list_lem}
use regonf.ProgList.Add.{add_prog_lem}

abbrev prog : ℤ → Option ℕ → Prog ℤ
prog id next = record { id = id; reg = regulator; save = pos 0; next = next }

-- Programs 7 and 5 are in the list, at the addresses 10 and 11; program 9 is new, at 12.
abbrev heap : Heap ℤ
heap =
    store
      (store (store (λ b. none) 10 (some (prog (pos 7) (some 11)))) 11 (some (prog (pos 5) none)))
      12 (some (prog (pos 9) none))

abbrev entries : List (ℕ × Prog ℤ)
entries = (10, prog (pos 7) none) ∷ (11, prog (pos 5) none) ∷ []

abbrev list : ProgList
list = record { top = some 10; last = some 11; length = 2 }

list-Represents : Represents heap list entries
list-Represents = record {
  top = refl;
  last = refl;
  counted = refl;
  bounded = omega arith;
  chain = (refl, (refl, tt));
  distinct = (((omega arith), tt), (tt, tt));
}

delete_prog_by_id_lem_example :
    Succeeds
      (λ r.
        (r.0 ≡ has_id (pos 5) entries)
        × IsFreed r.1 (lookup_id (pos 5) entries)
        × Represents r.1 r.2 (remove_id (pos 5) entries))
      (delete_prog_by_id (pos 5) heap list)
delete_prog_by_id_lem_example = delete_prog_by_id_lem (pos 5) heap list entries list-Represents

add_prog_lem_example :
    Succeeds
      (λ r. (r.0 ≡ true) × Represents r.1 r.2 (entries ++ (12, prog (pos 9) none) ∷ []))
      (add_prog 12 heap list)
add_prog_lem_example =
    add_prog_lem 12 (prog (pos 9) none) heap list entries list-Represents refl
      ((omega arith), ((omega arith), tt)) (omega arith)

free_prog_list_lem_example :
    Succeeds (λ r. Frees heap entries r.0 × Represents r.0 r.1 []) (free_prog_list heap list)
free_prog_list_lem_example = free_prog_list_lem heap list entries list-Represents
