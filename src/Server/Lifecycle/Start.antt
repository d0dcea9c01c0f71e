-- ===== src/Server/Lifecycle/Start.antt =====
-- main.c and db.c: PROG_START and PROG_RESET on the list of programs.
use mathlib.Core.Path.{subst}
use regonf.Prelude.{
  ℕ, ◌-◌, ◌<◌, ◌^◌, ◌≡◌, refl, sym, ap, ◌∙◌, Bool, true, false, Option, none, some, List, [], ◌∷◌,
  ◌++◌, arith, length, Succeeds, leb, if_cases, not, ◌⊎◌, inl, inr,
}
use regonf.Prelude.Int.{ℤ}
use regonf.ProgList.{Prog, ProgList, Heap, store, add_prog}
use regonf.ProgList.Chain.{Represents, store_same}
use regonf.ProgList.Lookup.{lookup_id, get_prog_by_id_lem}
use regonf.ProgList.Add.{add_prog_lem}
use regonf.Server.Lifecycle.{
  Spawn, new_prog, loaded_prog, prepare_prog, run_prog, create_prog, add_prog_by_id,
}
use regonf.Server.Lifecycle.Listed.{FreshId, lookup_id-FreshId, unused-Fresh, Represents-store}

-- Memory that is not in use
abbrev pub Unused : {F : Type 0} → Heap F → Option ℕ → Type 0
Unused h none = Unit
Unused h (some a) = h a ≡ none

-- What is relied on: `malloc` returns memory that is not in use.
pub record SpawnLaws {F W : Type 0} (spawn : Spawn F W) : Type 0 where
  pub malloc-Unused : (h : Heap F) (w : W) → Unused h (spawn.malloc h w).0

room_lem : (n m : ℕ) → leb (2 ^ 31 - 1) n ≡ false → n ≡ m → m < 2 ^ 31 - 1
room_lem n m e f = ground (arith, e, f)

module _ {F W : Type 0} (spawn : Spawn F W) where
  -- A program as `getProgByIdFDB` has read it for an id, with success
  abbrev pub IsRead : ℤ → Prog F → Type 0
  IsRead id p =
      (v : W) × ((spawn.read_prog (new_prog spawn id) v).0 ≡ true)
      × (p ≡ loaded_prog spawn (spawn.read_prog (new_prog spawn id) v).1)

  -- The list is as before, but for a program at its end whose thread could not be created and whose
  -- memory has been freed, so that the list points to freed memory.
  pub record Dangles (es : List (ℕ × Prog F)) (id : ℤ) (h : Heap F) (l : ProgList) : Type 0 where
    pub before : Heap F
    pub address : ℕ
    pub prog : Prog F
    pub is_read : IsRead id prog
    pub appended : Represents before l (es ++ (address, prog) ∷ [])
    pub freed : h ≡ store before address none
    pub world : W
    pub no_thread : (spawn.create_thread prog world).0 ≡ false

  -- After a call that has started a program, the program is the last of the list; after one that has
  -- not, the list is as before or its end dangles.
  abbrev pub Starts : List (ℕ × Prog F) → ℤ → Bool × Heap F × ProgList × W → Type 0
  Starts es id (false, h, l, w) = Represents h l es ⊎ Dangles es id h l
  Starts es id (true, h, l, w) =
      (a : ℕ) × (p : Prog F) × IsRead id p × FreshId id es × Represents h l (es ++ (a, p) ∷ [])

  abbrev IsNew : ℤ → Option (Prog F) → Type 0
  IsNew id none = Unit
  IsNew id (some p) = IsRead id p × (p.next ≡ none)

  prepare_prog-IsNew : (id : ℤ) (w : W) → IsNew id (prepare_prog spawn id w).0
  unfolding prepare_prog
  prepare_prog-IsNew id w =
      if_cases New (not (spawn.init_mutex w).0) _ _ (λ _. tt)
        (λ _.
          if_cases New (not (spawn.init_client (spawn.init_mutex w).1).0) _ _ (λ _. tt)
            (λ _.
              if_cases New (not (spawn.read_prog (new_prog spawn id) w2).0) _ _ (λ _. tt)
                (λ read. ((w2, ground (arith, read), refl), refl))))
    where
      New : Option (Prog F) × W → Type 0
      New r = IsNew id r.0

      w2 : W
      w2 = (spawn.init_client (spawn.init_mutex w).1).1

  add_prog-full :
      (a : ℕ) (h : Heap F) (l : ProgList)
      → leb (2 ^ 31 - 1) l.length ≡ true
      → add_prog a h l ≡ some (false, h, l)
  unfolding add_prog
  add_prog-full a h l e = ground (arith, e)

  add_prog-Starts :
      (es : List (ℕ × Prog F)) (id : ℤ) (a : ℕ) (p : Prog F) (h : Heap F) (l : ProgList) (w : W)
      → Represents h l es
      → FreshId id es
      → h a ≡ none
      → IsRead id p × (p.next ≡ none)
      → Succeeds (Starts es id) (run_prog spawn a p (add_prog a (store h a (some p)) l) w)
  unfolding run_prog
  add_prog-Starts es id a p h l w r u m n = by_room (leb (2 ^ 31 - 1) l.length) refl
    where
      ran :
          (o : Option (Bool × Heap F × ProgList))
          → Succeeds (λ r. (r.0 ≡ true) × Represents r.1 r.2 (es ++ (a, p) ∷ [])) o
          → Succeeds (Starts es id) (run_prog spawn a p o w)
      ran none k = k
      ran (some (false, h2, l2)) k = absurd (ground (arith, k.0))
      ran (some (true, h2, l2)) k =
          if_cases (Starts es id) (spawn.create_thread p w).0 _ _ (λ _. (a, p, n.0, u, k.1))
            (λ no_thread. inr (record {
              before = h2;
              address = a;
              prog = p;
              is_read = n.0;
              appended = k.1;
              freed = refl;
              world = w;
              no_thread = no_thread;
            }))

      by_room :
          (b : Bool)
          → leb (2 ^ 31 - 1) l.length ≡ b
          → Succeeds (Starts es id) (run_prog spawn a p (add_prog a (store h a (some p)) l) w)
      by_room true full =
          let fresh = unused-Fresh h a es r.chain m in
          let h1 = store h a (some p) in
          let r1 = Represents-store h l es a (some p) r fresh in
          subst (λ o. Succeeds (Starts es id) (run_prog spawn a p o w))
            (sym (add_prog-full a h1 l full)) (inl (Represents-store h1 l es a none r1 fresh))
      by_room false room =
          let fresh = unused-Fresh h a es r.chain m in
          let h1 = store h a (some p) in
          let r1 = Represents-store h l es a (some p) r fresh in
          ran (add_prog a h1 l) (
            add_prog_lem a p h1 l es r1
              (store_same h a (some p) ∙ ap (λ t. some (record p { next = t })) n.1) fresh
              (room_lem l.length (length es) room r.counted))

  create_prog-Starts :
      (es : List (ℕ × Prog F)) (id : ℤ) (a : Option ℕ) (h : Heap F) (l : ProgList) (w : W)
      → Represents h l es
      → FreshId id es
      → Unused h a
      → Succeeds (Starts es id) (create_prog spawn id a h l w)
  unfolding create_prog
  create_prog-Starts es id none h l w r u m = inl r
  create_prog-Starts es id (some a) h l w r u m =
      prepared (prepare_prog spawn id w).0 (prepare_prog-IsNew id w)
    where
      prepared :
          (o : Option (Prog F))
          → IsNew id o
          → Succeeds (Starts es id) (elim o [
            | none ↦ some (false, h, l, (prepare_prog spawn id w).1)
            | some p ↦
                run_prog spawn a p (add_prog a (store h a (some p)) l) (prepare_prog spawn id w).1
          ])
      prepared none n = inl r
      prepared (some p) n = add_prog-Starts es id a p h l _ r u m n

  -- If `malloc` returns memory that is not in use, a call of `addProgById` on a list that the heap holds
  -- ends and follows no bad pointer. If it returns 1, the program as `getProgByIdFDB` has read it for the id is the last one of the
  -- list that the heap holds, and no program before it has the id. If it returns 0, the heap holds the
  -- list as it was, or the thread of the program that has been added could not be created: then the
  -- program is freed and still the last node of the list, which points to freed memory.
  pub add_prog_by_id-Starts :
      SpawnLaws spawn
      → (es : List (ℕ × Prog F)) (id : ℤ) (h : Heap F) (l : ProgList) (w : W) → Represents h l es
      → Succeeds (Starts es id) (add_prog_by_id spawn id h l w)
  unfolding add_prog_by_id
  add_prog_by_id-Starts laws es id h l w r =
      subst
        (λ o. Succeeds (Starts es id) (elim o as (λ _. Option (Bool × Heap F × ProgList × W)) [
          | none ↦ none
          | some (some a) ↦ some (false, h, l, w)
          | some none ↦ create_prog spawn id (spawn.malloc h w).0 h l (spawn.malloc h w).1
        ]))
        (sym (get_prog_by_id_lem id h l es r)) (found (lookup_id id es) refl)
    where
      found :
          (o : Option ℕ)
          → lookup_id id es ≡ o
          → Succeeds (Starts es id) (elim o as (λ _. Option (Bool × Heap F × ProgList × W)) [
            | none ↦ create_prog spawn id (spawn.malloc h w).0 h l (spawn.malloc h w).1
            | some a ↦ some (false, h, l, w)
          ])
      found none e =
          create_prog-Starts es id (spawn.malloc h w).0 h l (spawn.malloc h w).1 r
            (lookup_id-FreshId id es e) (laws.malloc-Unused h w)
      found (some a) e = inl r
