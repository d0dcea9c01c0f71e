-- ===== src/Server/Lifecycle/Stop.antt =====
-- main.c and db.c: PROG_STOP on the list of programs.
use mathlib.Core.Path.{subst}
use regonf.Prelude.{
  ℕ, ◌≡◌, refl, sym, ap, ◌∙◌, if◌then◌else◌, Bool, true, false, Option, none, some, List, [], ◌∷◌,
  arith, Succeeds,
}
use regonf.Prelude.Int.{ℤ, eq_ℤ}
use regonf.Float.{FloatOps}
use regonf.Acp.{Link}
use regonf.Regonfhc.{RegOnfHc, control_em}
use regonf.Regonfhc.Handlers
use regonf.Regonfhc.Control.Failure.{told_off, control_em-told}
use regonf.ProgList.{Prog, ProgList, Heap, delete_prog_by_id}
use regonf.ProgList.Chain.{IsFreed, first, Chain, Represents}
use regonf.ProgList.Lookup.{lookup_id, remove_id, has_id, get_prog_by_id_lem}
use regonf.ProgList.Delete.{delete_prog_by_id_lem}
use regonf.Server.{Handler, handle_at}
use regonf.Server.Update.{update_id, handle_at_lem, handle_at-found}
use regonf.Server.Lifecycle.{Spawn, on_stop, stop_found, stop_progs}
use regonf.Server.Lifecycle.Listed.{remove_ids}

module _ {F W : Type 0} (id : ℤ) (f : Handler F W) (w : W) where
  remove_id-update_id :
      (es : List (ℕ × Prog F)) → remove_id id (update_id id f w es) ≡ remove_id id es
  remove_id-update_id [] = refl
  remove_id-update_id (e ∷ es) = removed (remove_id-update_id es) (eq_ℤ (e.1.id) id) refl
    where
      removed :
          remove_id id (update_id id f w es) ≡ remove_id id es
          → (b : Bool) → eq_ℤ (e.1.id) id ≡ b
          → remove_id id (update_id id f w (e ∷ es)) ≡ remove_id id (e ∷ es)
      removed rest true same = ground (arith, same)
      removed rest false other = ground (arith, other, rest)

  remove_id-none : (es : List (ℕ × Prog F)) → lookup_id id es ≡ none → remove_id id es ≡ es
  remove_id-none [] e = refl
  remove_id-none (g ∷ es) e = ground (arith, e, remove_id-none es)

module _ {F W : Type 0} ⦃float : FloatOps F⦄ ⦃link : Link F W⦄ (spawn : Spawn F W) where
  -- The first program with the id sends an output of 0 to its cooler and then to its heater, to each if
  -- it is in use; then its thread is stopped and its column "load" written.
  abbrev pub shut_down : ℤ → List (ℕ × Prog F) → W → W
  shut_down id [] w = w
  shut_down id (e ∷ es) w =
      let rest = shut_down id es w in
      if eq_ℤ (e.1.id) id
      then spawn.stop_thread id (told_off e.1.reg.heater (told_off e.1.reg.cooler w))
      else rest

  abbrev pub shut_all : List ℤ → List (ℕ × Prog F) → W → W
  shut_all [] es w = w
  shut_all (id ∷ ids) es w = shut_all ids (remove_id id es) (shut_down id es w)

  -- What the stopping of programs leaves: a list of these entries, and this world
  abbrev Stops : List (ℕ × Prog F) → W → Option (Heap F × ProgList × W) → Type 0
  Stops es v = Succeeds (λ r. Represents r.0 r.1 es × (r.2 ≡ v))

  turn_off-told :
      (reg : RegOnfHc F) (w : W)
      → (Handlers.turn_off reg w).1 ≡ told_off reg.heater (told_off reg.cooler w)
  unfolding Handlers.turn_off
  turn_off-told reg w =
      control_em-told reg.heater (control_em reg.cooler float.zero_f w).1
      ∙ ap (told_off reg.heater) (control_em-told reg.cooler w)

  shut_down-none :
      (id : ℤ) (es : List (ℕ × Prog F)) (w : W) → lookup_id id es ≡ none → shut_down id es w ≡ w
  shut_down-none id [] w e = refl
  shut_down-none id (g ∷ es) w e = ground (arith, e, shut_down-none id es w)

  -- The world after the handler, at the address of the first program with the id
  handled_world :
      (id : ℤ) (h : Heap F) (es : List (ℕ × Prog F)) (a : ℕ) (w : W)
      → Chain h es
      → lookup_id id es ≡ some a
      → Succeeds
          (λ r. spawn.stop_thread id r.1 ≡ shut_down id es w)
          (handle_at (on_stop spawn) (some (some a)) h w)
  handled_world id h [] a w c e = absurd (ground (arith, e))
  handled_world id h (g ∷ es) a w c e =
      by_id (eq_ℤ (g.1.id) id) refl (λ f. handled_world id h es a w c.1 f)
    where
      by_id :
          (b : Bool)
          → eq_ℤ (g.1.id) id ≡ b
          → (lookup_id id es ≡ some a
              → Succeeds
                  (λ r. spawn.stop_thread id r.1 ≡ shut_down id es w)
                  (handle_at (on_stop spawn) (some (some a)) h w))
          → Succeeds
              (λ r. spawn.stop_thread id r.1 ≡ shut_down id (g ∷ es) w)
              (handle_at (on_stop spawn) (some (some a)) h w)
      by_id true same rest =
          let here : a ≡ g.0 = ground (arith, e, same) in
          let p = record (g.1) { next = first es } in
          rw (here, handle_at-found id (on_stop spawn) w h (g.0) p c.0, same)
            (ap (spawn.stop_thread id) (turn_off-told g.1.reg w))
      by_id false other rest = rw other (rest (ground (arith, e, other)))

  both :
      {A : Type 0} (P Q : A → Type 0) (o : Option A)
      → Succeeds P o
      → Succeeds Q o
      → Succeeds (λ r. P r × Q r) o
  both P Q none p q = p
  both P Q (some r) p q = (p, q)

  stop_found_lem :
      (id : ℤ) (found : Option ℕ) (h : Heap F) (l : ProgList) (es : List (ℕ × Prog F)) (w : W)
      → Represents h l es
      → lookup_id id es ≡ found
      → Stops (remove_id id es) (shut_down id es w) (stop_found spawn id (some found) h l w)
  unfolding stop_found
  stop_found_lem id none h l es w r e = (
    subst (Represents h l) (sym (remove_id-none id (on_stop spawn) w es e)) r,
    sym (shut_down-none id es w e),
  )
  stop_found_lem id (some a) h l es w r e =
      handled (handle_at (on_stop spawn) (some (some a)) h w) (
        both (λ r. Represents r.0 l updated) (λ r. spawn.stop_thread id r.1 ≡ shut_down id es w) _
          (handle_at_lem id (on_stop spawn) w h l es (some a) r e)
          (handled_world id h es a w r.chain e))
    where
      updated : List (ℕ × Prog F)
      updated = update_id id (on_stop spawn) w es

      deleted :
          (h1 : Heap F) (w1 : W) (o : Option (Bool × Heap F × ProgList))
          → spawn.stop_thread id w1 ≡ shut_down id es w
          → Succeeds
              (λ r.
                (r.0 ≡ has_id id updated)
                × IsFreed r.1 (lookup_id id updated)
                × Represents r.1 r.2 (remove_id id updated))
              o
          → Stops
              (remove_id id es)
              (shut_down id es w)
              (elim o [ none ↦ none | some (_, h2, l2) ↦ some (h2, l2, spawn.stop_thread id w1) ])
      deleted h1 w1 none v k = k
      deleted h1 w1 (some (b, h2, l2)) v k =
          (subst (Represents h2 l2) (remove_id-update_id id (on_stop spawn) w es) k.2, v)

      handled :
          (o : Option (Heap F × W))
          → Succeeds
              (λ r. Represents r.0 l updated × (spawn.stop_thread id r.1 ≡ shut_down id es w))
              o
          → Stops (remove_id id es) (shut_down id es w) (elim o [
            | none ↦ none
            | some (h1, w1) ↦ elim (delete_prog_by_id id h1 l) [
              | none ↦ none
              | some (_, h2, l2) ↦ some (h2, l2, spawn.stop_thread id w1)
            ]
          ])
      handled none k = k
      handled (some (h1, w1)) k =
          deleted h1 w1 (delete_prog_by_id id h1 l) k.1 (delete_prog_by_id_lem id h1 l updated k.0)

  -- A request to stop programs takes, for each of its ids in turn, the first program that has it: the
  -- program sends an output of 0 to its cooler and then to its heater, to each if it is in use, its thread
  -- is stopped and 0 written to its column "load", and it is taken out of the list that the heap holds.
  -- Nothing else is asked of the world; the other programs stay in the list, in their order. No bad
  -- pointer is followed, and the loops end.
  pub stop_progs_lem :
      (ids : List ℤ) (h : Heap F) (l : ProgList) (es : List (ℕ × Prog F)) (w : W)
      → Represents h l es
      → Succeeds
          (λ r. Represents r.0 r.1 (remove_ids ids es) × (r.2 ≡ shut_all ids es w))
          (stop_progs spawn ids h l w)
  unfolding stop_progs
  stop_progs_lem [] h l es w r = (r, refl)
  stop_progs_lem (id ∷ ids) h l es w r =
      subst
        (λ o.
          Stops (remove_ids ids (remove_id id es)) (shut_all (id ∷ ids) es w)
            (elim (stop_found spawn id o h l w) as (λ _. Option (Heap F × ProgList × W)) [
              | none ↦ none
              | some (h1, l1, w1) ↦ stop_progs spawn ids h1 l1 w1
            ]))
        (sym (get_prog_by_id_lem id h l es r))
        (stopped (stop_found spawn id (some (lookup_id id es)) h l w)
          (stop_found_lem id (lookup_id id es) h l es w r refl)
          (λ h1 l1 w1 r1. stop_progs_lem ids h1 l1 (remove_id id es) w1 r1))
    where
      stopped :
          (o : Option (Heap F × ProgList × W))
          → Stops (remove_id id es) (shut_down id es w) o
          → ((h1 : Heap F) (l1 : ProgList) (w1 : W)
              → Represents h1 l1 (remove_id id es)
              → Stops
                  (remove_ids ids (remove_id id es))
                  (shut_all ids (remove_id id es) w1)
                  (stop_progs spawn ids h1 l1 w1))
          → Stops
              (remove_ids ids (remove_id id es))
              (shut_all (id ∷ ids) es w)
              (elim o as (λ _. Option (Heap F × ProgList × W)) [
                | none ↦ none
                | some (h1, l1, w1) ↦ stop_progs spawn ids h1 l1 w1
              ])
      stopped none k rest = k
      stopped (some (h1, l1, w1)) k rest =
          subst
            (λ v.
              Stops (remove_ids ids (remove_id id es)) (shut_all ids (remove_id id es) v)
                (stop_progs spawn ids h1 l1 w1))
            k.1 (rest h1 l1 w1 k.0)
