-- ===== src/Server/Lifecycle/Run.antt =====
-- main.c and db.c: what clients start, stop and reset, with threads that may not be created.
use regonf.Prelude.{
  ℕ, ◌≡◌, refl, ◌⊎◌, inl, inr, Bool, true, false, Option, none, some, List, [], ◌∷◌, ◌++◌, Succeeds,
}
use regonf.Prelude.Int.{ℤ}
use regonf.Float.{FloatOps}
use regonf.Acp.{Link}
use regonf.ProgList.{Prog, ProgList, Heap}
use regonf.ProgList.Chain.{Represents}
use regonf.Server.Lifecycle.{
  Spawn, ListCommand, prog_start, prog_stop, prog_reset, add_prog_by_id, start_progs, stop_progs,
  reset_progs, serve_list, serve_all,
}
use regonf.Server.Lifecycle.Start.{SpawnLaws, Dangles, Starts, add_prog_by_id-Starts}
use regonf.Server.Lifecycle.Listed.{remove_ids}
use regonf.Server.Lifecycle.Stop.{shut_all, stop_progs_lem}

-- The heap holds a list of programs.
abbrev pub Holds : {F : Type 0} → Heap F → ProgList → Type 0
Holds {F} h l = (es : List (ℕ × Prog F)) × Represents h l es

abbrev pub Keeps : {F W : Type 0} → Option (Heap F × ProgList × W) → Type 0
Keeps = Succeeds (λ r. Holds r.0 r.1)

-- The loop of PROG_START reaches a program whose thread cannot be created, so that the end of the list
-- dangles.
pub data StartFails {F W : Type 0} (spawn : Spawn F W)
    : List ℤ → Heap F → ProgList → W → Type 0 where
  at_once :
      {id : ℤ} {ids : List ℤ} {h h1 : Heap F} {l l1 : ProgList} {w w1 : W} {b : Bool}
      → add_prog_by_id spawn id h l w ≡ some (b, h1, l1, w1)
      → (es : List (ℕ × Prog F)) → Dangles spawn es id h1 l1
      → StartFails spawn (id ∷ ids) h l w
  behind :
      {id : ℤ} {ids : List ℤ} {h h1 : Heap F} {l l1 : ProgList} {w w1 : W} {b : Bool}
      → add_prog_by_id spawn id h l w ≡ some (b, h1, l1, w1)
      → StartFails spawn ids h1 l1 w1
      → StartFails spawn (id ∷ ids) h l w

-- A run of requests reaches such a program.
pub data ServeFails {F W : Type 0} ⦃float : FloatOps F⦄ ⦃link : Link F W⦄ (spawn : Spawn F W)
    : List ListCommand → Heap F → ProgList → W → Type 0 where
  in_start :
      {ids : List ℤ} {cs : List ListCommand} {h : Heap F} {l : ProgList} {w : W}
      → StartFails spawn ids h l w
      → ServeFails spawn (prog_start ids ∷ cs) h l w
  in_reset :
      {ids : List ℤ} {cs : List ListCommand} {h h1 : Heap F} {l l1 : ProgList} {w w1 : W}
      → stop_progs spawn ids h l w ≡ some (h1, l1, w1)
      → StartFails spawn ids h1 l1 w1
      → ServeFails spawn (prog_reset ids ∷ cs) h l w
  further :
      {c : ListCommand} {cs : List ListCommand} {h h1 : Heap F} {l l1 : ProgList} {w w1 : W}
      → serve_list spawn c h l w ≡ some (h1, l1, w1)
      → ServeFails spawn cs h1 l1 w1
      → ServeFails spawn (c ∷ cs) h l w

module _ {F W : Type 0} (spawn : Spawn F W) (laws : SpawnLaws spawn) where
  start_progs-Keeps :
      (ids : List ℤ) (h : Heap F) (l : ProgList) (w : W)
      → Holds h l
      → Keeps (start_progs spawn ids h l w) ⊎ StartFails spawn ids h l w
  unfolding start_progs
  start_progs-Keeps [] h l w k = inl k
  start_progs-Keeps (id ∷ ids) h l w k =
      started (add_prog_by_id spawn id h l w) refl
        (add_prog_by_id-Starts spawn laws k.0 id h l w k.1)
        (λ h1 l1 w1 k1. start_progs-Keeps ids h1 l1 w1 k1)
    where
      Goal : Option (Bool × Heap F × ProgList × W) → Type 0
      Goal o =
          Keeps (elim o as (λ _. Option (Heap F × ProgList × W)) [
            | none ↦ none
            | some (_, h1, l1, w1) ↦ start_progs spawn ids h1 l1 w1
          ])
          ⊎ StartFails spawn (id ∷ ids) h l w

      go_on :
          (b : Bool) (h1 : Heap F) (l1 : ProgList) (w1 : W)
          → add_prog_by_id spawn id h l w ≡ some (b, h1, l1, w1)
          → Keeps (start_progs spawn ids h1 l1 w1) ⊎ StartFails spawn ids h1 l1 w1
          → Goal (some (b, h1, l1, w1))
      go_on b h1 l1 w1 e (inl kept) = inl kept
      go_on b h1 l1 w1 e (inr fails) = inr (behind e fails)

      started :
          (o : Option (Bool × Heap F × ProgList × W))
          → add_prog_by_id spawn id h l w ≡ o
          → Succeeds (Starts spawn k.0 id) o
          → ((h1 : Heap F) (l1 : ProgList) (w1 : W)
              → Holds h1 l1
              → Keeps (start_progs spawn ids h1 l1 w1) ⊎ StartFails spawn ids h1 l1 w1)
          → Goal o
      started none e s rest = absurd s
      started (some (true, h1, l1, w1)) e (a, p, read, fresh, r) rest =
          go_on true h1 l1 w1 e (rest h1 l1 w1 (k.0 ++ (a, p) ∷ [], r))
      started (some (false, h1, l1, w1)) e (inl r) rest =
          go_on false h1 l1 w1 e (rest h1 l1 w1 (k.0, r))
      started (some (false, h1, l1, w1)) e (inr d) rest = inr (at_once e k.0 d)

module _ {F W : Type 0} ⦃float : FloatOps F⦄ ⦃link : Link F W⦄ (spawn : Spawn F W)
    (laws : SpawnLaws spawn) where
  stop_progs-Keeps :
      (ids : List ℤ) (h : Heap F) (l : ProgList) (w : W)
      → Holds h l
      → Keeps (stop_progs spawn ids h l w)
  stop_progs-Keeps ids h l w k =
      stopped (stop_progs spawn ids h l w) (stop_progs_lem spawn ids h l k.0 w k.1)
    where
      stopped :
          (o : Option (Heap F × ProgList × W))
          → Succeeds
              (λ r. Represents r.0 r.1 (remove_ids ids k.0) × (r.2 ≡ shut_all spawn ids k.0 w))
              o
          → Keeps o
      stopped none n = n
      stopped (some r) n = (remove_ids ids k.0, n.0)

  -- One request
  serve_list-Keeps :
      (c : ListCommand) (cs : List ListCommand) (h : Heap F) (l : ProgList) (w : W)
      → Holds h l
      → Keeps (serve_list spawn c h l w) ⊎ ServeFails spawn (c ∷ cs) h l w
  unfolding serve_list reset_progs
  serve_list-Keeps (prog_stop ids) cs h l w k = inl (stop_progs-Keeps ids h l w k)
  serve_list-Keeps (prog_start ids) cs h l w k = by_start (start_progs-Keeps spawn laws ids h l w k)
    where
      by_start :
          Keeps (start_progs spawn ids h l w) ⊎ StartFails spawn ids h l w
          → Keeps (start_progs spawn ids h l w) ⊎ ServeFails spawn (prog_start ids ∷ cs) h l w
      by_start (inl kept) = inl kept
      by_start (inr fails) = inr (in_start fails)
  serve_list-Keeps (prog_reset ids) cs h l w k =
      stopped (stop_progs spawn ids h l w) refl (stop_progs-Keeps ids h l w k)
    where
      by_start :
          (h1 : Heap F) (l1 : ProgList) (w1 : W)
          → stop_progs spawn ids h l w ≡ some (h1, l1, w1)
          → Keeps (start_progs spawn ids h1 l1 w1) ⊎ StartFails spawn ids h1 l1 w1
          → Keeps (start_progs spawn ids h1 l1 w1) ⊎ ServeFails spawn (prog_reset ids ∷ cs) h l w
      by_start h1 l1 w1 e (inl kept) = inl kept
      by_start h1 l1 w1 e (inr fails) = inr (in_reset e fails)

      stopped :
          (o : Option (Heap F × ProgList × W))
          → stop_progs spawn ids h l w ≡ o
          → Keeps o
          → Keeps (elim o as (λ _. Option (Heap F × ProgList × W)) [
            | none ↦ none
            | some (h1, l1, w1) ↦ start_progs spawn ids h1 l1 w1
          ])
            ⊎ ServeFails spawn (prog_reset ids ∷ cs) h l w
      stopped none e n = absurd n
      stopped (some (h1, l1, w1)) e n =
          by_start h1 l1 w1 e (start_progs-Keeps spawn laws ids h1 l1 w1 n)

  -- If `malloc` returns memory that is not in use, then any sequence of requests to start, stop and reset
  -- programs, in a list that the heap holds, ends, follows no bad pointer and leaves a list that the heap
  -- holds; or the run comes to a program whose thread cannot be created, and whose node is freed and left
  -- in the list.
  pub serve_all-Keeps :
      (cs : List ListCommand) (h : Heap F) (l : ProgList) (w : W)
      → Holds h l
      → Keeps (serve_all spawn cs h l w) ⊎ ServeFails spawn cs h l w
  unfolding serve_all
  serve_all-Keeps [] h l w k = inl k
  serve_all-Keeps (c ∷ cs) h l w k =
      served (serve_list spawn c h l w) refl (serve_list-Keeps c cs h l w k)
        (λ h1 l1 w1 k1. serve_all-Keeps cs h1 l1 w1 k1)
    where
      go_on :
          (h1 : Heap F) (l1 : ProgList) (w1 : W)
          → serve_list spawn c h l w ≡ some (h1, l1, w1)
          → Keeps (serve_all spawn cs h1 l1 w1) ⊎ ServeFails spawn cs h1 l1 w1
          → Keeps (serve_all spawn cs h1 l1 w1) ⊎ ServeFails spawn (c ∷ cs) h l w
      go_on h1 l1 w1 e (inl kept) = inl kept
      go_on h1 l1 w1 e (inr fails) = inr (further e fails)

      served :
          (o : Option (Heap F × ProgList × W))
          → serve_list spawn c h l w ≡ o
          → Keeps o ⊎ ServeFails spawn (c ∷ cs) h l w
          → ((h1 : Heap F) (l1 : ProgList) (w1 : W)
              → Holds h1 l1
              → Keeps (serve_all spawn cs h1 l1 w1) ⊎ ServeFails spawn cs h1 l1 w1)
          → Keeps (elim o as (λ _. Option (Heap F × ProgList × W)) [
            | none ↦ none
            | some (h1, l1, w1) ↦ serve_all spawn cs h1 l1 w1
          ])
            ⊎ ServeFails spawn (c ∷ cs) h l w
      served none e (inl n) rest = absurd n
      served (some (h1, l1, w1)) e (inl n) rest = go_on h1 l1 w1 e (rest h1 l1 w1 n)
      served o e (inr fails) rest = inr fails
