-- ===== src/Server/Lifecycle/Invariant.antt =====
-- main.c and db.c: whatever clients start, stop and reset, the list of programs stays well-formed.
use mathlib.Core.Path.{subst}
use regonf.Prelude.{
  ℕ, ◌≡◌, sym, ap, ◌∙◌, inl, inr, arith, Bool, true, false, Option, none, some, List, [], ◌∷◌, ◌++◌,
  Succeeds,
}
use regonf.Prelude.Int.{ℤ}
use regonf.Float.{FloatOps}
use regonf.Acp.{Link}
use regonf.ProgList.{Prog, ProgList, Heap}
use regonf.ProgList.Chain.{Represents}
use regonf.Server.Lifecycle.{
  load_active_prog, Spawn, Loaded, new_prog, add_prog_by_id, start_progs, stop_progs, reset_progs,
}
use regonf.Server.Lifecycle.Listed.{
  remove_ids, remove_ids-UniqueIds, FreshId, UniqueIds, Listed, UniqueIds-snoc,
}
use regonf.Server.Lifecycle.{ListCommand, prog_stop, prog_start, prog_reset, serve_list, serve_all}
use regonf.Server.Lifecycle.Start.{SpawnLaws, Starts, add_prog_by_id-Starts}
use regonf.Server.Lifecycle.Stop.{shut_all, stop_progs_lem}

-- The list after a command
abbrev pub KeepsListed : {F W : Type 0} → Option (Heap F × ProgList × W) → Type 0
KeepsListed = Succeeds (λ r. Listed r.0 r.1)

-- What is also relied on here: a program that is read by an id has this id, and threads can be created.
pub record StartLaws {F W : Type 0} (spawn : Spawn F W) : Type 0 where
  pub spawn_laws : SpawnLaws spawn
  pub same_id : (p : Loaded F) (w : W) → (spawn.read_prog p w).1.id ≡ p.id
  pub thread_runs : (p : Prog F) (w : W) → (spawn.create_thread p w).0 ≡ true

module _ {F W : Type 0} where
  -- A step and what follows it
  and_then :
      (o : Option (Heap F × ProgList × W))
      (next : Heap F → ProgList → W → Option (Heap F × ProgList × W))
      → KeepsListed o
      → ((h : Heap F) (l : ProgList) (w : W) → Listed h l → KeepsListed (next h l w))
      → KeepsListed (elim o as (λ _. Option (Heap F × ProgList × W)) [
        | none ↦ none
        | some (h1, l1, w1) ↦ next h1 l1 w1
      ])
  and_then none next k rest = k
  and_then (some (h, l, w)) next k rest = rest h l w k

  Starts-Listed :
      (spawn : Spawn F W) (laws : StartLaws spawn) (es : List (ℕ × Prog F)) (id : ℤ)
      (r : Bool × Heap F × ProgList × W)
      → UniqueIds es
      → Starts spawn es id r
      → Listed r.1 r.2
  Starts-Listed spawn laws es id (false, h, l, w) u (inl k) = record {
    entries = es;
    represents = k;
    unique = u;
  }
  Starts-Listed spawn laws es id (false, h, l, w) u (inr k) =
      absurd (ground (arith, laws.thread_runs k.prog k.world, k.no_thread))
  Starts-Listed spawn laws es id (true, h, l, w) u k =
      let (a, p, (v, read, is_read), fresh, r) = k in
      let same : p.id ≡ id = ap (λ q. q.id) is_read ∙ laws.same_id (new_prog spawn id) v in
      record {
        entries = es ++ (a, p) ∷ [];
        represents = r;
        unique = UniqueIds-snoc es a p u (subst (λ i. FreshId i es) (sym same) fresh);
      }

module _ {F W : Type 0} (spawn : Spawn F W) (laws : StartLaws spawn) where
  add_prog_by_id-Listed :
      (id : ℤ) (h : Heap F) (l : ProgList) (w : W)
      → Listed h l
      → Succeeds (λ r. Listed r.1 r.2) (add_prog_by_id spawn id h l w)
  add_prog_by_id-Listed id h l w k =
      started (add_prog_by_id spawn id h l w)
        (add_prog_by_id-Starts spawn laws.spawn_laws k.entries id h l w k.represents)
    where
      started :
          (o : Option (Bool × Heap F × ProgList × W))
          → Succeeds (Starts spawn k.entries id) o
          → Succeeds (λ r. Listed r.1 r.2) o
      started none n = n
      started (some r) n = Starts-Listed spawn laws k.entries id r k.unique n

  start_progs-Listed :
      (ids : List ℤ) (h : Heap F) (l : ProgList) (w : W)
      → Listed h l
      → KeepsListed (start_progs spawn ids h l w)
  unfolding start_progs
  start_progs-Listed [] h l w k = k
  start_progs-Listed (id ∷ ids) h l w k =
      started (add_prog_by_id spawn id h l w) (add_prog_by_id-Listed id h l w k)
        (λ h1 l1 w1 k1. start_progs-Listed ids h1 l1 w1 k1)
    where
      started :
          (o : Option (Bool × Heap F × ProgList × W))
          → Succeeds (λ r. Listed r.1 r.2) o
          → ((h1 : Heap F) (l1 : ProgList) (w1 : W)
              → Listed h1 l1
              → KeepsListed (start_progs spawn ids h1 l1 w1))
          → KeepsListed (elim o as (λ _. Option (Heap F × ProgList × W)) [
            | none ↦ none
            | some (_, h1, l1, w1) ↦ start_progs spawn ids h1 l1 w1
          ])
      started none n rest = n
      started (some (b, h1, l1, w1)) n rest = rest h1 l1 w1 n

  -- Also the programs that are loaded at the start of the application have different ids.
  pub load_active_prog-Listed :
      (opened queried : Bool) (ids : List ℤ) (h : Heap F) (l : ProgList) (w : W)
      → Listed h l
      → Succeeds (λ r. Listed r.1 r.2) (load_active_prog spawn opened queried ids h l w)
  unfolding load_active_prog
  load_active_prog-Listed false queried ids h l w k = k
  load_active_prog-Listed true queried ids h l w k =
      loaded (start_progs spawn ids h l w) (start_progs-Listed ids h l w k)
    where
      loaded :
          (o : Option (Heap F × ProgList × W))
          → KeepsListed o
          → Succeeds
              (λ r. Listed r.1 r.2)
              (elim o as (λ _. Option (Bool × Heap F × ProgList × W)) [
                | none ↦ none
                | some (h1, l1, w1) ↦ some (queried, h1, l1, w1)
              ])
      loaded none n = n
      loaded (some (h1, l1, w1)) n = n

module _ {F W : Type 0} ⦃float : FloatOps F⦄ ⦃link : Link F W⦄ (spawn : Spawn F W)
    (laws : StartLaws spawn) where
  stop_progs-Listed :
      (ids : List ℤ) (h : Heap F) (l : ProgList) (w : W)
      → Listed h l
      → KeepsListed (stop_progs spawn ids h l w)
  stop_progs-Listed ids h l w k =
      stopped (stop_progs spawn ids h l w) (stop_progs_lem spawn ids h l k.entries w k.represents)
    where
      stopped :
          (o : Option (Heap F × ProgList × W))
          → Succeeds
              (λ r.
                Represents r.0 r.1 (remove_ids ids k.entries)
                × (r.2 ≡ shut_all spawn ids k.entries w))
              o
          → KeepsListed o
      stopped none n = n
      stopped (some r) n = record {
        entries = remove_ids ids k.entries;
        represents = n.0;
        unique = remove_ids-UniqueIds ids k.entries k.unique;
      }

  serve_list-Listed :
      (c : ListCommand) (h : Heap F) (l : ProgList) (w : W)
      → Listed h l
      → KeepsListed (serve_list spawn c h l w)
  unfolding serve_list reset_progs
  serve_list-Listed (prog_stop ids) h l w k = stop_progs-Listed ids h l w k
  serve_list-Listed (prog_start ids) h l w k = start_progs-Listed spawn laws ids h l w k
  serve_list-Listed (prog_reset ids) h l w k =
      and_then (stop_progs spawn ids h l w) (start_progs spawn ids) (stop_progs-Listed ids h l w k)
        (λ h1 l1 w1 k1. start_progs-Listed spawn laws ids h1 l1 w1 k1)

  -- Any sequence of requests to start, stop and reset programs ends and follows no bad pointer, and
  -- afterwards the heap holds a list of programs of different ids, if it did before. `malloc` is taken
  -- to return memory that is not in use, a row of the database to have the id by which it is read, and
  -- threads to be created.
  pub serve_all-Listed :
      (cs : List ListCommand) (h : Heap F) (l : ProgList) (w : W)
      → Listed h l
      → KeepsListed (serve_all spawn cs h l w)
  unfolding serve_all
  serve_all-Listed [] h l w k = k
  serve_all-Listed (c ∷ cs) h l w k =
      and_then (serve_list spawn c h l w) (serve_all spawn cs) (serve_list-Listed c h l w k)
        (λ h1 l1 w1 k1. serve_all-Listed cs h1 l1 w1 k1)
