-- ===== src/Server/Lifecycle.antt =====
-- main.c and db.c: the commands of `serverRun` that start, stop and reset programs, and `addProgById`.
-- Threads, sockets, mutexes and the database are the interface `Spawn`.
pub mod Invariant
pub mod Listed
pub mod Run
pub mod Start
pub mod Stop
mod Tests
use regonf.Prelude.{Bool, true, false, Option, none, some, List, [], ◌∷◌, ℕ, if◌then◌else◌, not}
use regonf.Prelude.Int.{ℤ, pos}
use regonf.Float.{FloatOps}
use regonf.Acp.{Link}
use regonf.Regonfhc.{RegOnfHc}
use regonf.Regonfhc.Handlers
use regonf.ProgList.{Prog, ProgList, Heap, store, get_prog_by_id, add_prog, delete_prog_by_id}
use regonf.Server.{Handler, handle_at}

-- The fields of a program that are read from the database
pub record Loaded (F : Type 0) : Type 0 where
  pub id : ℤ
  pub reg : RegOnfHc F
  pub save : ℤ

-- What C's library and the database do for a program's start and end
pub record Spawn (F W : Type 0) : Type 0 where
  -- an address of memory that is not in use
  pub malloc : Heap F → W → Option ℕ × W
  -- the regulator after `memset`
  pub zeroed : RegOnfHc F
  pub init_mutex : W → Bool × W
  pub init_client : W → Bool × W
  -- `getProgByIdFDB` on the program before it is read
  pub read_prog : Loaded F → W → Bool × Loaded F × W
  pub create_thread : Prog F → W → Bool × W
  -- `stopProgThread`, and the write of 0 to the column "load"
  pub stop_thread : ℤ → W → W

module _ {F W : Type 0} (spawn : Spawn F W) where
  -- A program before it is read
  abbrev pub new_prog : ℤ → Loaded F
  new_prog id = record { id = id; reg = spawn.zeroed; save = pos 0 }

  -- The program that has been read. `secure_out` gets the program's own `error_code`, which is 0.
  abbrev pub loaded_prog : Loaded F → Prog F
  loaded_prog p = record {
    id = p.id;
    reg = record (p.reg) { secure_out = record (p.reg.secure_out) { error_code = 0 } };
    save = p.save;
    next = none;
  }

  -- `addProgById` up to the call of `addProg`: the program that is to be added. `checkProg` always
  -- succeeds.
  unfoldable pub prepare_prog : ℤ → W → Option (Prog F) × W
  prepare_prog id w =
      let (m, w1) = spawn.init_mutex w in
      let (c, w2) = spawn.init_client w1 in
      let (r, p, w3) = spawn.read_prog (new_prog id) w2 in
      if not m
      then (none, w1)
      else if not c
      then (none, w2)
      else if not r
      then (none, w3)
      else (some (loaded_prog p), w3)

  -- What follows `addProg`: the thread is created, or the memory is freed
  unfoldable pub run_prog :
      ℕ → Prog F → Option (Bool × Heap F × ProgList) → W → Option (Bool × Heap F × ProgList × W)
  run_prog a p none w = none
  run_prog a p (some (false, h, l)) w = some (false, store h a none, l, w)
  run_prog a p (some (true, h, l)) w =
      let (t, w1) = spawn.create_thread p w in
      some (if t then (true, h, l, w1) else (false, store h a none, l, w1))

  -- `addProgById` from the call of `malloc` on
  unfoldable pub create_prog :
      ℤ → Option ℕ → Heap F → ProgList → W → Option (Bool × Heap F × ProgList × W)
  unfolding prepare_prog run_prog
  create_prog id none h l w = some (false, h, l, w)
  create_prog id (some a) h l w =
      let (prepared, w1) = prepare_prog id w in
      elim prepared [
        | none ↦ some (false, h, l, w1)
        | some p ↦ run_prog a p (add_prog a (store h a (some p)) l) w1
      ]

  unfoldable pub add_prog_by_id : ℤ → Heap F → ProgList → W → Option (Bool × Heap F × ProgList × W)
  unfolding create_prog
  add_prog_by_id id h l w = elim (get_prog_by_id id h l) [
    | none ↦ none
    | some (some a) ↦ some (false, h, l, w)
    | some none ↦ let (a, w1) = spawn.malloc h w in create_prog id a h l w1
  ]

  -- The loop of PROG_START
  unfoldable pub start_progs : List ℤ → Heap F → ProgList → W → Option (Heap F × ProgList × W)
  unfolding add_prog_by_id
  start_progs [] h l w = some (h, l, w)
  start_progs (id ∷ ids) h l w = elim (add_prog_by_id id h l w) [
    | none ↦ none
    | some (_, h1, l1, w1) ↦ start_progs ids h1 l1 w1
  ]

module _ {F W : Type 0} (spawn : Spawn F W) where
  -- `loadActiveProg`: whether the database can be opened, whether the query succeeds, and the ids of
  -- the rows for which its callback is called
  unfoldable pub load_active_prog :
      (opened queried : Bool)
      → List ℤ
      → Heap F
      → ProgList
      → W
      → Option (Bool × Heap F × ProgList × W)
  unfolding start_progs
  load_active_prog false queried ids h l w = some (false, h, l, w)
  load_active_prog true queried ids h l w = elim (start_progs spawn ids h l w) [
    | none ↦ none
    | some (h1, l1, w1) ↦ some (queried, h1, l1, w1)
  ]

module _ {F W : Type 0} ⦃float : FloatOps F⦄ ⦃link : Link F W⦄ (spawn : Spawn F W) where
  abbrev pub on_stop : Handler F W
  on_stop id reg save w = let (reg', w') = Handlers.turn_off reg w in (reg', save, w')

  -- What follows the search in the loop of PROG_STOP
  unfoldable pub stop_found :
      ℤ → Option (Option ℕ) → Heap F → ProgList → W → Option (Heap F × ProgList × W)
  stop_found id none h l w = none
  stop_found id (some none) h l w = some (h, l, w)
  stop_found id (some (some a)) h l w = elim (handle_at on_stop (some (some a)) h w) [
    | none ↦ none
    | some (h1, w1) ↦ elim (delete_prog_by_id id h1 l) [
      | none ↦ none
      | some (_, h2, l2) ↦ some (h2, l2, spawn.stop_thread id w1)
    ]
  ]

  unfoldable pub stop_progs : List ℤ → Heap F → ProgList → W → Option (Heap F × ProgList × W)
  unfolding stop_found
  stop_progs [] h l w = some (h, l, w)
  stop_progs (id ∷ ids) h l w = elim (stop_found id (get_prog_by_id id h l) h l w) [
    | none ↦ none
    | some (h1, l1, w1) ↦ stop_progs ids h1 l1 w1
  ]

  -- PROG_RESET
  unfoldable pub reset_progs : List ℤ → Heap F → ProgList → W → Option (Heap F × ProgList × W)
  unfolding stop_progs start_progs
  reset_progs ids h l w = elim (stop_progs ids h l w) [
    | none ↦ none
    | some (h1, l1, w1) ↦ start_progs spawn ids h1 l1 w1
  ]

-- The commands that change the list of programs, with their rows
pub data ListCommand : Type 0 where
  prog_stop prog_start prog_reset : List ℤ → ListCommand

module _ {F W : Type 0} ⦃float : FloatOps F⦄ ⦃link : Link F W⦄ (spawn : Spawn F W) where
  unfoldable pub serve_list : ListCommand → Heap F → ProgList → W → Option (Heap F × ProgList × W)
  unfolding stop_progs start_progs reset_progs
  serve_list (prog_stop ids) h l w = stop_progs spawn ids h l w
  serve_list (prog_start ids) h l w = start_progs spawn ids h l w
  serve_list (prog_reset ids) h l w = reset_progs spawn ids h l w

  -- One request after the other
  unfoldable pub serve_all :
      List ListCommand → Heap F → ProgList → W → Option (Heap F × ProgList × W)
  unfolding serve_list
  serve_all [] h l w = some (h, l, w)
  serve_all (c ∷ cs) h l w = elim (serve_list c h l w) [
    | none ↦ none
    | some (h1, l1, w1) ↦ serve_all cs h1 l1 w1
  ]
