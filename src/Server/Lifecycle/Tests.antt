-- ===== src/Server/Lifecycle/Tests.antt =====
-- main.c and db.c: starting and stopping programs at concrete inputs.
use regonf.Prelude.{
  ℕ, ◌≡◌, refl, ◌⊎◌, true, false, Option, none, some, List, [], ◌∷◌, arith, Succeeds,
}
use regonf.Prelude.Int.{ℤ, pos}
use regonf.Bench.{World, world, bench_link, int_float, regulator}
use regonf.ProgList.{Prog, ProgList, Heap, store, get_prog_by_id, add_prog, delete_prog_by_id}
use regonf.Server.{handle_at}
use regonf.ProgList.Chain.{Represents}
use regonf.Server.Lifecycle.{
  Spawn, ListCommand, prog_start, prog_stop, prog_reset, serve_all, stop_progs, add_prog_by_id,
}
use regonf.Server.Lifecycle.Run.{Keeps, ServeFails, serve_all-Keeps}
use regonf.Server.Lifecycle.Start.{SpawnLaws, Unused, Starts, add_prog_by_id-Starts}
use regonf.Server.Lifecycle.Stop.{shut_all, stop_progs_lem}

-- The addresses 20 and 21, as long as they are free
abbrev second : Option (Prog ℤ) → Option ℕ
second none = some 21
second (some p) = none

abbrev place : Option (Prog ℤ) → Option (Prog ℤ) → Option ℕ
place none other = some 20
place (some p) other = second other

abbrev spawn : Spawn ℤ World
spawn = record {
  malloc = λ h w. (place (h 20) (h 21), w);
  zeroed = regulator;
  init_mutex = λ w. (true, w);
  init_client = λ w. (true, w);
  read_prog = λ p w. (true, p, w);
  create_thread = λ p w. (true, w);
  stop_thread = λ id w. w;
}

second-Unused : (h : Heap ℤ) (b : Option (Prog ℤ)) → h 21 ≡ b → Unused h (second b)
second-Unused h none f = f
second-Unused h (some q) f = tt

place-Unused : (h : Heap ℤ) (a b : Option (Prog ℤ)) → h 20 ≡ a → h 21 ≡ b → Unused h (place a b)
place-Unused h none b e f = e
place-Unused h (some p) b e f = second-Unused h b f

spawn_laws : SpawnLaws spawn
spawn_laws = record { malloc-Unused = λ h w. place-Unused h (h 20) (h 21) refl refl }

abbrev no_progs : Heap ℤ
no_progs = λ a. none

abbrev nothing : ProgList
nothing = record { top = none; last = none; length = 0 }

nothing-Represents : Represents no_progs nothing []
nothing-Represents = record {
  top = refl;
  last = refl;
  counted = refl;
  bounded = omega arith;
  chain = tt;
  distinct = tt;
}

abbrev requests : List ListCommand
requests =
    prog_start (pos 7 ∷ pos 5 ∷ pos 7 ∷ []) ∷ prog_stop (pos 5 ∷ []) ∷ prog_reset (pos 7 ∷ []) ∷ []

-- The programs 7 and 5 are started, 5 is stopped and 7 started again: one program stays.
serve_all-run :
    elim (serve_all spawn requests no_progs nothing (world 0 [])) as (λ _. Option ProgList) [
      | none ↦ none
      | some (h, l, w) ↦ some l
    ]
    ≡ some (record { top = some 20; last = some 20; length = 1 })
unfolding serve_all get_prog_by_id add_prog handle_at delete_prog_by_id
serve_all-run = refl

-- Without a thread the program is freed and stays in the list: the search for a program then follows a
-- bad pointer.
no_thread-dangles :
    serve_all
      (record spawn { create_thread = λ p w. (false, w) })
      (prog_start (pos 7 ∷ pos 5 ∷ []) ∷ [])
      no_progs
      nothing
      (world 0 [])
    ≡ none
unfolding serve_all get_prog_by_id add_prog handle_at delete_prog_by_id
no_thread-dangles = refl

serve_all-Keeps_example :
    Keeps (serve_all spawn requests no_progs nothing (world 0 []))
    ⊎ ServeFails spawn requests no_progs nothing (world 0 [])
serve_all-Keeps_example =
    serve_all-Keeps spawn spawn_laws requests no_progs nothing (world 0 []) ([], nothing-Represents)

add_prog_by_id-Starts_example :
    Succeeds (Starts spawn [] (pos 7)) (add_prog_by_id spawn (pos 7) no_progs nothing (world 0 []))
add_prog_by_id-Starts_example =
    add_prog_by_id-Starts spawn spawn_laws [] (pos 7) no_progs nothing (world 0 [])
      nothing-Represents

-- A list of one program, 7
abbrev prog : Prog ℤ
prog = record { id = pos 7; reg = regulator; save = pos 1; next = none }

abbrev one_prog : Heap ℤ
one_prog = store no_progs 20 (some prog)

abbrev one : ProgList
one = record { top = some 20; last = some 20; length = 1 }

one-Represents : Represents one_prog one ((20, prog) ∷ [])
one-Represents = record {
  top = refl;
  last = refl;
  counted = refl;
  bounded = omega arith;
  chain = (refl, tt);
  distinct = (tt, tt);
}

stop_progs_lem_example :
    Succeeds
      (λ r.
        Represents r.0 r.1 []
        × (r.2 ≡ shut_all spawn (pos 8 ∷ pos 7 ∷ []) ((20, prog) ∷ []) (world 0 [])))
      (stop_progs spawn (pos 8 ∷ pos 7 ∷ []) one_prog one (world 0 []))
stop_progs_lem_example =
    stop_progs_lem spawn (pos 8 ∷ pos 7 ∷ []) one_prog one ((20, prog) ∷ []) (world 0 [])
      one-Represents
