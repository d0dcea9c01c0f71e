-- ===== src/ProgList.antt =====
-- main.h, util.c and db.c: the linked list of programs, on an explicit heap. An operation returns
-- `none` where the source follows a pointer that is null or freed, or where the fuel is used up.
-- The server thread alone changes the list. Threads and databases are left out.
pub mod Add
pub mod Chain
pub mod Delete
pub mod Free
pub mod Lookup
mod Tests
pub mod Unlink
use regonf.Prelude.{
  ℕ, zero, suc, ◌+◌, ◌-◌, ◌*◌, ◌%◌, ◌^◌, Bool, true, false, Option, none, some, ◌==◌, leb,
  if◌then◌else◌,
}
use regonf.Prelude.Int.{ℤ, eq_ℤ}
use regonf.Regonfhc.{RegOnfHc}

-- The fields of a program that the list and the server use; `error_code` is in `reg.secure_out`
pub record Prog (F : Type 0) : Type 0 where
  pub id : ℤ
  pub reg : RegOnfHc F
  pub save : ℤ
  pub next : Option ℕ

pub record ProgList : Type 0 where
  pub top : Option ℕ
  pub last : Option ℕ
  pub length : ℕ

-- The programs in memory, by their addresses
abbrev pub Heap : Type 0 → Type 0
Heap F = ℕ → Option (Prog F)

-- A pointer compared with a pointer
abbrev pub is_same : Option ℕ → Option ℕ → Bool
is_same none none = true
is_same (some a) (some b) = a == b
is_same _ _ = false

module _ {F : Type 0} where
  abbrev pub store : Heap F → ℕ → Option (Prog F) → Heap F
  store h a p b = if b == a then p else h b

  -- `p->next = …`
  unfoldable pub set_next : Heap F → Option ℕ → Option ℕ → Option (Heap F)
  set_next h none next = none
  set_next h (some a) next = elim (h a) [
    | none ↦ none
    | some p ↦ some (store h a (some (record p { next = next })))
  ]

  -- The loop of `getProgById`
  unfoldable pub get_loop : (fuel : ℕ) → ℤ → Heap F → Option ℕ → Option (Option ℕ)
  get_loop fuel id h none = some none
  get_loop zero id h (some a) = none
  get_loop (suc fuel) id h (some a) = elim (h a) [
    | none ↦ none
    | some p ↦ let rest = get_loop fuel id h p.next in if eq_ℤ p.id id then some (some a) else rest
  ]

  unfoldable pub get_prog_by_id : ℤ → Heap F → ProgList → Option (Option ℕ)
  unfolding get_loop
  get_prog_by_id id h l = get_loop l.length id h l.top

  -- `addProg` of the program at an address. INT_MAX is 2 ^ 31 - 1.
  unfoldable pub add_prog : ℕ → Heap F → ProgList → Option (Bool × Heap F × ProgList)
  unfolding set_next
  add_prog item h l =
      let l' = record l { last = some item; length = l.length + 1 } in
      if leb (2 ^ 31 - 1) l.length then some (false, h, l) else elim l.top [
        | none ↦ some (true, h, record l' { top = some item })
        | some top ↦ elim (set_next h l.last (some item)) [
          | none ↦ none
          | some h' ↦ some (true, h', l')
        ]
      ]

  -- `deleteProgById` from the node that it has found on: unlink it, correct `last` and `length`,
  -- free it
  unfoldable pub unlink :
      (prev : Option ℕ) (curr : ℕ) (p : Prog F) → Heap F → ProgList → Option (Heap F × ProgList)
  unfolding set_next
  unlink prev curr p h l =
      let last = if is_same (some curr) l.last then prev else l.last in
      let l' = record l { last = last; length = (l.length + (2 ^ 64 - 1)) % 2 ^ 64 } in
      elim prev [
        | none ↦ some (store h curr none, record l' { top = p.next })
        | some q ↦ elim (set_next h (some q) p.next) [
          | none ↦ none
          | some h' ↦ some (store h' curr none, l')
        ]
      ]

  -- The result when the node has been unlinked
  abbrev pub deleted : Option (Heap F × ProgList) → Option (Bool × Heap F × ProgList)
  deleted none = none
  deleted (some (h, l)) = some (true, h, l)

  unfoldable pub delete_loop :
      (fuel : ℕ)
      → ℤ
      → (prev curr : Option ℕ) → Heap F
      → ProgList
      → Option (Bool × Heap F × ProgList)
  unfolding unlink
  delete_loop fuel id prev none h l = some (false, h, l)
  delete_loop zero id prev (some c) h l = none
  delete_loop (suc fuel) id prev (some c) h l = elim (h c) [
    | none ↦ none
    | some p ↦
        let rest = delete_loop fuel id (some c) p.next h l in
        if eq_ℤ p.id id then deleted (unlink prev c p h l) else rest
  ]

  unfoldable pub delete_prog_by_id : ℤ → Heap F → ProgList → Option (Bool × Heap F × ProgList)
  unfolding delete_loop
  delete_prog_by_id id h l = delete_loop l.length id none l.top h l
