-- ===== src/Timef/Arithmetic.antt =====
-- The macros of lib/timef.h as arithmetic on nanoseconds.
use regonf.Prelude.{ℕ, ◌+◌, ◌*◌, ◌<◌, ◌≡◌, ◌↔◌, true, arith}
use regonf.Prelude.Int.{
  pos, ◌≤ℤ◌, ◌<ℤ◌, ltb_ℤ, pos_part, neg_part, +ℤ_parts, -ℤ_parts, eq_of_parts, ◌+ℤ◌, ◌-ℤ◌,
}
use regonf.Timef.{Timespec, timespec, timespecadd, timespecsub, timespeccmp, giga}

-- The nanoseconds are in 0 .. 999999999.
pub record IsNormal (t : Timespec) : Type 0 where
  pub nonneg : pos 0 ≤ℤ t.tv_nsec
  pub below : t.tv_nsec <ℤ giga

-- A time is the difference of two counts of nanoseconds.
abbrev pub nanos_pos : Timespec → ℕ
nanos_pos t = pos_part t.tv_sec * 1_000_000_000 + pos_part t.tv_nsec

abbrev pub nanos_neg : Timespec → ℕ
nanos_neg t = neg_part t.tv_sec * 1_000_000_000 + neg_part t.tv_nsec

-- `a` stands for fewer nanoseconds than `b`.
abbrev pub Before : Timespec → Timespec → Type 0
Before a b = nanos_pos a + nanos_neg b < nanos_pos b + nanos_neg a

-- `c` stands for the nanoseconds of `a` and `b` together.
abbrev pub IsSum : Timespec → Timespec → Timespec → Type 0
IsSum a b c = nanos_pos c + nanos_neg a + nanos_neg b ≡ nanos_neg c + nanos_pos a + nanos_pos b

-- A normal time is given by its count of nanoseconds.
pub normal_unique :
    {a b : Timespec}
    → IsNormal a
    → IsNormal b
    → nanos_pos a + nanos_neg b ≡ nanos_pos b + nanos_neg a
    → a ≡ b
normal_unique {a} {b} na nb e =
    let s : a.tv_sec ≡ b.tv_sec = eq_of_parts a.tv_sec b.tv_sec (omega arith) in
    let n : a.tv_nsec ≡ b.tv_nsec = eq_of_parts a.tv_nsec b.tv_nsec (omega arith) in
    λ i. timespec (s i) (n i)

-- The sum of two normal times is normal and has the nanoseconds of both.
pub timespecadd_lem :
    {a b : Timespec}
    → IsNormal a
    → IsNormal b
    → IsNormal (timespecadd a b) × IsSum a b (timespecadd a b)
unfolding timespecadd
timespecadd_lem {a} {b} na nb = ground (
  arith,
  +ℤ_parts a.tv_sec b.tv_sec,
  +ℤ_parts a.tv_nsec b.tv_nsec,
  +ℤ_parts (a.tv_sec +ℤ b.tv_sec) (pos 1),
  -ℤ_parts (a.tv_nsec +ℤ b.tv_nsec) giga,
)

-- The difference of two normal times is normal, and with the second time it adds up to the first.
pub timespecsub_lem :
    {a b : Timespec}
    → IsNormal a
    → IsNormal b
    → IsNormal (timespecsub a b) × IsSum (timespecsub a b) b a
unfolding timespecsub
timespecsub_lem {a} {b} na nb = ground (
  arith,
  -ℤ_parts a.tv_sec b.tv_sec,
  -ℤ_parts a.tv_nsec b.tv_nsec,
  -ℤ_parts (a.tv_sec -ℤ b.tv_sec) (pos 1),
  +ℤ_parts (a.tv_nsec -ℤ b.tv_nsec) giga,
)

-- On normal times `timespeccmp` with `<` compares the counts of nanoseconds.
pub timespeccmp-lt :
    {a b : Timespec} → IsNormal a → IsNormal b → (timespeccmp ltb_ℤ a b ≡ true) ↔ Before a b
unfolding timespeccmp
timespeccmp-lt na nb = ground arith

-- Taking away what was added gives the time back.
pub timespecsub-timespecadd :
    {a b : Timespec} → IsNormal a → IsNormal b → timespecsub (timespecadd a b) b ≡ a
timespecsub-timespecadd na nb =
    let (ns, es) = timespecadd_lem na nb in
    let (nd, ed) = timespecsub_lem ns nb in normal_unique nd na (omega arith)
