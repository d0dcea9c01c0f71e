-- ===== src/Timef.antt =====
-- lib/timef.h and lib/timef.c: `struct timespec`, its macros, and the on-delay timer `Ton_ts`.
-- The seconds are integers without the bounds of `time_t`. `clock_gettime` is an argument of the
-- functions that call it: it returns the time and the world after the call.
pub mod Arithmetic
pub mod Timer
mod Tests
use regonf.Prelude.{ℕ, ◌+◌, ◌*◌, ◌≡◌, Bool, true, false, ◌&&◌, if◌then◌else◌}
use regonf.Prelude.Int.{ℤ, pos, negsuc, ◌+ℤ◌, ◌-ℤ◌, ◌≤ℤ◌, ◌<ℤ◌, ltb_ℤ, leb_ℤ, eq_ℤ}

pub record Timespec : Type 0 where
  pub tv_sec : ℤ
  pub tv_nsec : ℤ

abbrev pub timespec : ℤ → ℤ → Timespec
timespec s n = record { tv_sec = s; tv_nsec = n }

-- `timespeccmp(a, b, CMP)`; the operator is an argument, as in the macro
unfoldable pub timespeccmp : (ℤ → ℤ → Bool) → Timespec → Timespec → Bool
timespeccmp cmp a b =
    if eq_ℤ a.tv_sec b.tv_sec then cmp a.tv_nsec b.tv_nsec else cmp a.tv_sec b.tv_sec

-- C's `>` between integers
abbrev pub gt_ℤ : ℤ → ℤ → Bool
gt_ℤ a b = ltb_ℤ b a

abbrev pub giga : ℤ
giga = pos 1_000_000_000

-- The carry of `timespecadd`, after the fields have been added
carry : ℤ → ℤ → Timespec
carry s n = if leb_ℤ giga n then timespec (s +ℤ pos 1) (n -ℤ giga) else timespec s n

unfoldable pub timespecadd : Timespec → Timespec → Timespec
unfolding carry
timespecadd a b = carry (a.tv_sec +ℤ b.tv_sec) (a.tv_nsec +ℤ b.tv_nsec)

-- The borrow of `timespecsub`
borrow : ℤ → ℤ → Timespec
borrow s n = if ltb_ℤ n (pos 0) then timespec (s -ℤ pos 1) (n +ℤ giga) else timespec s n

unfoldable pub timespecsub : Timespec → Timespec → Timespec
unfolding borrow
timespecsub a b = borrow (a.tv_sec -ℤ b.tv_sec) (a.tv_nsec -ℤ b.tv_nsec)

-- `clock_gettime(LIB_CLOCK, &now)`
abbrev pub Clock : Type 0 → Type 0
Clock W = W → Timespec × W

-- `ready` is only ever 0 or 1
pub record TonTs : Type 0 where
  pub start : Timespec
  pub ready : Bool

module _ {W : Type 0} (clock : Clock W) where
  -- The first `if` of `ton_ts`: an idle timer is started
  ton_ts_start : TonTs → W → TonTs × W
  ton_ts_start t w =
      if t.ready then (t, w) else (record { start = (clock w).0; ready = true }, (clock w).1)

  -- `ton_ts`: true when more than the interval has passed since the timer was started; the timer
  -- is then idle again
  unfoldable pub ton_ts : Timespec → TonTs → W → Bool × TonTs × W
  unfolding ton_ts_start
  ton_ts interval t w =
      let (s, w1) = ton_ts_start t w in
      let (now, w2) = clock w1 in
      if timespeccmp gt_ℤ (timespecsub now s.start) interval
      then (true, record s { ready = false }, w2)
      else (false, s, w2)

  pub ton_ts_touch : TonTs → W → TonTs × W
  ton_ts_touch t w = let (now, w1) = clock w in (record { start = now; ready = true }, w1)

  pub get_time_rest_ts : Timespec → Timespec → W → Timespec × W
  get_time_rest_ts t_interval t_start w =
      let (now, w1) = clock w in (timespecsub (timespecadd t_interval t_start) now, w1)

  pub get_time_rest_tmr : Timespec → TonTs → W → Timespec × W
  unfolding get_time_rest_ts
  get_time_rest_tmr interval tmr w =
      if tmr.ready
      then get_time_rest_ts interval tmr.start w
      else (timespec (negsuc 0) (negsuc 0), w)

unfoldable pub ton_ts_reset : TonTs → TonTs
ton_ts_reset t = record t { ready = false }

unfoldable pub time_has_passed : (interval start now : Timespec) → Bool
time_has_passed interval start now = timespeccmp ltb_ℤ interval (timespecsub now start)

-- `todHasCome`; the results are TARGET_AHEAD, TARGET_OK and TARGET_BEHIND
pub data Target : Type 0 where
  target_ahead target_ok target_behind : Target

pub tod_has_come : (target current : ℤ) → Target
tod_has_come target current =
    if ltb_ℤ current target
    then target_ahead
    else if ltb_ℤ (target +ℤ pos 3) current
    then target_behind
    else target_ok
