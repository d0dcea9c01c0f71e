-- ===== src/Timef/Timer.antt =====
-- The on-delay timer of lib/timef.c: when it fires, and what it leaves behind.
use regonf.Prelude.{◌+◌, ◌<◌, ◌≡◌, refl, ◌↔◌, true, false, not, arith}
use regonf.Prelude.Int.{ltb_ℤ}
use regonf.Timef.{Timespec, timespecsub, timespeccmp, gt_ℤ, Clock, TonTs, ton_ts, time_has_passed}
use regonf.Timef.Arithmetic.{IsNormal, nanos_pos, nanos_neg, timespecsub_lem, timespeccmp-lt}

timespeccmp-gt : (a b : Timespec) → timespeccmp gt_ℤ a b ≡ timespeccmp ltb_ℤ b a
unfolding timespeccmp
timespeccmp-gt a b = ground arith

-- More than `interval` nanoseconds lie between `start` and `now`.
abbrev pub Elapsed : (interval start now : Timespec) → Type 0
Elapsed interval start now =
    nanos_pos interval + nanos_pos start + nanos_neg now
    < nanos_neg interval + nanos_neg start + nanos_pos now

Elapsed-iff :
    {interval start now : Timespec}
    → IsNormal interval
    → IsNormal start
    → IsNormal now
    → (timespeccmp ltb_ℤ interval (timespecsub now start) ≡ true) ↔ Elapsed interval start now
Elapsed-iff ni ns nn =
    let (nd, sum) = timespecsub_lem nn ns in
    let lt = timespeccmp-lt ni nd in (λ h. omega (arith, lt.0 h), λ h. lt.1 (omega arith))

-- For normal times, `timeHasPassed` is true exactly when more than the interval has elapsed.
pub time_has_passed_iff :
    {interval start now : Timespec}
    → IsNormal interval
    → IsNormal start
    → IsNormal now
    → (time_has_passed interval start now ≡ true) ↔ Elapsed interval start now
unfolding time_has_passed
time_has_passed_iff ni ns nn = Elapsed-iff ni ns nn

module _ {W : Type 0} (clock : Clock W) where
  -- One poll of a running timer reads the clock once and says whether the interval has passed.
  pub ton_ts_running :
      (interval : Timespec) (t : TonTs) (w : W)
      → t.ready ≡ true
      → let fired = time_has_passed interval t.start (clock w).0 in
        ton_ts clock interval t w ≡ (fired, record t { ready = not fired }, (clock w).1)
  unfolding ton_ts time_has_passed
  ton_ts_running interval t w h =
      let now = (clock w).0 in ground (arith, timespeccmp-gt (timespecsub now t.start) interval)

  -- A poll of an idle timer is a poll of one that was started by a first reading of the clock.
  pub ton_ts_idle :
      (interval : Timespec) (t : TonTs) (w : W)
      → t.ready ≡ false
      → ton_ts clock interval t w
        ≡ ton_ts clock interval (record { start = (clock w).0; ready = true }) (clock w).1
  unfolding ton_ts
  ton_ts_idle interval t w h = ground arith

  -- A poll of a running timer, at normal times, fires exactly when more than the interval has
  -- elapsed since the timer was started; the start is kept, and the timer runs on exactly when it
  -- has not fired.
  pub ton_ts_fires :
      (interval : Timespec) (t : TonTs) (w : W)
      → t.ready ≡ true
      → IsNormal interval
      → IsNormal t.start
      → IsNormal (clock w).0
      → let (fired, t', _) = ton_ts clock interval t w in
        ((fired ≡ true) ↔ Elapsed interval t.start (clock w).0)
        × (t'.start ≡ t.start)
        × (t'.ready ≡ not fired)
  ton_ts_fires interval t w h ni ns nn =
      rw (ton_ts_running interval t w h) (time_has_passed_iff ni ns nn, refl, refl)
