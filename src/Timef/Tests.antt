-- ===== src/Timef/Tests.antt =====
-- lib/timef.c at concrete times, and the theorems at inputs that meet their hypotheses.
use regonf.Prelude.{ℕ, ◌+◌, ◌≡◌, refl, ◌↔◌, true, not, arith}
use regonf.Prelude.Int.{pos, negsuc, ◌+ℤ◌, ◌-ℤ◌}
use regonf.Timef.{
  Timespec, timespec, timespecadd, timespecsub, Clock, TonTs, ton_ts, tod_has_come, target_ahead,
  target_ok, target_behind,
}
use regonf.Timef.Timer.{Elapsed, ton_ts_fires}

abbrev early : Timespec
early = timespec (pos 10) (pos 900_000_000)

abbrev late : Timespec
late = timespec (pos 12) (pos 200_000_000)

sub_borrows : timespecsub late early ≡ timespec (pos 1) (pos 300_000_000)
unfolding timespecsub ◌-ℤ◌ ◌+ℤ◌
sub_borrows = refl

sub_negative : timespecsub early late ≡ timespec (negsuc 1) (pos 700_000_000)
unfolding timespecsub ◌-ℤ◌ ◌+ℤ◌
sub_negative = refl

add_carries : timespecadd early late ≡ timespec (pos 23) (pos 100_000_000)
unfolding timespecadd ◌+ℤ◌ ◌-ℤ◌
add_carries = refl

-- The three answers of `todHasCome`.
tod_answers :
    (tod_has_come (pos 100) (pos 99) ≡ target_ahead)
    × (tod_has_come (pos 100) (pos 103) ≡ target_ok)
    × (tod_has_come (pos 100) (pos 104) ≡ target_behind)
unfolding tod_has_come ◌+ℤ◌
tod_answers = (refl, refl, refl)

-- A clock that shows the world's number as seconds, and ticks when it is read.
abbrev ticking : Clock ℕ
ticking w = (timespec (pos w) (pos 0), w + 1)

abbrev started : TonTs
started = record { start = early; ready = true }

ton_ts_fires_example :
    let (fired, t', _) = ton_ts ticking early started 25 in
    ((fired ≡ true) ↔ Elapsed early early (timespec (pos 25) (pos 0)))
    × (t'.start ≡ early)
    × (t'.ready ≡ not fired)
ton_ts_fires_example =
    ton_ts_fires ticking early started 25 refl (omega arith) (omega arith) (omega arith)
