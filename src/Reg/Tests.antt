-- ===== src/Reg/Tests.antt =====
-- lib/reg.c at concrete inputs.
use regonf.Prelude.{◌≡◌, refl, true, []}
use regonf.Prelude.Int.{ℤ, ◌-ℤ◌, ◌+ℤ◌}
use regonf.Bench.{world, bench_link, regulator, epoch}
use regonf.Timef.{ton_ts, timespecsub, timespeccmp}
use regonf.Reg.{RegSecure, secure_need}

-- A client that has been silent since second 0, with the second bit of the error word on
abbrev silent : RegSecure ℤ
silent = record (regulator.secure_out) {
  tmr = record { start = epoch; ready = true };
  error_code = 2;
}

-- After a silence of more than the timeout the safe duty cycles are needed.
abandoned : (secure_need bench_link.clock silent (world 1001 [])).0 ≡ true
unfolding secure_need ton_ts timespecsub timespeccmp ◌-ℤ◌ ◌+ℤ◌
abandoned = refl
