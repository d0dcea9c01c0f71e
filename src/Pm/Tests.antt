-- ===== src/Pm/Tests.antt =====
-- lib/pm.c: groups of pins at concrete inputs.
use regonf.Prelude.{ℕ, ◌*◌, ◌/◌, ◌≡◌, refl, false, List, [], ◌∷◌, arith, map}
use regonf.Prelude.Int.{pos, ◌+ℤ◌, ◌-ℤ◌}
use regonf.Bench.{world, bench_link, epoch}
use regonf.Float.{FloatArith}
use regonf.Timef.{timespec, gt_ℤ, timespecadd, timespecsub, timespeccmp}
use regonf.Pm.{
  pick_loop, PmItem, Pm, PmOutput, pm_busy, pm_idle, is_idle, long_idle, normalize, pin_num, pmctl,
  pmgetbptn,
}
use regonf.Pm.Best.{PicksPin, pmgetbptn_lem}
use regonf.Pm.Power.{HasBusy, pmctl-HasBusy}

-- Hundredths in place of floats
instance abbrev hundredths : FloatArith ℕ
hundredths = record {
  one_f = 100;
  mul = λ a b. a * b / 100;
  div = λ a b. a * 100 / b;
  of_nat = λ n. n * 100;
}

abbrev whole : ℕ → ℕ
whole v = v / 100

abbrev pin : PmItem
pin = record {
  busy_time_total = epoch;
  state_time_curr = epoch;
  state_time_start = epoch;
  output = pm_idle;
}

abbrev group : Pm
group = record {
  items = pin ∷ pin ∷ pin ∷ pin ∷ [];
  initialized = false;
  busy_pin_num = 0;
  swap_delay = timespec (pos 100) (pos 0);
  swap_time_start = epoch;
  busy_min = timespec (pos 5) (pos 0);
  idle_min = timespec (pos 5) (pos 0);
}

abbrev outputs : Pm → List PmOutput
outputs d = map (λ x. x.output) d.items

-- Half of the power: the first two of four pins; then a quarter: of the two that are busy for equally
-- long the first one is switched off.
half :
    outputs (pmctl bench_link.clock whole group (pos 50) (world 0 [])).0
    ≡ pm_busy ∷ pm_busy ∷ pm_idle ∷ pm_idle ∷ []
unfolding pmctl timespecsub timespecadd timespeccmp ◌+ℤ◌ ◌-ℤ◌ pick_loop
half = refl

quarter :
    let (d, w) = pmctl bench_link.clock whole group (pos 50) (world 0 []) in
    outputs (pmctl bench_link.clock whole d (pos 25) w).0
    ≡ pm_idle ∷ pm_busy ∷ pm_idle ∷ pm_idle ∷ []
unfolding pmctl timespecsub timespecadd timespeccmp ◌+ℤ◌ ◌-ℤ◌ pick_loop
quarter = refl

pmctl-HasBusy_example :
    HasBusy 4
      (pin_num bench_link.clock whole (normalize (pos 50)) 4)
      (pmctl bench_link.clock whole group (pos 50) (world 0 [])).0
unfolding normalize
pmctl-HasBusy_example =
    pmctl-HasBusy bench_link.clock whole group (pos 50) (world 0 []) (λ e. cc) (omega arith)
      (omega arith)

pmgetbptn_lem_example : PicksPin (long_idle group) is_idle gt_ℤ group.items (pmgetbptn group)
pmgetbptn_lem_example = pmgetbptn_lem group
