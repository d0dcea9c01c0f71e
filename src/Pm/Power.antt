-- ===== src/Pm/Power.antt =====
-- lib/pm.c: a call of `pmctl` leaves as many pins busy as the duty cycle asks for.
use regonf.Prelude.{
  if_cases, ℕ, zero, suc, ◌+◌, ◌-◌, ◌≤◌, ◌<◌, ◌≡◌, ap, ◌∙◌, Option, none, some, arith, length, ltb,
}
use regonf.Prelude.Int.{ℤ, pos, negsuc, ltb_ℤ}
use regonf.Float.{FloatArith}
use regonf.Timef.{Timespec, Clock, gt_ℤ}
use regonf.Pm.{
  Pm, pm_busy, pm_idle, is_idle, is_busy, long_idle, long_busy, update_at, switch_to, initialize,
  monitor, swap, normalize, turn_pin_on, turn_pin_off, repeat, power, pin_num, pmctl, pmgetbptn,
  pmgetbptf,
}
use regonf.Pm.Best.{PicksPin, pmgetbptn_lem, pmgetbptf_lem}
use regonf.Pm.Count.{
  busy_count, IsCounted, busy_count-All, busy_count_none, busy_count-update_at, length-update_at,
  initialize_lem, monitor-Keeps, swap-Keeps,
}

-- The group has `m` pins, of which `n` are busy, and its counter says so.
abbrev pub HasBusy : ℕ → ℕ → Pm → Type 0
HasBusy m n d = (length d.items ≡ m) × (busy_count d.items ≡ n) × (d.busy_pin_num ≡ n)

turn_pin_on-HasBusy :
    (now : Timespec) (m n : ℕ) (d : Pm)
    → HasBusy m n d
    → n < m
    → HasBusy m (n + 1) (turn_pin_on now d)
unfolding turn_pin_on
turn_pin_on-HasBusy now m n d h le = by_pin (pmgetbptn d) (pmgetbptn_lem d)
  where
    by_pin :
        (o : Option ℕ)
        → PicksPin (long_idle d) is_idle gt_ℤ d.items o
        → HasBusy m (n + 1) (elim o as (λ _. Pm) [
          | none ↦ d
          | some i ↦ record d {
            items = update_at i (switch_to pm_busy now) d.items;
            busy_pin_num = d.busy_pin_num + 1;
          }
        ])
    by_pin none all = absurd (omega (arith, busy_count-All d.items all, h.0, h.1))
    by_pin (some i) (x, found, idle, _) =
        let f = switch_to pm_busy now in
        (
          length-update_at d.items i f ∙ h.0,
          ground (arith, busy_count-update_at d.items i f x found, h.1),
          ap (λ k. k + 1) h.2,
        )

turn_pin_off-HasBusy :
    (now : Timespec) (m n : ℕ) (d : Pm) → HasBusy m (n + 1) d → HasBusy m n (turn_pin_off now d)
unfolding turn_pin_off
turn_pin_off-HasBusy now m n d h = by_pin (pmgetbptf d) (pmgetbptf_lem d)
  where
    by_pin :
        (o : Option ℕ)
        → PicksPin (long_busy d) is_busy ltb_ℤ d.items o
        → HasBusy m n (elim o as (λ _. Pm) [
          | none ↦ d
          | some i ↦ record d {
            items = update_at i (switch_to pm_idle now) d.items;
            busy_pin_num = d.busy_pin_num - 1;
          }
        ])
    by_pin none all = absurd (omega (arith, busy_count_none d.items all, h.1))
    by_pin (some i) (x, found, busy, _) =
        let f = switch_to pm_idle now in
        (
          length-update_at d.items i f ∙ h.0,
          ground (arith, busy_count-update_at d.items i f x found, h.1),
          omega (arith, h.2),
        )

repeat-turn_pin_on :
    (k : ℕ) (now : Timespec) (m n : ℕ) (d : Pm)
    → HasBusy m n d
    → n + k ≤ m
    → HasBusy m (n + k) (repeat k (turn_pin_on now) d)
repeat-turn_pin_on zero now m n d h le = (h.0, omega (arith, h.1), omega (arith, h.2))
repeat-turn_pin_on (suc k) now m n d h le =
    let step = turn_pin_on-HasBusy now m n d h (omega arith) in
    let rest = repeat-turn_pin_on k now m (n + 1) (turn_pin_on now d) step (omega arith) in
    (rest.0, omega (arith, rest.1), omega (arith, rest.2))

repeat-turn_pin_off :
    (k : ℕ) (now : Timespec) (m n : ℕ) (d : Pm)
    → HasBusy m (n + k) d
    → HasBusy m n (repeat k (turn_pin_off now) d)
repeat-turn_pin_off zero now m n d h = (h.0, omega (arith, h.1), omega (arith, h.2))
repeat-turn_pin_off (suc k) now m n d h =
    repeat-turn_pin_off k now m n (turn_pin_off now d)
      (turn_pin_off-HasBusy now m (n + k) d (h.0, omega (arith, h.1), omega (arith, h.2)))

power-HasBusy :
    (now : Timespec) (m b n : ℕ) (d : Pm) → HasBusy m b d → n ≤ m → HasBusy m n (power now n d)
unfolding power
power-HasBusy now m b n d h le =
    let p = HasBusy m n in
    if_cases p (ltb d.busy_pin_num n) _ _
      (λ more.
        let r = repeat-turn_pin_on (n - d.busy_pin_num) now m b d h (ground (arith, h.2)) in
        (r.0, ground (arith, r.1, h.2), ground (arith, r.2, h.2)))
      (λ not_more.
        if_cases p (ltb n d.busy_pin_num) _ _
          (λ less.
            repeat-turn_pin_off (d.busy_pin_num - n) now m n d
              (h.0, ground (arith, h.1, h.2), ground (arith, h.2)))
          (λ not_less. (h.0, ground (arith, h.1, h.2), ground (arith, h.2))))

normalize_le : (duty_cycle : ℤ) → normalize duty_cycle ≤ 100
unfolding normalize
normalize_le (pos n) = ground arith
normalize_le (negsuc n) = omega arith

module _ {F W : Type 0} ⦃arith_f : FloatArith F⦄ (clock : Clock W) (to_int : F → ℕ) where
  -- After a call of `pmctl` on a group of pins the number of busy pins is what the arithmetic on floats
  -- makes of the duty cycle, which is brought into 0 .. 100 first, provided that this is not more than
  -- the number of pins, and that the counter of a group that has been set up was right. The counter is
  -- right again, and the call neither adds nor removes a pin.
  pub pmctl-HasBusy :
      (d : Pm) (duty_cycle : ℤ) (w : W)
      → IsCounted d
      → 0 < length d.items
      → pin_num clock to_int (normalize duty_cycle) (length d.items) ≤ length d.items
      → HasBusy
          (length d.items)
          (pin_num clock to_int (normalize duty_cycle) (length d.items))
          (pmctl clock to_int d duty_cycle w).0
  unfolding pmctl
  pmctl-HasBusy d duty_cycle w h some_pin enough =
      let (now, w1) = clock w in
      let m = length d.items in
      let n = pin_num clock to_int (normalize duty_cycle) m in
      let d1 = initialize now d in
      let (c1, l1, _) = initialize_lem now d h in
      let (c2, l2, b2) = monitor-Keeps now d1 in
      let (c3, l3, b3) = swap-Keeps now (monitor now d1) in
      let ready =
        power-HasBusy now m (busy_count d1.items) n (swap now (monitor now d1))
          (l3 ∙ l2 ∙ l1, c3 ∙ c2, b3 ∙ b2 ∙ c1) enough in
      ground (arith, ready)
