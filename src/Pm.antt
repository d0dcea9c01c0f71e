-- ===== src/Pm.antt =====
-- lib/pm.h and lib/pm.c: parallel modulation. A group of pins gives a share of the full power by the
-- number of pins that are on, and the pins take turns so that all are on for equally long.
-- `busy_pin_num` counts pins and is a natural number; the cast of a float to it is a parameter.
pub mod Best
pub mod Count
pub mod Power
mod Tests
use regonf.Prelude.{
  ℕ, zero, suc, ◌+◌, ◌-◌, Bool, true, false, not, ◌&&◌, Option, none, some, List, [], ◌∷◌, ◌==◌,
  map, ltb, length, get_elem?, if◌then◌else◌,
}
use regonf.Prelude.Int.{ℤ, pos, negsuc, ltb_ℤ}
use regonf.Float.{FloatArith}
use regonf.Timef.{Timespec, timespec, timespeccmp, timespecadd, timespecsub, gt_ℤ, Clock}

-- `output`: PM_BUSY is the level LOW of the pin, and PM_IDLE is HIGH
pub data PmOutput : Type 0 where
  pm_busy pm_idle : PmOutput

pub record PmItem : Type 0 where
  pub busy_time_total : Timespec
  pub state_time_curr : Timespec
  pub state_time_start : Timespec
  pub output : PmOutput

-- `items` is the array `item` with its length.
pub record Pm : Type 0 where
  pub items : List PmItem
  pub initialized : Bool
  pub busy_pin_num : ℕ
  pub swap_delay : Timespec
  pub swap_time_start : Timespec
  pub busy_min : Timespec
  pub idle_min : Timespec

abbrev pub output_busy : PmOutput → Bool
output_busy pm_busy = true
output_busy pm_idle = false

abbrev pub is_busy : PmItem → Bool
is_busy x = output_busy x.output

abbrev pub is_idle : PmItem → Bool
is_idle x = not (is_busy x)

abbrev zero_time : Timespec
zero_time = timespec (pos 0) (pos 0)

-- The loop that `pmgetbtpimin`, `pmgetbtpbmax`, `pmgetbptn` and `pmgetbptf` share: `ok` tells which
-- items are looked at, `key` what is compared, and `cmp` when the time so far is replaced. The state
-- is `none` until `found`, and then the index and the time.
module _ (ok : PmItem → Bool) (key : PmItem → Timespec) (cmp : ℤ → ℤ → Bool) where
  abbrev pub pick_first : PmItem → ℕ → Option (ℕ × Timespec) → Option (ℕ × Timespec)
  pick_first x i none = if ok x then some (i, key x) else none
  pick_first x i (some best) = some best

  abbrev pub pick_better : PmItem → ℕ → Option (ℕ × Timespec) → Option (ℕ × Timespec)
  pick_better x i none = none
  pick_better x i (some (id, time)) =
      if ok x && timespeccmp cmp time (key x) then some (i, key x) else some (id, time)

  unfoldable pub pick_loop : List PmItem → ℕ → Option (ℕ × Timespec) → Option (ℕ × Timespec)
  pick_loop [] i best = best
  pick_loop (x ∷ xs) i best = pick_loop xs (i + 1) (pick_better x i (pick_first x i best))

  abbrev pub pick : List PmItem → Option ℕ
  pick items = elim (pick_loop items 0 none) as (λ _. Option ℕ) [
    | none ↦ none
    | some best ↦ some best.0
  ]

-- `pmgetbtpimin` and `pmgetbtpbmax`; -1 is `none`
unfoldable pub pmgetbtpimin : Pm → Option ℕ
pmgetbtpimin d = pick is_idle (λ x. x.busy_time_total) gt_ℤ d.items

unfoldable pub pmgetbtpbmax : Pm → Option ℕ
pmgetbtpbmax d = pick is_busy (λ x. x.busy_time_total) ltb_ℤ d.items

abbrev pub long_idle : Pm → PmItem → Bool
long_idle d x = is_idle x && timespeccmp gt_ℤ x.state_time_curr d.idle_min

abbrev pub long_busy : Pm → PmItem → Bool
long_busy d x = is_busy x && timespeccmp gt_ℤ x.state_time_curr d.busy_min

abbrev pub or_pick : Option ℕ → Option ℕ → Option ℕ
or_pick none other = other
or_pick (some i) other = some i

unfoldable pub pmgetbptn : Pm → Option ℕ
pmgetbptn d =
    or_pick (pick (long_idle d) (λ x. x.busy_time_total) gt_ℤ d.items)
      (pick is_idle (λ x. x.state_time_curr) ltb_ℤ d.items)

unfoldable pub pmgetbptf : Pm → Option ℕ
pmgetbptf d =
    or_pick (pick (long_busy d) (λ x. x.busy_time_total) ltb_ℤ d.items)
      (pick is_busy (λ x. x.state_time_curr) ltb_ℤ d.items)

-- `d->item[i]` changed in place
unfoldable pub update_at : ℕ → (PmItem → PmItem) → List PmItem → List PmItem
update_at i f [] = []
update_at zero f (x ∷ xs) = f x ∷ xs
update_at (suc i) f (x ∷ xs) = x ∷ update_at i f xs

-- `d->item[i].output = …`, with the time in the state from now on
abbrev pub switch_to : PmOutput → Timespec → PmItem → PmItem
switch_to output now x = record x {
  output = output;
  state_time_curr = zero_time;
  state_time_start = now;
}

-- The first call
abbrev pub clear_item : Timespec → PmItem → PmItem
clear_item now x = record {
  busy_time_total = zero_time;
  state_time_curr = zero_time;
  state_time_start = now;
  output = pm_idle;
}

unfoldable pub initialize : Timespec → Pm → Pm
initialize now d =
    if not d.initialized
    then record d {
      items = map (clear_item now) d.items;
      busy_pin_num = 0;
      swap_time_start = now;
      initialized = true;
    }
    else d

-- The time monitor
abbrev pub monitor_item : Timespec → PmItem → PmItem
monitor_item now x =
    let time_new = timespecsub now x.state_time_start in
    let t_dif = timespecsub time_new x.state_time_curr in
    record x {
      busy_time_total =
          if is_busy x then timespecadd x.busy_time_total t_dif else x.busy_time_total;
      state_time_curr = time_new;
    }

unfoldable pub monitor : Timespec → Pm → Pm
monitor now d = record d { items = map (monitor_item now) d.items }

-- The exchange of the outputs of `d->item[min_id]` and `d->item[max_id]`
unfoldable pub exchange :
    Timespec → (min_id max_id : ℕ) → PmItem → PmItem → List PmItem → List PmItem
unfolding update_at
exchange now min_id max_id a b items =
    update_at max_id (switch_to a.output now) (update_at min_id (switch_to b.output now) items)

-- The body of `if (min_id >= 0 && max_id >= 0)`
unfoldable pub try_exchange : Timespec → Pm → (min_id max_id : ℕ) → Pm
unfolding exchange
try_exchange now d min_id max_id = elim (get_elem? d.items min_id) as (λ _. Pm) [
  | none ↦ d
  | some a ↦ elim (get_elem? d.items max_id) as (λ _. Pm) [
    | none ↦ d
    | some b ↦
        if timespeccmp gt_ℤ a.state_time_curr d.idle_min
          && timespeccmp gt_ℤ b.state_time_curr d.busy_min
        then record d { items = exchange now min_id max_id a b d.items }
        else d
  ]
]

-- The control of the swap
unfoldable pub swap : Timespec → Pm → Pm
unfolding try_exchange pmgetbtpimin pmgetbtpbmax
swap now d =
    let d1 = record d { swap_time_start = now } in
    let swapped : Pm = elim (pmgetbtpimin d1) as (λ _. Pm) [
      | none ↦ d1
      | some min_id ↦ elim (pmgetbtpbmax d1) as (λ _. Pm) [
        | none ↦ d1
        | some max_id ↦ try_exchange now d1 min_id max_id
      ]
    ] in
    if timespeccmp gt_ℤ (timespecsub now d.swap_time_start) d.swap_delay then swapped else d

-- The normalization of the duty cycle; PM_RSL is 100
unfoldable pub normalize : ℤ → ℕ
normalize (negsuc n) = 0
normalize (pos n) = if ltb 100 n then 100 else n

-- One turn of the loops of the power control
unfoldable pub turn_pin_on : Timespec → Pm → Pm
unfolding pmgetbptn update_at
turn_pin_on now d = elim (pmgetbptn d) as (λ _. Pm) [
  | none ↦ d
  | some i ↦ record d {
    items = update_at i (switch_to pm_busy now) d.items;
    busy_pin_num = d.busy_pin_num + 1;
  }
]

unfoldable pub turn_pin_off : Timespec → Pm → Pm
unfolding pmgetbptf update_at
turn_pin_off now d = elim (pmgetbptf d) as (λ _. Pm) [
  | none ↦ d
  | some i ↦ record d {
    items = update_at i (switch_to pm_idle now) d.items;
    busy_pin_num = d.busy_pin_num - 1;
  }
]

abbrev pub repeat : ℕ → (Pm → Pm) → Pm → Pm
repeat zero f d = d
repeat (suc n) f d = repeat n f (f d)

-- The power control for `n` pins
unfoldable pub power : Timespec → ℕ → Pm → Pm
unfolding turn_pin_on turn_pin_off
power now n d =
    if ltb d.busy_pin_num n
    then repeat (n - d.busy_pin_num) (turn_pin_on now) d
    else if ltb n d.busy_pin_num
    then repeat (d.busy_pin_num - n) (turn_pin_off now) d
    else d

module _ {F W : Type 0} ⦃arith_f : FloatArith F⦄ (clock : Clock W) (to_int : F → ℕ) where
  -- `((float) duty_cycle / (float) PM_RSL) * (float) d->item_length`
  abbrev pub pin_num : (duty_cycle length : ℕ) → ℕ
  pin_num duty_cycle n = to_int (
      arith_f.mul (arith_f.div (arith_f.of_nat duty_cycle) (arith_f.of_nat 100)) (arith_f.of_nat n))

  unfoldable pub pmctl : Pm → ℤ → W → Pm × W
  unfolding initialize monitor swap normalize power
  pmctl d duty_cycle w =
      let (now, w1) = clock w in
      let d1 = swap now (monitor now (initialize now d)) in
      if length d.items == 0
      then (d, w)
      else (power now (pin_num (normalize duty_cycle) (length d.items)) d1, w1)
