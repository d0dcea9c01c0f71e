-- ===== src/Pm/Count.antt =====
-- lib/pm.c: how many pins are busy, and what the steps of `pmctl` do to that number.
use regonf.Prelude.{
  if-elim, ℕ, zero, suc, ◌+◌, ◌≤◌, ◌≡◌, ◌≢◌, refl, sym, ap, ◌∙◌, Bool, true, false, Option, none,
  some, List, [], ◌∷◌, arith, All, get_elem?, length, map,
}
use regonf.Prelude.Int.{ltb_ℤ}
use regonf.Timef.{Timespec, timespeccmp, timespecsub, gt_ℤ}
use regonf.Pm.{
  PmItem, Pm, is_idle, is_busy, update_at, switch_to, clear_item, initialize, monitor_item, monitor,
  exchange, try_exchange, swap, pmgetbtpimin, pmgetbtpbmax,
}
use regonf.Pm.Best.{PicksBest, pmgetbtpimin_lem, pmgetbtpbmax_lem}

abbrev pub bit : Bool → ℕ
bit true = 1
bit false = 0

pub busy_count : List PmItem → ℕ
busy_count [] = 0
busy_count (x ∷ xs) = bit (is_busy x) + busy_count xs

-- The counter of a group that has been set up is the number of its busy pins.
abbrev pub IsCounted : Pm → Type 0
IsCounted d = d.initialized ≡ true → d.busy_pin_num ≡ busy_count d.items

pub busy_count_le : (items : List PmItem) → busy_count items ≤ length items
unfolding busy_count
busy_count_le [] = omega arith
busy_count_le (x ∷ xs) = ground (arith, busy_count_le xs)

pub busy_count-All :
    (items : List PmItem) → All (λ x. is_idle x ≡ false) items → busy_count items ≡ length items
unfolding busy_count
busy_count-All [] h = refl
busy_count-All (x ∷ xs) h = ground (arith, busy_count-All xs h.1)

pub busy_count_none :
    (items : List PmItem) → All (λ x. is_busy x ≡ false) items → busy_count items ≡ 0
unfolding busy_count
busy_count_none [] h = refl
busy_count_none (x ∷ xs) h = ground (arith, busy_count_none xs h.1)

pub busy_count-update_at :
    (items : List PmItem) (i : ℕ) (f : PmItem → PmItem) (x : PmItem)
    → get_elem? items i ≡ some x
    → busy_count (update_at i f items) + bit (is_busy x) ≡ busy_count items + bit (is_busy (f x))
unfolding busy_count update_at
busy_count-update_at [] i f x h = cc
busy_count-update_at (y ∷ ys) zero f x h =
    let e : y ≡ x = ground arith in
    rw (ap (λ z. bit (is_busy z)) e, ap (λ z. bit (is_busy (f z))) e) (omega arith)
busy_count-update_at (y ∷ ys) (suc i) f x h = omega (arith, busy_count-update_at ys i f x h)

pub length-update_at :
    (items : List PmItem) (i : ℕ) (f : PmItem → PmItem)
    → length (update_at i f items) ≡ length items
unfolding update_at
length-update_at [] i f = refl
length-update_at (y ∷ ys) zero f = refl
length-update_at (y ∷ ys) (suc i) f = ap suc (length-update_at ys i f)

get_elem?-update_at :
    (items : List PmItem) (i j : ℕ) (f : PmItem → PmItem)
    → i ≢ j
    → get_elem? (update_at i f items) j ≡ get_elem? items j
unfolding update_at
get_elem?-update_at [] i j f h = refl
get_elem?-update_at (y ∷ ys) zero zero f h = absurd (h refl)
get_elem?-update_at (y ∷ ys) zero (suc j) f h = refl
get_elem?-update_at (y ∷ ys) (suc i) zero f h = refl
get_elem?-update_at (y ∷ ys) (suc i) (suc j) f h = get_elem?-update_at ys i j f (λ e. h (ap suc e))

busy_count-clear :
    (now : Timespec) (items : List PmItem) → busy_count (map (clear_item now) items) ≡ 0
unfolding busy_count
busy_count-clear now [] = refl
busy_count-clear now (x ∷ xs) = omega (arith, busy_count-clear now xs)

busy_count-monitor :
    (now : Timespec) (items : List PmItem)
    → busy_count (map (monitor_item now) items) ≡ busy_count items
unfolding busy_count
busy_count-monitor now [] = refl
busy_count-monitor now (x ∷ xs) = omega (arith, busy_count-monitor now xs)

length-map : (f : PmItem → PmItem) (items : List PmItem) → length (map f items) ≡ length items
length-map f [] = refl
length-map f (x ∷ xs) = ap suc (length-map f xs)

-- A step keeps the number of pins, and of busy ones.
abbrev pub Keeps : Pm → Pm → Type 0
Keeps d d' =
    (busy_count d'.items ≡ busy_count d.items)
    × (length d'.items ≡ length d.items)
    × (d'.busy_pin_num ≡ d.busy_pin_num)

pub initialize_lem :
    (now : Timespec) (d : Pm)
    → IsCounted d
    → let d' = initialize now d in
      (d'.busy_pin_num ≡ busy_count d'.items)
      × (length d'.items ≡ length d.items)
      × (d'.initialized ≡ true)
unfolding initialize
initialize_lem now d h =
    ground (arith, busy_count-clear now d.items, length-map (clear_item now) d.items)

pub monitor-Keeps : (now : Timespec) (d : Pm) → Keeps d (monitor now d)
unfolding monitor
monitor-Keeps now d = (busy_count-monitor now d.items, length-map (monitor_item now) d.items, refl)

abbrev busy_at : Option PmItem → Bool
busy_at none = false
busy_at (some x) = is_busy x

-- The exchange of an idle and a busy pin
exchange_lem :
    (now : Timespec) (i j : ℕ) (a b : PmItem) (items : List PmItem)
    → get_elem? items i ≡ some a
    → get_elem? items j ≡ some b
    → is_idle a ≡ true
    → is_busy b ≡ true
    → (busy_count (exchange now i j a b items) ≡ busy_count items)
      × (length (exchange now i j a b items) ≡ length items)
unfolding exchange
exchange_lem now i j a b items ea eb ia ib =
    let f = switch_to b.output now in
    let g = switch_to a.output now in
    let apart : i ≢ j = λ e.
      let same : is_busy a ≡ is_busy b = ap busy_at (sym ea ∙ ap (get_elem? items) e ∙ eb) in
      ground (arith, same) in
    let first = busy_count-update_at items i f a ea in
    let still = get_elem?-update_at items i j f apart ∙ eb in
    let second = busy_count-update_at (update_at i f items) j g b still in
    (
      ground (arith, first, second),
      length-update_at (update_at i f items) j g ∙ length-update_at items i f,
    )

try_exchange-Keeps :
    (now : Timespec) (d : Pm) (i j : ℕ) (a b : PmItem)
    → get_elem? d.items i ≡ some a
    → get_elem? d.items j ≡ some b
    → is_idle a ≡ true
    → is_busy b ≡ true
    → Keeps d (try_exchange now d i j)
unfolding try_exchange
try_exchange-Keeps now d i j a b ea eb ia ib =
    ground (arith, exchange_lem now i j a b d.items ea eb ia ib)

-- A swap keeps the number of busy pins.
pub swap-Keeps : (now : Timespec) (d : Pm) → Keeps d (swap now d)
unfolding swap
swap-Keeps now d =
    let d1 = record d { swap_time_start = now } in
    if-elim (Keeps d) (timespeccmp gt_ℤ (timespecsub now d.swap_time_start) d.swap_delay) _ _
      (by_pins (pmgetbtpimin d1) (pmgetbtpbmax d1) (pmgetbtpimin_lem d1) (pmgetbtpbmax_lem d1))
      (refl, refl, refl)
  where
    by_pins :
        (i j : Option ℕ)
        → PicksBest is_idle (λ x. x.busy_time_total) gt_ℤ d.items i
        → PicksBest is_busy (λ x. x.busy_time_total) ltb_ℤ d.items j
        → Keeps d (elim i as (λ _. Pm) [
          | none ↦ record d { swap_time_start = now }
          | some min_id ↦ elim j as (λ _. Pm) [
            | none ↦ record d { swap_time_start = now }
            | some max_id ↦ try_exchange now (record d { swap_time_start = now }) min_id max_id
          ]
        ])
    by_pins none j h k = (refl, refl, refl)
    by_pins (some i) none h k = (refl, refl, refl)
    by_pins (some i) (some j) (a, ea, ia, _) (b, eb, ib, _) =
        try_exchange-Keeps now (record d { swap_time_start = now }) i j a b ea eb ia ib
