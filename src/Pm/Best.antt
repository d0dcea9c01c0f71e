-- ===== src/Pm/Best.antt =====
-- lib/pm.c: the loops that look for a pin find the best one.
use mathlib.Core.Path.{subst}
use regonf.Prelude.{
  ℕ, suc, ◌+◌, ◌≡◌, refl, ap, ◌∙◌, ◌⊎◌, inl, inr, Bool, true, false, ◌&&◌, Option, none, some, List,
  [], ◌∷◌, arith, All, get_elem?, Bool-cases,
}
use regonf.Prelude.Int.{ℤ, ltb_ℤ}
use regonf.Timef.{Timespec, timespeccmp, gt_ℤ}
use regonf.Pm.{
  PmItem, Pm, pick_first, pick_better, pick_loop, pick, or_pick, pmgetbtpimin, pmgetbtpbmax,
  pmgetbptn, pmgetbptf, is_idle, is_busy, long_idle, long_busy,
}

-- No time is replaced by itself or by one that it has replaced, and a time that a second one does not
-- replace is not replaced by what does not replace the second one.
pub record IsOrder (cmp : ℤ → ℤ → Bool) : Type 0 where
  pub irrefl : (a : Timespec) → timespeccmp cmp a a ≡ false
  pub asymm : (a b : Timespec) → timespeccmp cmp a b ≡ true → timespeccmp cmp b a ≡ false
  pub trans :
      (a b c : Timespec)
      → timespeccmp cmp a b ≡ false
      → timespeccmp cmp b c ≡ false
      → timespeccmp cmp a c ≡ false

pub ltb_ℤ-IsOrder : IsOrder ltb_ℤ
unfolding timespeccmp
ltb_ℤ-IsOrder = record {
  irrefl = λ a. ground arith;
  asymm = λ a b h. ground arith;
  trans = λ a b c h k. ground arith;
}

pub gt_ℤ-IsOrder : IsOrder gt_ℤ
unfolding timespeccmp
gt_ℤ-IsOrder = record {
  irrefl = λ a. ground arith;
  asymm = λ a b h. ground arith;
  trans = λ a b c h k. ground arith;
}

module _ (ok : PmItem → Bool) (key : PmItem → Timespec) (cmp : ℤ → ℤ → Bool) where
  -- The result of a search from index `i` on
  abbrev IsAt : List PmItem → ℕ → ℕ × Timespec → Type 0
  IsAt xs i (id, t) =
      (k : ℕ) × (x : PmItem) × (id ≡ i + k)
      × (get_elem? xs k ≡ some x)
      × (ok x ≡ true)
      × (t ≡ key x)

  IsAt-next :
      (x : PmItem) (xs : List PmItem) (i : ℕ) (b : ℕ × Timespec)
      → IsAt xs (i + 1) b
      → IsAt (x ∷ xs) i b
  IsAt-next x xs i b (k, y, e, g, o, t) = (suc k, y, omega arith, g, o, t)

  pick_step :
      (x : PmItem) (xs : List PmItem) (i : ℕ) (best : Option (ℕ × Timespec)) (b : ℕ × Timespec)
      → pick_better ok key cmp x i (pick_first ok key cmp x i best) ≡ some b
      → (best ≡ some b) ⊎ IsAt (x ∷ xs) i b
  pick_step x xs i none b h = elim (Bool-cases (ok x)) [
    | inr other ↦ absurd (ground (arith, rw other at h))
    | inl good ↦ inr (0, x, ground arith, refl, good, ground arith)
  ]
  pick_step x xs i (some c) b h = elim (Bool-cases (ok x && timespeccmp cmp c.1 (key x))) [
    | inr other ↦ inl (ground arith)
    | inl better ↦ inr (0, x, ground arith, refl, ground arith, ground arith)
  ]

  pub pick_loop-IsAt :
      (xs : List PmItem) (i : ℕ) (best : Option (ℕ × Timespec)) (b : ℕ × Timespec)
      → pick_loop ok key cmp xs i best ≡ some b
      → (best ≡ some b) ⊎ IsAt xs i b
  unfolding pick_loop
  pick_loop-IsAt [] i best b h = inl h
  pick_loop-IsAt (x ∷ xs) i best b h =
      elim (pick_loop-IsAt xs (i + 1) (pick_better ok key cmp x i (pick_first ok key cmp x i best))
        b h) [
          | inr later ↦ inr (IsAt-next x xs i b later)
          | inl here ↦ pick_step x xs i best b here
        ]

  pick_step-none :
      (x : PmItem) (i : ℕ) (best : Option (ℕ × Timespec))
      → pick_better ok key cmp x i (pick_first ok key cmp x i best) ≡ none
      → (best ≡ none) × (ok x ≡ false)
  pick_step-none x i none h = ground arith
  pick_step-none x i (some c) h = ground arith

  pub pick_loop-none :
      (xs : List PmItem) (i : ℕ) (best : Option (ℕ × Timespec))
      → pick_loop ok key cmp xs i best ≡ none
      → (best ≡ none) × All (λ x. ok x ≡ false) xs
  unfolding pick_loop
  pick_loop-none [] i best h = (h, tt)
  pick_loop-none (x ∷ xs) i best h =
      let (here, others) =
        pick_loop-none xs (i + 1) (pick_better ok key cmp x i (pick_first ok key cmp x i best)) h in
      let (start, x_not) = pick_step-none x i best here in (start, (x_not, others))

  -- Nothing replaces the time that the search keeps.
  abbrev pub Unbeaten : Timespec → List PmItem → Type 0
  Unbeaten t = All (λ x. (ok x && timespeccmp cmp t (key x)) ≡ false)

  -- The time of a search so far is not replaced by that of another one.
  abbrev IsUpTo : Timespec → Option (ℕ × Timespec) → Type 0
  IsUpTo t none = Unit
  IsUpTo t (some (id, time)) = timespeccmp cmp t time ≡ false

  pick_step-IsUpTo :
      IsOrder cmp
      → (x : PmItem) (i : ℕ) (best : Option (ℕ × Timespec)) (t : Timespec)
      → IsUpTo t (pick_better ok key cmp x i (pick_first ok key cmp x i best))
      → IsUpTo t best × ((ok x && timespeccmp cmp t (key x)) ≡ false)
  pick_step-IsUpTo order x i none t h = ground (arith, order.irrefl (key x))
  pick_step-IsUpTo order x i (some (id, time)) t h =
      ground
        (arith, order.asymm time (key x), order.trans t (key x) time, order.trans t time (key x))

  pub pick_loop-Unbeaten :
      IsOrder cmp
      → (xs : List PmItem) (i : ℕ) (best : Option (ℕ × Timespec)) (b : ℕ × Timespec)
      → pick_loop ok key cmp xs i best ≡ some b
      → IsUpTo b.1 best × Unbeaten b.1 xs
  unfolding pick_loop
  pick_loop-Unbeaten order [] i none b h = (tt, tt)
  pick_loop-Unbeaten order [] i (some c) b h = (ground (arith, order.irrefl c.1), tt)
  pick_loop-Unbeaten order (x ∷ xs) i best b h =
      let (up_to, others) =
        pick_loop-Unbeaten order xs (i + 1)
          (pick_better ok key cmp x i (pick_first ok key cmp x i best)) b h in
      let (start, here) = pick_step-IsUpTo order x i best b.1 up_to in (start, (here, others))

  -- What a search finds: the first index of an item that it looks at and whose time no other one
  -- replaces, or nothing where it looks at none.
  abbrev pub PicksBest : List PmItem → Option ℕ → Type 0
  PicksBest items none = All (λ x. ok x ≡ false) items
  PicksBest items (some i) =
      (x : PmItem) × (get_elem? items i ≡ some x) × (ok x ≡ true) × Unbeaten (key x) items

  pub pick-PicksBest : IsOrder cmp → (items : List PmItem) → PicksBest items (pick ok key cmp items)
  pick-PicksBest order items = by_result (pick_loop ok key cmp items 0 none) refl
    where
      by_result :
          (o : Option (ℕ × Timespec))
          → pick_loop ok key cmp items 0 none ≡ o
          → PicksBest items (elim o as (λ _. Option ℕ) [ none ↦ none | some best ↦ some best.0 ])
      by_result none e = (pick_loop-none items 0 none e).1
      by_result (some b) e = elim (pick_loop-IsAt items 0 none b e) [
        | inl h ↦ cc
        | inr (k, x, id, found, good, time) ↦
            let at_k : b.0 ≡ k = omega (arith, id) in
            let (_, unbeaten) = pick_loop-Unbeaten order items 0 none b e in
            (
              x,
              ap (get_elem? items) at_k ∙ found,
              good,
              subst (λ t. Unbeaten t items) time unbeaten,
            )
      ]

-- The pin that `pmgetbptn` and `pmgetbptf` name, by what they look for first (`long`), by what they
-- are content with (`ok`), and by the order of the total times (`cmp`)
abbrev pub PicksPin : (long ok : PmItem → Bool) → (ℤ → ℤ → Bool) → List PmItem → Option ℕ → Type 0
PicksPin long ok cmp items none = All (λ x. ok x ≡ false) items
PicksPin long ok cmp items (some i) =
    (x : PmItem) × (get_elem? items i ≡ some x)
    × (ok x ≡ true)
    × (((long x ≡ true) × Unbeaten long (λ y. y.busy_time_total) cmp x.busy_time_total items)
        ⊎ (All (λ y. long y ≡ false) items
            × Unbeaten ok (λ y. y.state_time_curr) ltb_ℤ x.state_time_curr items))

PicksPin-or :
    (long ok : PmItem → Bool) (cmp : ℤ → ℤ → Bool) (items : List PmItem)
    → ((x : PmItem) → long x ≡ true → ok x ≡ true)
    → (first second : Option ℕ) → PicksBest long (λ y. y.busy_time_total) cmp items first
    → PicksBest ok (λ y. y.state_time_curr) ltb_ℤ items second
    → PicksPin long ok cmp items (or_pick first second)
PicksPin-or long ok cmp items le none none h k = k
PicksPin-or long ok cmp items le none (some i) h (x, found, good, best) =
    (x, found, good, inr (h, best))
PicksPin-or long ok cmp items le (some i) second (x, found, good, best) k =
    (x, found, le x good, inl (good, best))

-- `pmgetbptn` names a pin that is idle. If some pin has been idle for longer than `idle_min`, it is
-- one of these, and none of these has a smaller total of busy time; otherwise no idle pin has been idle
-- for longer. It names none only if no pin is idle.
pub pmgetbptn_lem : (d : Pm) → PicksPin (long_idle d) is_idle gt_ℤ d.items (pmgetbptn d)
unfolding pmgetbptn
pmgetbptn_lem d =
    PicksPin-or (long_idle d) is_idle gt_ℤ d.items (λ x h. ground arith)
      (pick (long_idle d) (λ x. x.busy_time_total) gt_ℤ d.items)
      (pick is_idle (λ x. x.state_time_curr) ltb_ℤ d.items)
      (pick-PicksBest (long_idle d) (λ x. x.busy_time_total) gt_ℤ gt_ℤ-IsOrder d.items)
      (pick-PicksBest is_idle (λ x. x.state_time_curr) ltb_ℤ ltb_ℤ-IsOrder d.items)

-- `pmgetbptf` names a pin that is busy. If some pin has been busy for longer than `busy_min`, it is
-- one of these, and none of these has a greater total of busy time; otherwise no busy pin has been busy
-- for longer. It names none only if no pin is busy.
pub pmgetbptf_lem : (d : Pm) → PicksPin (long_busy d) is_busy ltb_ℤ d.items (pmgetbptf d)
unfolding pmgetbptf
pmgetbptf_lem d =
    PicksPin-or (long_busy d) is_busy ltb_ℤ d.items (λ x h. ground arith)
      (pick (long_busy d) (λ x. x.busy_time_total) ltb_ℤ d.items)
      (pick is_busy (λ x. x.state_time_curr) ltb_ℤ d.items)
      (pick-PicksBest (long_busy d) (λ x. x.busy_time_total) ltb_ℤ ltb_ℤ-IsOrder d.items)
      (pick-PicksBest is_busy (λ x. x.state_time_curr) ltb_ℤ ltb_ℤ-IsOrder d.items)

pub pmgetbtpimin_lem :
    (d : Pm) → PicksBest is_idle (λ x. x.busy_time_total) gt_ℤ d.items (pmgetbtpimin d)
unfolding pmgetbtpimin
pmgetbtpimin_lem d = pick-PicksBest is_idle (λ x. x.busy_time_total) gt_ℤ gt_ℤ-IsOrder d.items

pub pmgetbtpbmax_lem :
    (d : Pm) → PicksBest is_busy (λ x. x.busy_time_total) ltb_ℤ d.items (pmgetbtpbmax d)
unfolding pmgetbtpbmax
pmgetbtpbmax_lem d = pick-PicksBest is_busy (λ x. x.busy_time_total) ltb_ℤ ltb_ℤ-IsOrder d.items
