-- ===== src/Pwm.antt =====
-- lib/pwm.h and lib/pwm.c: pulse-width modulation. The state is busy for a share of the period, and then
-- idle for what is left of it. The seconds and the ticks are integers without the bounds of `long`; what
-- the code computes with `double`, the part of a second behind the whole ones, is a parameter. A state
-- that is neither PWM_BUSY nor PWM_IDLE is not modelled.
mod Tests
use mathlib.Core.Path.{subst}
use regonf.Prelude.{
  ℕ, zero, suc, ◌+◌, ◌-◌, ◌*◌, ◌/◌, ◌≡◌, refl, Bool, true, false, ◌&&◌, not, Option, none, some,
  arith, ltb, ◌==◌, if◌then◌else◌, if-elim, WhenSome, sym,
}
use regonf.Prelude.Int.{ℤ, pos, negsuc, ◌+ℤ◌, leb_ℤ, sub_ℕ}
use regonf.Timef.{Timespec, timespec, timespeccmp, timespecsub, Clock}

-- PWM_BUSY is the level LOW of a pin, and PWM_IDLE is HIGH.
pub data PwmState : Type 0 where
  pwm_busy pwm_idle : PwmState

pub record Pwm : Type 0 where
  pub initialized : Bool
  pub state : PwmState
  pub rsl : ℕ
  pub start_time : Timespec
  pub period : Timespec

-- C's division, which rounds towards zero
abbrev quot : ℤ → ℕ → ℤ
quot (pos n) d = pos (n / d)
quot (negsuc n) d = sub_ℕ 0 (suc n / d)

abbrev scale : ℕ → ℤ → ℤ
scale k (pos n) = pos (k * n)
scale k (negsuc n) = sub_ℕ 0 (k * suc n)

-- The duty cycle in its bounds
abbrev pub bound_duty : ℕ → ℤ → ℕ
bound_duty rsl (pos d) = if ltb rsl d then rsl else d
bound_duty rsl (negsuc d) = 0

module _ {W : Type 0} (clock : Clock W) (part : (share seconds rsl whole : ℕ) → ℤ) where
  -- `time_req`: how long the state lasts for `share` of the `rsl` steps of a period of `s` whole seconds
  abbrev pub time_req : ℕ → ℕ → Pwm → Timespec
  time_req share s x =
      timespec (pos (share * s / x.rsl))
        (part share s x.rsl (share * s / x.rsl) +ℤ quot (scale share x.period.tv_nsec) x.rsl)

  -- A state that has lasted long enough ends, if the other one lasts at all.
  abbrev pub end_state : PwmState → Timespec → Bool → Timespec → Pwm → Pwm
  end_state next time wanted now x =
      if timespeccmp leb_ℤ time (timespecsub now x.start_time) && wanted
      then record x { state = next; start_time = now }
      else x

  -- The first call makes the state busy.
  abbrev pub first_call : Timespec → Pwm → Pwm
  first_call now x =
      if x.initialized
      then x
      else record x { state = pwm_busy; start_time = now; initialized = true }

  -- The `switch`
  unfoldable pub switch_state : PwmState → ℕ → ℕ → Timespec → Pwm → Pwm
  switch_state pwm_busy duty s now x =
      end_state pwm_idle (time_req duty s x) (not (duty == x.rsl)) now x
  switch_state pwm_idle duty s now x =
      end_state pwm_busy (time_req (x.rsl - duty) s x) (not (duty == 0)) now x

  -- `pwmctl` from the normalization on, with a period of `s` whole seconds
  abbrev pub run : ℕ → ℕ → Pwm → W → PwmState × Pwm × W
  run duty s x w =
      let (now, w1) = clock w in
      let x1 = first_call now x in
      let x2 = switch_state x1.state duty s now x1 in (x2.state, x2, w1)

  -- `pwmctl`; `none` is the division by an `rsl` of 0.
  unfoldable pub pwmctl : Pwm → ℤ → W → Option (PwmState × Pwm × W)
  unfolding switch_state
  pwmctl x duty w = elim (x.period.tv_sec) as (λ _. Option (PwmState × Pwm × W)) [
    | negsuc k ↦ some (pwm_idle, record x { period = timespec (pos 0) (pos 0) }, w)
    | pos s ↦
        if s == 0
        then some (pwm_idle, x, w)
        else if x.rsl == 0
        then none
        else some (run (bound_duty x.rsl duty) s x w)
  ]

  -- With a duty cycle of zero an idle state stays idle.
  idle_stays : (s : ℕ) (now : Timespec) (x : Pwm) → switch_state pwm_idle 0 s now x ≡ x
  unfolding switch_state
  idle_stays s now x = ground arith

  -- With a full duty cycle a busy state stays busy.
  busy_stays : (s : ℕ) (now : Timespec) (x : Pwm) → switch_state pwm_busy x.rsl s now x ≡ x
  unfolding switch_state
  busy_stays s now x = ground arith

  first_call_initialized : (now : Timespec) (x : Pwm) → x.initialized ≡ true → first_call now x ≡ x
  first_call_initialized now x i = ground (arith, i)

  run_kept :
      (duty s : ℕ) (x : Pwm) (w : W)
      → x.initialized ≡ true
      → switch_state x.state duty s (clock w).0 x ≡ x
      → run duty s x w ≡ (x.state, x, (clock w).1)
  run_kept duty s x w i kept = (λ k. ((quiet k).state, quiet k, (clock w).1))
    where
      quiet :
          switch_state
            (first_call (clock w).0 x).state
            duty
            s
            (clock w).0
            (first_call (clock w).0 x)
          ≡ x
      quiet = rw (first_call_initialized (clock w).0 x i) kept

  -- A state that has been idle stays idle from call to call while the duty cycle is zero or below.
  pub pwmctl_off :
      (x : Pwm) (duty : ℤ) (w : W)
      → x.initialized ≡ true
      → x.state ≡ pwm_idle
      → bound_duty x.rsl duty ≡ 0
      → WhenSome (λ r. (r.0 ≡ pwm_idle) × (r.1.state ≡ pwm_idle)) (pwmctl x duty w)
  unfolding pwmctl
  pwmctl_off x duty w i idle zero_duty = by_period x.period.tv_sec
    where
      Off : Option (PwmState × Pwm × W) → Type 0
      Off = WhenSome (λ r. (r.0 ≡ pwm_idle) × (r.1.state ≡ pwm_idle))

      kept : (s : ℕ) → run (bound_duty x.rsl duty) s x w ≡ (x.state, x, (clock w).1)
      kept s = run_kept (bound_duty x.rsl duty) s x w i (
          subst (λ n. switch_state x.state n s (clock w).0 x ≡ x) (sym zero_duty)
            (subst (λ q. switch_state q 0 s (clock w).0 x ≡ x) (sym idle)
              (idle_stays s (clock w).0 x)))

      by_period :
          (p : ℤ)
          → Off (elim p as (λ _. Option (PwmState × Pwm × W)) [
            | negsuc k ↦ some (pwm_idle, record x { period = timespec (pos 0) (pos 0) }, w)
            | pos s ↦
                if s == 0
                then some (pwm_idle, x, w)
                else if x.rsl == 0
                then none
                else some (run (bound_duty x.rsl duty) s x w)
          ])
      by_period (negsuc k) = (refl, idle)
      by_period (pos s) =
          if-elim Off (s == 0) _ _ (refl, idle)
            (if-elim Off (x.rsl == 0) _ _ tt
              (subst (λ r. Off (some r)) (sym (kept s)) (idle, idle)))
