-- ===== src/Pwm/Tests.antt =====
-- lib/pwm.c at concrete inputs. The world is the second at which the clock stands.
use regonf.Prelude.{ℕ, ◌≡◌, refl, false, none, some, List, [], ◌∷◌}
use regonf.Prelude.Int.{ℤ, pos, ◌+ℤ◌, ◌-ℤ◌}
use regonf.Timef.{Timespec, timespec, timespeccmp, timespecsub}
use regonf.Pwm.{PwmState, pwm_busy, pwm_idle, Pwm, switch_state, pwmctl}

abbrev now : ℕ → Timespec × ℕ
now n = (timespec (pos n) (pos 0), n)

-- No part of a second is left in the periods below.
abbrev none_left : ℕ → ℕ → ℕ → ℕ → ℤ
none_left share s rsl seconds = pos 0

abbrev fresh : Pwm
fresh = record {
  initialized = false;
  state = pwm_idle;
  rsl = 100;
  start_time = timespec (pos 0) (pos 0);
  period = timespec (pos 10) (pos 0);
}

-- The states at the given seconds
abbrev states : Pwm → ℤ → List ℕ → List PwmState
states x duty [] = []
states x duty (t ∷ ts) = elim (pwmctl now none_left x duty t) as (λ _. List PwmState) [
  | none ↦ []
  | some (state, y, w) ↦ state ∷ states y duty ts
]

-- 30 of 100 steps in a period of 10 seconds: 3 seconds busy, 7 idle
thirty :
    states fresh (pos 30) (100 ∷ 102 ∷ 103 ∷ 109 ∷ 110 ∷ [])
    ≡ (pwm_busy ∷ pwm_busy ∷ pwm_idle ∷ pwm_idle ∷ pwm_busy ∷ [])
unfolding pwmctl switch_state timespecsub timespeccmp ◌-ℤ◌ ◌+ℤ◌
thirty = refl

-- The first call with a duty cycle of 0 ends the busy state at once.
off : states fresh (pos 0) (100 ∷ 105 ∷ 115 ∷ []) ≡ (pwm_idle ∷ pwm_idle ∷ pwm_idle ∷ [])
unfolding pwmctl switch_state timespecsub timespeccmp ◌-ℤ◌ ◌+ℤ◌
off = refl

full : states fresh (pos 400) (100 ∷ 110 ∷ 120 ∷ []) ≡ (pwm_busy ∷ pwm_busy ∷ pwm_busy ∷ [])
unfolding pwmctl switch_state timespecsub timespeccmp ◌-ℤ◌ ◌+ℤ◌
full = refl
