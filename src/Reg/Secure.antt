-- ===== src/Reg/Secure.antt =====
-- lib/reg.c: when the secure duty cycles are needed, and the error bit that goes with them.
use regonf.Prelude.{
  ℕ, ◌+◌, ◌*◌, ◌/◌, ◌^◌, ◌<◌, ◌≡◌, refl, Bool, true, false, not, ◌&&◌, ◌||◌, arith, if◌then◌else◌,
}
use regonf.Prelude.Bits.{bit_or-one, bit_and-not_one}
use regonf.Timef.{Clock, ton_ts, ton_ts_reset}
use regonf.Reg.{RegSecure, secure_need, secure_touch}

-- The word with the bit PROG_ERROR_NO_SIGNAL_FROM_CLIENT on or off
abbrev pub with_signal_error : Bool → ℕ → ℕ
with_signal_error on code = code / 2 * 2 + (if on then 1 else 0)

module _ {F W : Type 0} (clock : Clock W) where
  -- The secure duty cycles are needed exactly when the check is active and either the client's
  -- silence has been noticed before or the timer fires now. Then the silence stays noticed, and if
  -- it is noticed now, the error bit is set and the other bits are kept; in all other cases the
  -- error word is kept. While the check is inactive nothing changes.
  pub secure_need_lem :
      (item : RegSecure F) (w : W)
      → let (need, item', _) = secure_need clock item w in
        let (fired, _, _) = ton_ts clock item.timeout item.tmr w in
        (need ≡ (item.active && (item.done || fired)))
        × (item'.done ≡ (item.done || need))
        × (item'.error_code ≡ (
            if need && not item.done
            then with_signal_error true item.error_code
            else item.error_code))
        × (item.active ≡ false → item' ≡ item)
  unfolding secure_need
  secure_need_lem item w = ground (arith, bit_or-one item.error_code)

-- A word from the client makes the duty cycles not needed, stops the timer and clears the error bit,
-- and keeps the other bits of the 32-bit word.
pub secure_touch_lem :
    {F : Type 0} (item : RegSecure F)
    → item.error_code < 2 ^ 32
    → let item' = secure_touch item in
      (item'.done ≡ false)
      × (item'.tmr.ready ≡ false)
      × (item'.error_code ≡ with_signal_error false item.error_code)
unfolding secure_touch ton_ts_reset
secure_touch_lem item h = (refl, refl, omega (arith, bit_and-not_one item.error_code h))
