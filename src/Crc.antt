-- ===== src/Crc.antt =====
-- lib/crc.c: the checksum of a packet, on bytes.
pub mod Detect
use Prim.Native.Nat.{bit_and, bit_xor}
use regonf.Prelude.{ℕ, zero, suc, ◌/◌, ◌==◌, List, [], ◌∷◌, if◌then◌else◌}

-- The body of the loop of `crc_update`
unfoldable pub crc_bit : ℕ → ℕ → ℕ
crc_bit crc b = if bit_and (bit_xor crc b) 1 == 1 then bit_xor (crc / 2) 0x8c else crc / 2

-- The loop, with `i` from its first value down to 1
unfoldable pub crc_loop : (i crc b : ℕ) → ℕ
crc_loop zero crc b = crc
crc_loop (suc i) crc b = crc_loop i (crc_bit crc b) (b / 2)

unfoldable pub crc_update : ℕ → ℕ → ℕ
unfolding crc_loop crc_bit
crc_update crc b = crc_loop 8 crc b

unfoldable pub crc_update_by_str : ℕ → List ℕ → ℕ
crc_update_by_str crc [] = crc
crc_update_by_str crc (b ∷ bs) = crc_update_by_str (crc_update crc b) bs
