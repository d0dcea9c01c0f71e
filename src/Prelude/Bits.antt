-- ===== src/Prelude/Bits.antt =====
-- Laws of the bit operations at variables, from the digit recursion that they stand for.
use Prim.Native.Nat.{
  ℕ, zero, suc, ◌+◌, ◌*◌, ◌/◌, ◌%◌, ◌^◌, ◌≤◌, ◌<◌, min, max, bit_and, bit_or, bit_xor, digits,
  bitwise, differ, bit_and-bitwise, bit_or-bitwise, bit_xor-bitwise,
}
use mathlib.Core.Path.{◌≡◌, refl, ap, sym, ◌∙◌}
use native.Mathlib.Nat.{pow-suc}
use native.Mathlib.Omega.{arith}

-- An operation on digits, with what it makes of the digits of the second number beyond the first.
module _ (z : ℕ → ℕ) (f : ℕ → ℕ → ℕ) (rest : (b : ℕ) → z b ≡ z (b / 2) * 2 + f 0 (b % 2)) where
  digits-zero : (n b : ℕ) → digits z f n 0 b ≡ z b
  digits-zero zero b = refl
  digits-zero (suc n) b = refl

  -- Once there is a round for each digit, further rounds change nothing.
  digits_stable : (n m a b : ℕ) → a ≤ n → a ≤ m → digits z f n a b ≡ digits z f m a b
  digits_stable n m zero b h k = digits-zero n b ∙ sym (digits-zero m b)
  digits_stable zero m (suc a) b h k = elim h [ ]
  digits_stable (suc n) zero (suc a) b h k = elim k [ ]
  digits_stable (suc n) (suc m) (suc a) b h k =
      ap (λ d. d * 2 + f (suc a % 2) (b % 2))
        (digits_stable n m (suc a / 2) (b / 2) (omega arith) (omega arith))

  -- The lowest digit apart from the others
  bitwise_split : (a b : ℕ) → bitwise z f a b ≡ bitwise z f (a / 2) (b / 2) * 2 + f (a % 2) (b % 2)
  bitwise_split zero b = rest b
  bitwise_split (suc a) b =
      ap (λ d. d * 2 + f (suc a % 2) (b % 2))
        (digits_stable a (suc a / 2) (suc a / 2) (b / 2) (omega arith) (omega arith))

pub bit_or_split : (a b : ℕ) → bit_or a b ≡ bit_or (a / 2) (b / 2) * 2 + max (a % 2) (b % 2)
bit_or_split a b =
    rw (bit_or-bitwise a b, bit_or-bitwise (a / 2) (b / 2))
      (bitwise_split (λ b. b) max (λ b. omega arith) a b)

pub bit_and_split : (a b : ℕ) → bit_and a b ≡ bit_and (a / 2) (b / 2) * 2 + min (a % 2) (b % 2)
bit_and_split a b =
    rw (bit_and-bitwise a b, bit_and-bitwise (a / 2) (b / 2))
      (bitwise_split (λ b. zero) min (λ b. omega arith) a b)

digit_rest : (b : ℕ) → b ≡ b / 2 * 2 + differ 0 (b % 2)
digit_rest b = omega arith

pub bit_xor_split : (a b : ℕ) → bit_xor a b ≡ bit_xor (a / 2) (b / 2) * 2 + differ (a % 2) (b % 2)
bit_xor_split a b =
    rw (bit_xor-bitwise a b, bit_xor-bitwise (a / 2) (b / 2))
      (bitwise_split (λ b. b) differ digit_rest a b)

pub zero-bit_xor : (a : ℕ) → bit_xor 0 a ≡ a
zero-bit_xor a = bit_xor-bitwise 0 a

-- Halves and parities of the operations
differ_parity : (x y : ℕ) → x < 2 → y < 2 → differ x y ≡ (x + y) % 2
differ_parity zero y hx hy = omega arith
differ_parity (suc zero) zero hx hy = refl
differ_parity (suc zero) (suc zero) hx hy = refl
differ_parity (suc zero) (suc (suc y)) hx hy = omega arith
differ_parity (suc (suc x)) y hx hy = omega arith

pub bit_xor_parts :
    (a b : ℕ) → (bit_xor a b / 2 ≡ bit_xor (a / 2) (b / 2)) × (bit_xor a b % 2 ≡ (a + b) % 2)
bit_xor_parts a b =
    let low = differ_parity (a % 2) (b % 2) (omega arith) (omega arith) in
    (omega (arith, bit_xor_split a b, low), omega (arith, bit_xor_split a b, low))

pub bit_or_parts :
    (a b : ℕ) → (bit_or a b / 2 ≡ bit_or (a / 2) (b / 2)) × (bit_or a b % 2 ≡ max (a % 2) (b % 2))
bit_or_parts a b = (omega (arith, bit_or_split a b), omega (arith, bit_or_split a b))

pub bit_and_parts :
    (a b : ℕ)
    → (bit_and a b / 2 ≡ bit_and (a / 2) (b / 2)) × (bit_and a b % 2 ≡ min (a % 2) (b % 2))
bit_and_parts a b = (omega (arith, bit_and_split a b), omega (arith, bit_and_split a b))

-- Numbers with the same half and the same parity are equal.
eq_of_parts : (a b : ℕ) → a / 2 ≡ b / 2 → a % 2 ≡ b % 2 → a ≡ b
eq_of_parts a b h k = omega arith

bit_xor_assoc_fuel :
    (n a b c : ℕ) → a ≤ n → b ≤ n → c ≤ n → bit_xor (bit_xor a b) c ≡ bit_xor a (bit_xor b c)
bit_xor_assoc_fuel zero zero zero zero ha hb hc = refl
bit_xor_assoc_fuel zero (suc a) b c ha hb hc = elim ha [ ]
bit_xor_assoc_fuel zero a (suc b) c ha hb hc = elim hb [ ]
bit_xor_assoc_fuel zero a b (suc c) ha hb hc = elim hc [ ]
bit_xor_assoc_fuel (suc n) a b c ha hb hc =
    let ih =
      bit_xor_assoc_fuel n (a / 2) (b / 2) (c / 2) (omega arith) (omega arith) (omega arith) in
    let (h1, p1) = bit_xor_parts (bit_xor a b) c in
    let (h2, p2) = bit_xor_parts a (bit_xor b c) in
    let (hab, pab) = bit_xor_parts a b in
    let (hbc, pbc) = bit_xor_parts b c in
    eq_of_parts (bit_xor (bit_xor a b) c) (bit_xor a (bit_xor b c))
      (h1 ∙ ap (λ t. bit_xor t (c / 2)) hab ∙ ih ∙ ap (λ t. bit_xor (a / 2) t) (sym hbc) ∙ sym h2)
      (omega arith)

pub bit_xor_assoc : (a b c : ℕ) → bit_xor (bit_xor a b) c ≡ bit_xor a (bit_xor b c)
bit_xor_assoc a b c = bit_xor_assoc_fuel (a + b + c) a b c (omega arith) (omega arith) (omega arith)

bit_xor_self_fuel : (n a : ℕ) → a ≤ n → bit_xor a a ≡ 0
bit_xor_self_fuel zero zero h = refl
bit_xor_self_fuel zero (suc a) h = elim h [ ]
bit_xor_self_fuel (suc n) a h =
    let (half, parity) = bit_xor_parts a a in
    omega (arith, bit_xor_self_fuel n (a / 2) (omega arith))

pub bit_xor_self : (a : ℕ) → bit_xor a a ≡ 0
bit_xor_self a = bit_xor_self_fuel a a (omega arith)

bit_xor_comm_fuel : (n a b : ℕ) → a ≤ n → b ≤ n → bit_xor a b ≡ bit_xor b a
bit_xor_comm_fuel zero zero zero ha hb = refl
bit_xor_comm_fuel zero (suc a) b ha hb = elim ha [ ]
bit_xor_comm_fuel zero a (suc b) ha hb = elim hb [ ]
bit_xor_comm_fuel (suc n) a b ha hb =
    let (h1, p1) = bit_xor_parts a b in
    let (h2, p2) = bit_xor_parts b a in
    omega (arith, bit_xor_comm_fuel n (a / 2) (b / 2) (omega arith) (omega arith))

pub bit_xor_comm : (a b : ℕ) → bit_xor a b ≡ bit_xor b a
bit_xor_comm a b = bit_xor_comm_fuel (a + b) a b (omega arith) (omega arith)

-- The bits below 2 ^ k
pub bit_xor-lt : (k a b : ℕ) → a < 2 ^ k → b < 2 ^ k → bit_xor a b < 2 ^ k
bit_xor-lt zero zero zero ha hb = omega arith
bit_xor-lt zero (suc a) b ha hb = omega arith
bit_xor-lt zero a (suc b) ha hb = omega arith
bit_xor-lt (suc k) a b ha hb =
    let (half, parity) = bit_xor_parts a b in
    let double = pow-suc 2 k in
    omega (arith, bit_xor-lt k (a / 2) (b / 2) (omega arith) (omega arith))

bit_or-zero_fuel : (n a : ℕ) → a ≤ n → bit_or a 0 ≡ a
bit_or-zero_fuel zero zero h = refl
bit_or-zero_fuel zero (suc a) h = elim h [ ]
bit_or-zero_fuel (suc n) a h =
    let (half, parity) = bit_or_parts a 0 in omega (arith, bit_or-zero_fuel n (a / 2) (omega arith))

-- `buf |= 1` sets the lowest bit and keeps the others.
pub bit_or-one : (a : ℕ) → bit_or a 1 ≡ a / 2 * 2 + 1
bit_or-one a =
    let (half, parity) = bit_or_parts a 1 in
    omega (arith, bit_or-zero_fuel (a / 2) (a / 2) (omega arith))

-- The number of k ones
pub ones : ℕ → ℕ
ones zero = 0
ones (suc k) = ones k * 2 + 1

pub bit_and-ones : (k a : ℕ) → a < 2 ^ k → bit_and a (ones k) ≡ a
unfolding ones
bit_and-ones zero zero h = refl
bit_and-ones zero (suc a) h = omega arith
bit_and-ones (suc k) a h =
    let (half, parity) = bit_and_parts a (ones k * 2 + 1) in
    let same : (ones k * 2 + 1) / 2 ≡ ones k = omega arith in
    let double = pow-suc 2 k in
    eq_of_parts (bit_and a (ones k * 2 + 1)) a
      (half ∙ ap (bit_and (a / 2)) same ∙ bit_and-ones k (a / 2) (omega arith)) (omega arith)

-- `buf &= ~1` on a 32-bit word clears the lowest bit and keeps the others.
pub bit_and-not_one : (a : ℕ) → a < 2 ^ 32 → bit_and a 0xffff_fffe ≡ a / 2 * 2
unfolding ones
bit_and-not_one a h =
    let (half, parity) = bit_and_parts a 0xffff_fffe in
    let rest : bit_and (a / 2) 0x7fff_ffff ≡ a / 2 = bit_and-ones 31 (a / 2) (omega arith) in
    omega arith
