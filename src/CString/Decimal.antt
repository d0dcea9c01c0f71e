-- ===== src/CString/Decimal.antt =====
-- What `%u` and `%d` of `snprintf` print and what `atoi` reads, in ASCII.
use regonf.Prelude.Int.{ℤ, pos, negsuc}
use regonf.Prelude.{
  ℕ, zero, suc, ◌+◌, ◌-◌, ◌*◌, ◌/◌, ◌%◌, ◌^◌, ◌<◌, ◌≤◌, ◌≡◌, Bool, true, false, ◌==◌, ◌&&◌, List,
  [], ◌∷◌, arith, leb, if◌then◌else◌, All, length,
}

-- `isdigit`
abbrev pub is_digit : ℕ → Bool
is_digit c = leb 48 c && leb c 57

-- The last digit of a number
abbrev pub digit : ℕ → ℕ
digit n = 48 + n % 10

-- The digits of a number in front of `acc`; the fuel bounds how many they are.
unfoldable pub print_loop : (fuel n : ℕ) → List ℕ → List ℕ
print_loop zero n acc = acc
print_loop (suc fuel) n acc =
    let rest = print_loop fuel (n / 10) (digit n ∷ acc) in
    if n / 10 == 0 then digit n ∷ acc else rest

-- A number below 2 ^ 32 has at most ten digits.
unfoldable pub print_u : ℕ → List ℕ
unfolding print_loop
print_u n = print_loop 10 n []

-- `%d` of `snprintf`
abbrev pub print_d : ℤ → List ℕ
print_d (pos n) = print_u n
print_d (negsuc n) = 45 ∷ print_u (suc n)

-- The number that the digits at the front spell, `v` being what has been read before them
unfoldable pub read_digits : ℕ → List ℕ → ℕ
read_digits v [] = v
read_digits v (c ∷ cs) =
    let rest = read_digits (v * 10 + (c - 48)) cs in if is_digit c then rest else v

read_digits-print_loop :
    (fuel n : ℕ) (acc : List ℕ)
    → n < 10 ^ suc fuel
    → read_digits 0 (print_loop (suc fuel) n acc) ≡ read_digits n acc
unfolding read_digits print_loop
read_digits-print_loop zero n acc h = ground arith
read_digits-print_loop (suc fuel) n acc h =
    ground (arith, read_digits-print_loop fuel (n / 10) (digit n ∷ acc) (omega arith))

pub read_digits-print_u : (n : ℕ) → n < 2 ^ 32 → read_digits 0 (print_u n) ≡ n
unfolding print_u read_digits
read_digits-print_u n h = read_digits-print_loop 9 n [] (omega arith)

-- What is printed are one to ten digits.
abbrev pub AreDigits : List ℕ → Type 0
AreDigits = All (λ c. is_digit c ≡ true)

if-AreDigits :
    (c : Bool) (xs ys : List ℕ) → AreDigits xs → AreDigits ys → AreDigits (if c then xs else ys)
if-AreDigits true xs ys h k = h
if-AreDigits false xs ys h k = k

print_loop-AreDigits :
    (fuel n : ℕ) (acc : List ℕ) → AreDigits acc → AreDigits (print_loop fuel n acc)
unfolding print_loop
print_loop-AreDigits zero n acc h = h
print_loop-AreDigits (suc fuel) n acc h =
    let d : is_digit (digit n) ≡ true = ground arith in
    let k = print_loop-AreDigits fuel (n / 10) (digit n ∷ acc) (d, h) in
    if-AreDigits (n / 10 == 0) _ _ (d, h) k

length-print_loop :
    (fuel n : ℕ) (acc : List ℕ)
    → (length acc < length (print_loop (suc fuel) n acc))
      × (length (print_loop (suc fuel) n acc) ≤ suc fuel + length acc)
unfolding print_loop
length-print_loop zero n acc = ground arith
length-print_loop (suc fuel) n acc = ground (arith, length-print_loop fuel (n / 10) (digit n ∷ acc))

pub print_u-AreDigits : (n : ℕ) → AreDigits (print_u n)
unfolding print_u
print_u-AreDigits n = print_loop-AreDigits 10 n [] tt

pub length-print_u : (n : ℕ) → (0 < length (print_u n)) × (length (print_u n) ≤ 10)
unfolding print_u
length-print_u n = length-print_loop 9 n []
