-- ===== src/CString/Scanf.antt =====
-- What the conversions `%d` and `%u` of `sscanf` read. An integer that does not fit its type, which
-- C leaves undefined, is read as it is written.
use regonf.Prelude.{
  ℕ, zero, suc, ◌+◌, ◌-◌, ◌*◌, ◌%◌, ◌^◌, ◌<◌, ◌≡◌, refl, ap, ◌∙◌, Bool, false, ◌&&◌, ◌||◌, Option,
  none, some, List, [], ◌∷◌, ◌++◌, arith, ◌==◌, leb, if◌then◌else◌, length,
}
use regonf.Prelude.Int.{ℤ, pos, negsuc}
use regonf.CString.Decimal.{
  print_u, print_d, is_digit, read_digits, AreDigits, print_u-AreDigits, length-print_u,
  read_digits-print_u,
}

-- `isspace`
abbrev pub is_space : ℕ → Bool
is_space c = c == 32 || (leb 9 c && leb c 13)

unfoldable pub skip_space : List ℕ → List ℕ
skip_space [] = []
skip_space (c ∷ cs) = let rest = skip_space cs in if is_space c then rest else c ∷ cs

-- The digits at the front, and what follows them
unfoldable pub take_digits : ℕ → List ℕ → ℕ × List ℕ
take_digits v [] = (v, [])
take_digits v (c ∷ cs) =
    let rest = take_digits (v * 10 + (c - 48)) cs in if is_digit c then rest else (v, c ∷ cs)

-- One digit is needed.
unfoldable pub scan_digits : List ℕ → Option (ℕ × List ℕ)
unfolding take_digits
scan_digits [] = none
scan_digits (c ∷ cs) = if is_digit c then some (take_digits 0 (c ∷ cs)) else none

abbrev pub negate : ℕ → ℤ
negate zero = pos 0
negate (suc n) = negsuc n

abbrev pub signed : (ℕ → ℤ) → Option (ℕ × List ℕ) → Option (ℤ × List ℕ)
signed f none = none
signed f (some (n, rest)) = some (f n, rest)

-- An optional sign and digits
unfoldable pub scan_integer : List ℕ → Option (ℤ × List ℕ)
unfolding scan_digits
scan_integer [] = none
scan_integer (c ∷ cs) =
    if c == 45
    then signed negate (scan_digits cs)
    else if c == 43
    then signed pos (scan_digits cs)
    else signed pos (scan_digits (c ∷ cs))

-- `%d`, and `%ld`
unfoldable pub scan_d : List ℕ → Option (ℤ × List ℕ)
unfolding scan_integer skip_space
scan_d s = scan_integer (skip_space s)

-- An integer in an `unsigned int`
abbrev pub unsigned_of : ℤ → ℕ
unsigned_of (pos n) = n % 2 ^ 32
unsigned_of (negsuc n) = 2 ^ 32 - 1 - n % 2 ^ 32

-- `%u`, which accepts a sign as well
unfoldable pub scan_u : List ℕ → Option (ℕ × List ℕ)
unfolding scan_d
scan_u s = elim (scan_d s) [ none ↦ none | some (v, rest) ↦ some (unsigned_of v, rest) ]

take_digits-append :
    (v : ℕ) (ds : List ℕ) (c : ℕ) (rest : List ℕ)
    → AreDigits ds
    → is_digit c ≡ false
    → take_digits v (ds ++ c ∷ rest) ≡ (read_digits v ds, c ∷ rest)
unfolding take_digits read_digits
take_digits-append v [] c rest h e = ground (arith, e)
take_digits-append v (d ∷ ds) c rest h e =
    ground (arith, h.0, take_digits-append (v * 10 + (d - 48)) ds c rest h.1 e)

scan_digits-append :
    (ds : List ℕ) (c : ℕ) (rest : List ℕ)
    → AreDigits ds
    → 0 < length ds
    → is_digit c ≡ false
    → scan_digits (ds ++ c ∷ rest) ≡ some (read_digits 0 ds, c ∷ rest)
unfolding scan_digits
scan_digits-append [] c rest h l e = ground arith
scan_digits-append (d ∷ ds) c rest h l e =
    ground (arith, h.0, take_digits-append 0 (d ∷ ds) c rest h e)

pub scan_digits-print_u :
    (n c : ℕ) (rest : List ℕ)
    → n < 2 ^ 32
    → is_digit c ≡ false
    → scan_digits (print_u n ++ c ∷ rest) ≡ some (n, c ∷ rest)
scan_digits-print_u n c rest l e =
    scan_digits-append (print_u n) c rest (print_u-AreDigits n) (omega (arith, length-print_u n)) e
    ∙ ap (λ k. some (k, c ∷ rest)) (read_digits-print_u n l)

-- Digits are read without a sign.
scan_d-digits :
    (ds rest : List ℕ)
    → AreDigits ds
    → 0 < length ds
    → scan_d (ds ++ rest) ≡ signed pos (scan_digits (ds ++ rest))
unfolding scan_d scan_integer skip_space
scan_d-digits [] rest h l = ground arith
scan_d-digits (d ∷ ds) rest h l = ground (arith, h.0)

-- An integer of 32 bits and a sign
abbrev pub IsWord : ℤ → Type 0
IsWord (pos n) = n < 2 ^ 32
IsWord (negsuc n) = suc n < 2 ^ 32

-- What `%d` prints is read by `%d`, up to a character that is not a digit.
pub scan_d-print_d :
    (v : ℤ) (c : ℕ) (rest : List ℕ)
    → IsWord v
    → is_digit c ≡ false
    → scan_d (print_d v ++ c ∷ rest) ≡ some (v, c ∷ rest)
unfolding scan_d scan_integer skip_space
scan_d-print_d (pos n) c rest l e =
    scan_d-digits (print_u n) (c ∷ rest) (print_u-AreDigits n) (omega (arith, length-print_u n))
    ∙ ap (signed pos) (scan_digits-print_u n c rest l e)
scan_d-print_d (negsuc n) c rest l e = ap (signed negate) (scan_digits-print_u (suc n) c rest l e)

pub scan_u-print_u :
    (n c : ℕ) (rest : List ℕ)
    → n < 2 ^ 32
    → is_digit c ≡ false
    → scan_u (print_u n ++ c ∷ rest) ≡ some (n, c ∷ rest)
unfolding scan_u
scan_u-print_u n c rest l e = ground (arith, scan_d-print_d (pos n) c rest l e)

pub skip_space_idem : (s : List ℕ) → skip_space (skip_space s) ≡ skip_space s
unfolding skip_space
skip_space_idem [] = refl
skip_space_idem (c ∷ s) = ground (arith, skip_space_idem s)

-- White space before a number is of no account.
pub scan_d-space : (s : List ℕ) → scan_d (skip_space (9 ∷ s)) ≡ scan_d s
unfolding scan_d skip_space
scan_d-space s = ap scan_integer (skip_space_idem s)

pub scan_u-space : (s : List ℕ) → scan_u (skip_space (9 ∷ s)) ≡ scan_u s
unfolding scan_u
scan_u-space s =
    ap (λ o. elim o [ none ↦ none | some (v, rest) ↦ some (unsigned_of v, rest) ]) (scan_d-space s)
