-- ===== src/CString/Buffer.antt =====
-- Character arrays: the strings in them, and what `strcpy`, `strcat`, `snprintf` and `strncpy` do.
-- An array is the list of all its bytes. A string that does not fit makes the list longer, which
-- stands for a write past the end of the array.
use regonf.Prelude.{
  ℕ, zero, suc, ◌-◌, ◌<◌, ◌≤◌, ◌≡◌, refl, ap, ◌∙◌, Option, none, some, List, [], ◌∷◌, ◌++◌, arith,
  All, length, take, replicate, set,
}

-- The string at the start of an array
unfoldable pub c_str : List ℕ → List ℕ
c_str [] = []
c_str (zero ∷ bs) = []
c_str (suc b ∷ bs) = suc b ∷ c_str bs

-- `strlen`, or `none` where the array has no terminator and the source reads past its end
unfoldable pub strlen : List ℕ → Option ℕ
strlen [] = none
strlen (zero ∷ bs) = some 0
strlen (suc b ∷ bs) = elim (strlen bs) [ none ↦ none | some n ↦ some (suc n) ]

unfoldable pub drop : ℕ → List ℕ → List ℕ
drop zero bs = bs
drop (suc n) [] = []
drop (suc n) (b ∷ bs) = drop n bs

unfoldable pub strcpy : List ℕ → List ℕ → List ℕ
strcpy buf s = s ++ 0 ∷ drop (suc (length s)) buf

unfoldable pub strcat : List ℕ → List ℕ → List ℕ
unfolding strcpy
strcat buf s = strcpy buf (c_str buf ++ s)

unfoldable pub snprintf : List ℕ → ℕ → List ℕ → List ℕ
unfolding strcpy
snprintf buf size s = strcpy buf (take (size - 1) s)

unfoldable pub strncpy : List ℕ → ℕ → List ℕ
strncpy s size = take size s ++ replicate (size - length s) 0

-- Bytes written one after the other from an index on
unfoldable pub write_all : List ℕ → ℕ → List ℕ → List ℕ
write_all buf j [] = buf
write_all buf j (x ∷ xs) = write_all (set buf j x) (suc j) xs

-- A string has no NUL in it.
abbrev pub IsText : List ℕ → Type 0
IsText = All (λ b. 0 < b)

pub c_str-append : (s rest : List ℕ) → IsText s → c_str (s ++ rest) ≡ s ++ c_str rest
unfolding c_str
c_str-append [] rest h = refl
c_str-append (zero ∷ s) rest h = ground arith
c_str-append (suc b ∷ s) rest h = ap (λ t. suc b ∷ t) (c_str-append s rest h.1)

pub strlen-append : (s rest : List ℕ) → IsText s → strlen (s ++ 0 ∷ rest) ≡ some (length s)
unfolding strlen
strlen-append [] rest h = refl
strlen-append (zero ∷ s) rest h = ground arith
strlen-append (suc b ∷ s) rest h = ground (arith, strlen-append s rest h.1)

pub drop-replicate : (n m : ℕ) → drop n (replicate m 0) ≡ replicate (m - n) 0
unfolding drop
drop-replicate zero m = ap (λ k. replicate k 0) (omega arith)
drop-replicate (suc n) zero = ap (λ k. replicate k 0) {x = 0} {y = 0 - suc n} (omega arith)
drop-replicate (suc n) (suc m) =
    drop-replicate n m ∙ ap (λ k. replicate k 0) {x = m - n} {y = suc m - suc n} (omega arith)

write_all-cons :
    (xs buf : List ℕ) (j x : ℕ) → write_all (x ∷ buf) (suc j) xs ≡ x ∷ write_all buf j xs
unfolding write_all
write_all-cons [] buf j x = refl
write_all-cons (y ∷ xs) buf j x = write_all-cons xs (set buf j y) (suc j) x

-- Written from the start, the bytes are in front of what the array had after them.
pub write_all-front :
    (xs buf : List ℕ) → length xs ≤ length buf → write_all buf 0 xs ≡ xs ++ drop (length xs) buf
unfolding write_all drop
write_all-front [] buf h = refl
write_all-front (x ∷ xs) [] h = ground arith
write_all-front (x ∷ xs) (b ∷ buf) h =
    write_all-cons xs buf 0 x ∙ ap (λ t. x ∷ t) (write_all-front xs buf (omega arith))
