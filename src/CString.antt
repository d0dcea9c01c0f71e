-- ===== src/CString.antt =====
-- C strings as lists of bytes without the terminator, and the tests of <string.h> on them.
pub mod Buffer
pub mod Decimal
pub mod Scanf
use Prim.Native.Char.{code}
use Prim.Native.String.{String}
use regonf.Prelude.{ℕ, zero, suc, ◌≡◌, refl, Bool, true, false, ◌&&◌, List, [], ◌∷◌, arith, ◌==◌}

-- The bytes of an ASCII literal
abbrev pub codes : String → List ℕ
codes String.[] = []
codes (String.◌∷◌ c s) = code c ∷ codes s

-- `strcmp(a, b) == 0`
unfoldable pub str_eq : List ℕ → List ℕ → Bool
str_eq [] [] = true
str_eq [] (y ∷ ys) = false
str_eq (x ∷ xs) [] = false
str_eq (x ∷ xs) (y ∷ ys) = (x == y) && str_eq xs ys

-- `strncmp(a, b, n) == 0`
unfoldable pub str_n_eq : ℕ → List ℕ → List ℕ → Bool
str_n_eq zero xs ys = true
str_n_eq (suc n) [] [] = true
str_n_eq (suc n) [] (y ∷ ys) = false
str_n_eq (suc n) (x ∷ xs) [] = false
str_n_eq (suc n) (x ∷ xs) (y ∷ ys) = (x == y) && str_n_eq n xs ys

pub str_eq_refl : (xs : List ℕ) → str_eq xs xs ≡ true
unfolding str_eq
str_eq_refl [] = refl
str_eq_refl (x ∷ xs) = ground (arith, str_eq_refl xs)

pub eq_of_str_eq : (xs ys : List ℕ) → str_eq xs ys ≡ true → xs ≡ ys
unfolding str_eq
eq_of_str_eq [] [] h = refl
eq_of_str_eq [] (y ∷ ys) h = cc
eq_of_str_eq (x ∷ xs) [] h = cc
eq_of_str_eq (x ∷ xs) (y ∷ ys) h = ground (arith, eq_of_str_eq xs ys)
