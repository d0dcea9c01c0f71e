-- ===== src/Acp/Packet/ReadRowsTrip.antt =====
-- lib/acp/main.c: rows that are printed one after the other are read into the list that was printed.
use regonf.Prelude.{
  ℕ, zero, suc, ◌^◌, ◌<◌, ◌≡◌, ◌≢◌, refl, sym, ap, ◌∙◌, Option, none, some, List, [], ◌∷◌, ◌++◌,
  arith, map, take, All, All-append, append_assoc,
}
use regonf.Prelude.Int.{ℤ, pos, negsuc}
use regonf.CString.Decimal.{print_u, print_d, AreDigits, print_u-AreDigits}
use regonf.CString.Scanf.{
  IsWord, scan_d, scan_u, skip_space, scan_d-space, scan_u-space, scan_d-print_d, scan_u-print_u,
}
use regonf.Acp.Packet.{delimiter_column, delimiter_row}
use regonf.Acp.Packet.Check.{IsBlock}
use regonf.Acp.Packet.Request.{concat}
use regonf.Acp.Packet.Rows.{plain-IsBlock, print_d-IsPlain, row_i1, row_i2, row_i1u32}
use regonf.Acp.Packet.ReadRows.{
  buf_next_row, stop_at_block, data_to_list, scan_i1, scan_i2, scan_i1u32, then_column, read_value,
  Reading,
}

-- No delimiter of rows
abbrev pub IsLine : List ℕ → Type 0
IsLine = All (λ c. c ≢ delimiter_row)

stop_at_block-IsBlock : (s : List ℕ) → IsBlock s → stop_at_block s ≡ s
stop_at_block-IsBlock [] h = refl
stop_at_block-IsBlock (c ∷ s) h = ground (arith, h.0)

pub buf_next_row-line :
    (s rest : List ℕ) → IsLine s → IsBlock rest → buf_next_row (s ++ delimiter_row ∷ rest) ≡ rest
unfolding buf_next_row
buf_next_row-line [] rest h k = stop_at_block-IsBlock rest k
buf_next_row-line (c ∷ s) rest h k = ground (arith, h.0, buf_next_row-line s rest h.1 k)

-- Rows whose values have the property `P`
module _ {A : Type 0} (P : A → Type 0) (row : A → List ℕ) (scan : List ℕ → Option A)
    (scan_nil : scan [] ≡ none)
    (scan_row : (a : A) (rest : List ℕ) → P a → scan (row a ++ rest) ≡ some a)
    (next_row : (a : A) (rest : List ℕ) → P a → IsBlock rest → buf_next_row (row a ++ rest) ≡ rest)
    (row-IsBlock : (a : A) → P a → IsBlock (row a)) where
  concat-IsBlock : (list : List A) → All P list → IsBlock (concat (map row list))
  concat-IsBlock [] h = tt
  concat-IsBlock (a ∷ list) h = All-append _ (row a) _ (row-IsBlock a h.0) (concat-IsBlock list h.1)

  pub data_to_list-concat :
      (n : ℕ) (list : List A)
      → All P list
      → data_to_list scan n (concat (map row list)) ≡ take n list
  unfolding data_to_list
  data_to_list-concat zero list h = refl
  data_to_list-concat (suc n) [] h = ground (arith, scan_nil)
  data_to_list-concat (suc n) (a ∷ list) h =
      let rest = concat (map row list) in
      ap
        (λ o. elim o [
          | none ↦ []
          | some item ↦ item ∷ data_to_list scan n (buf_next_row (row a ++ rest))
        ])
        (scan_row a rest h.0)
      ∙ ap (λ t. a ∷ data_to_list scan n t) (next_row a rest h.0 (concat-IsBlock list h.1))
      ∙ ap (λ t. a ∷ t) (data_to_list-concat n list h.1)

digits-IsLine : (s : List ℕ) → AreDigits s → IsLine s
digits-IsLine [] h = tt
digits-IsLine (c ∷ s) h = (ground (arith, h.0), digits-IsLine s h.1)

pub print_d-IsLine : (v : ℤ) → IsLine (print_d v)
print_d-IsLine (pos n) = digits-IsLine (print_u n) (print_u-AreDigits n)
print_d-IsLine (negsuc n) =
    (omega arith, digits-IsLine (print_u (suc n)) (print_u-AreDigits (suc n)))

-- Two columns and the end of a row
two_assoc :
    (s t rest : List ℕ)
    → (s ++ delimiter_column ∷ (t ++ delimiter_row ∷ [])) ++ rest
      ≡ s ++ delimiter_column ∷ (t ++ delimiter_row ∷ rest)
two_assoc s t rest =
    append_assoc s _ rest
    ∙ ap (λ u. s ++ delimiter_column ∷ u) (append_assoc t (delimiter_row ∷ []) rest)

two-next :
    (s t rest : List ℕ)
    → IsLine s
    → IsLine t
    → IsBlock rest
    → buf_next_row ((s ++ delimiter_column ∷ (t ++ delimiter_row ∷ [])) ++ rest) ≡ rest
two-next s t rest hs ht hr =
    ap buf_next_row
      (two_assoc s t rest ∙ sym (append_assoc s (delimiter_column ∷ t) (delimiter_row ∷ rest)))
    ∙ buf_next_row-line (s ++ delimiter_column ∷ t) rest (All-append _ s _ hs (omega arith, ht)) hr

-- A value, the delimiter, and what the next conversion reads
pub column_lem :
    {A B : Type 0} {a : A} {b : B} {first : Reading A} {s rest : List ℕ} (next : List ℕ → Reading B)
    → first ≡ some (a, delimiter_column ∷ s)
    → next (skip_space (delimiter_column ∷ s)) ≡ some (b, rest)
    → then_column first next ≡ some ((a, b), rest)
column_lem {a = a} next e f =
    ap (λ o. then_column o next) e
    ∙ ap (λ o. elim o [ none ↦ none | some (b, rest2) ↦ some ((a, b), rest2) ]) f

two-columns :
    {A B : Type 0} {a : A} {b : B} {first : Reading A} {s rest : List ℕ} (next : List ℕ → Reading B)
    → first ≡ some (a, delimiter_column ∷ s)
    → next (skip_space (delimiter_column ∷ s)) ≡ some (b, rest)
    → read_value (then_column first next) ≡ some (a, b)
two-columns next e f = ap read_value (column_lem next e f)

scan_i2-row_i2 :
    (a : ℤ × ℤ) (rest : List ℕ) → IsWord a.0 × IsWord a.1 → scan_i2 (row_i2 a ++ rest) ≡ some a
unfolding scan_i2 skip_space
scan_i2-row_i2 (a, b) rest h =
    ap scan_i2 (two_assoc (print_d a) (print_d b) rest)
    ∙ two-columns scan_d
        (scan_d-print_d a delimiter_column (print_d b ++ delimiter_row ∷ rest) h.0 refl)
        (scan_d-space (print_d b ++ delimiter_row ∷ rest)
          ∙ scan_d-print_d b delimiter_row rest h.1 refl)

two-IsBlock :
    (s t : List ℕ)
    → IsBlock s
    → IsBlock t
    → IsBlock (s ++ delimiter_column ∷ (t ++ delimiter_row ∷ []))
two-IsBlock s t hs ht = All-append _ s _ hs (omega arith, All-append _ t _ ht (omega arith, tt))

print_d-IsBlock : (v : ℤ) → IsBlock (print_d v)
print_d-IsBlock v = plain-IsBlock (print_d v) (print_d-IsPlain v)

-- Rows of two integers of 32 bits and a sign are read as the pairs that were printed, up to the room.
pub data_to_i2-concat :
    (n : ℕ) (list : List (ℤ × ℤ))
    → All (λ a. IsWord a.0 × IsWord a.1) list
    → data_to_list scan_i2 n (concat (map row_i2 list)) ≡ take n list
unfolding scan_i2
data_to_i2-concat n list h =
    data_to_list-concat (λ a. IsWord a.0 × IsWord a.1) row_i2 scan_i2 refl scan_i2-row_i2
      (λ (a, b) rest k. two-next (print_d a) (print_d b) rest (print_d-IsLine a) (print_d-IsLine b))
      (λ (a, b) k. two-IsBlock (print_d a) (print_d b) (print_d-IsBlock a) (print_d-IsBlock b)) n
      list h

-- So are rows of an integer and an unsigned one, which set the timers of the regulators.
pub data_to_i1u32-concat :
    (n : ℕ) (list : List (ℤ × ℕ))
    → All (λ a. IsWord a.0 × (a.1 < 2 ^ 32)) list
    → data_to_list scan_i1u32 n (concat (map row_i1u32 list)) ≡ take n list
unfolding scan_i1u32 skip_space scan_u
data_to_i1u32-concat n list h =
    data_to_list-concat (λ a. IsWord a.0 × (a.1 < 2 ^ 32)) row_i1u32 scan_i1u32 refl scan_row
      (λ (a, b) rest k.
        two-next (print_d a) (print_u b) rest (print_d-IsLine a) (print_d-IsLine (pos b)))
      (λ (a, b) k.
        two-IsBlock (print_d a) (print_u b) (print_d-IsBlock a) (print_d-IsBlock (pos b)))
      n list h
  where
    scan_row :
        (a : ℤ × ℕ) (rest : List ℕ)
        → IsWord a.0 × (a.1 < 2 ^ 32)
        → scan_i1u32 (row_i1u32 a ++ rest) ≡ some a
    scan_row (a, b) rest h =
        ap scan_i1u32 (two_assoc (print_d a) (print_u b) rest)
        ∙ two-columns scan_u
            (scan_d-print_d a delimiter_column (print_u b ++ delimiter_row ∷ rest) h.0 refl)
            (scan_u-space (print_u b ++ delimiter_row ∷ rest)
              ∙ scan_u-print_u b delimiter_row rest h.1 refl)

-- So are rows of one integer, which name the programs that a command is about.
pub data_to_i1-concat :
    (n : ℕ) (list : List ℤ)
    → All IsWord list
    → data_to_list scan_i1 n (concat (map row_i1 list)) ≡ take n list
unfolding scan_i1
data_to_i1-concat n list h =
    data_to_list-concat IsWord row_i1 scan_i1 refl
      (λ a rest k.
        ap scan_i1 (append_assoc (print_d a) (delimiter_row ∷ []) rest)
        ∙ ground (arith, scan_d-print_d a delimiter_row rest k refl))
      (λ a rest k hr.
        ap buf_next_row (append_assoc (print_d a) (delimiter_row ∷ []) rest)
        ∙ buf_next_row-line (print_d a) rest (print_d-IsLine a) hr)
      (λ a k. All-append _ (print_d a) _ (print_d-IsBlock a) (omega arith, tt)) n list h
