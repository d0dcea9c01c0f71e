-- ===== src/Acp/Packet/ReadTexts.antt =====
-- lib/acp/main.c: `acp_dataToS1List`, which reads the rows of the data into a list of strings.
use mathlib.Core.Path.{subst}
use regonf.Prelude.{
  ℕ, zero, suc, ◌+◌, ◌<◌, ◌≡◌, refl, sym, ap, ◌∙◌, Option, none, some, List, [], ◌∷◌, ◌++◌, arith,
  ◌==◌, if◌then◌else◌, All, All-append, length, map, take, take_all, append_assoc, length-append,
}
use regonf.Acp.Packet.{delimiter_row}
use regonf.Acp.Packet.Check.{IsBlock}
use regonf.Acp.Packet.Request.{concat}
use regonf.Acp.Packet.Rows.{line_size, row_s1}
use regonf.Acp.Packet.ReadRows.{buf_next_row}
use regonf.Acp.Packet.ReadRowsTrip.{IsLine, buf_next_row-line}

-- How the reading of a row ends: at the end of the data, at the end of the row, or with an array that
-- is full and has no terminator
pub data LineEnd : Type 0 where
  at_end : LineEnd
  at_row : List ℕ → List ℕ → LineEnd
  too_long : LineEnd

abbrev pub put_char : ℕ → LineEnd → LineEnd
put_char c at_end = at_end
put_char c (at_row s rest) = at_row (c ∷ s) rest
put_char c too_long = too_long

-- The inner loop, with the room that is left in the array
unfoldable pub read_line : ℕ → List ℕ → LineEnd
read_line zero buf = too_long
read_line (suc room) [] = at_end
read_line (suc room) (c ∷ cs) =
    let rest = read_line room cs in
    if c == delimiter_row then at_row [] (c ∷ cs) else put_char c rest

abbrev pub put_text : List ℕ → Option (List (List ℕ)) → Option (List (List ℕ))
put_text s none = none
put_text s (some list) = some (s ∷ list)

-- `acp_dataToS1List` on the string in the data; `none` is a read past an array
unfoldable pub data_to_s1_list : ℕ → List ℕ → Option (List (List ℕ))
unfolding read_line buf_next_row
data_to_s1_list zero buf = some []
data_to_s1_list (suc room) buf = elim (read_line line_size buf) [
  | at_end ↦ some []
  | at_row s rest ↦ put_text s (data_to_s1_list room (buf_next_row rest))
  | too_long ↦ none
]

read_line-line :
    (room : ℕ) (s rest : List ℕ)
    → IsLine s
    → length s < room
    → read_line room (s ++ delimiter_row ∷ rest) ≡ at_row s (delimiter_row ∷ rest)
unfolding read_line
read_line-line zero s rest h l = ground arith
read_line-line (suc room) [] rest h l = refl
read_line-line (suc room) (c ∷ s) rest h l =
    ground (arith, h.0, read_line-line room s rest h.1 (omega arith))

-- A string that is sent as it is
abbrev pub FitsLine : List ℕ → Type 0
FitsLine s = IsLine s × IsBlock s × (length s + 1 < line_size)

row_s1-whole : (s rest : List ℕ) → FitsLine s → row_s1 s ++ rest ≡ s ++ delimiter_row ∷ rest
row_s1-whole s rest h =
    ap (λ t. t ++ rest)
      (take_all 255 (s ++ delimiter_row ∷ [])
        (omega (arith, h.2, length-append s (delimiter_row ∷ []))))
    ∙ append_assoc s (delimiter_row ∷ []) rest

texts-IsBlock : (list : List (List ℕ)) → All FitsLine list → IsBlock (concat (map row_s1 list))
texts-IsBlock [] h = tt
texts-IsBlock (s ∷ list) h =
    subst IsBlock (sym (row_s1-whole s (concat (map row_s1 list)) h.0))
      (All-append _ s _ h.0.1 (omega arith, texts-IsBlock list h.1))

-- Strings of one row, with room for it in a line and without a delimiter of blocks, are read as they
-- were sent, up to the room in the list, and no array is left.
pub data_to_s1_list-concat :
    (n : ℕ) (list : List (List ℕ))
    → All FitsLine list
    → data_to_s1_list n (concat (map row_s1 list)) ≡ some (take n list)
unfolding data_to_s1_list
data_to_s1_list-concat zero list h = refl
data_to_s1_list-concat (suc n) [] h = ground arith
data_to_s1_list-concat (suc n) (s ∷ list) h =
    let rest = concat (map row_s1 list) in
    ap
      (λ o. elim o as (λ _. Option (List (List ℕ))) [
        | at_end ↦ some []
        | at_row s rest ↦ put_text s (data_to_s1_list n (buf_next_row rest))
        | too_long ↦ none
      ])
      (ap (read_line line_size) (row_s1-whole s rest h.0)
        ∙ read_line-line line_size s rest h.0.0 (omega (arith, h.0.2)))
    ∙ ap (λ t. put_text s (data_to_s1_list n t))
        (buf_next_row-line [] rest tt (texts-IsBlock list h.1))
    ∙ ap (put_text s) (data_to_s1_list-concat n list h.1)
