-- ===== src/Acp/Packet/ReadRows.antt =====
-- lib/acp/main.c: the functions `acp_dataTo…List`, which read the rows of the data of a packet into
-- a list of a type, and `acp_bufnrow`. A list is what the first `length` items of the source's array
-- are; `max_length` is the room in the array.
use regonf.Prelude.{ℕ, zero, suc, Option, none, some, List, [], ◌∷◌, ◌==◌, if◌then◌else◌}
use regonf.Prelude.Int.{ℤ}
use regonf.CString.Buffer.{c_str}
use regonf.CString.Scanf.{scan_d, scan_u, skip_space}
use regonf.Acp.{Fts}
use regonf.Acp.Packet.{delimiter_row, delimiter_block}

-- At the delimiter of blocks the data end.
abbrev pub stop_at_block : List ℕ → List ℕ
stop_at_block [] = []
stop_at_block (b ∷ bs) = if b == delimiter_block then [] else b ∷ bs

-- `acp_bufnrow`: what follows the first delimiter of rows
unfoldable pub buf_next_row : List ℕ → List ℕ
buf_next_row [] = []
buf_next_row (b ∷ bs) =
    let rest = buf_next_row bs in if b == delimiter_row then stop_at_block bs else rest

-- The loop that the functions have in common, with the reading of one row
unfoldable pub data_to_list : {A : Type 0} → (List ℕ → Option A) → ℕ → List ℕ → List A
unfolding buf_next_row
data_to_list row zero buf = []
data_to_list row (suc room) buf = elim (row buf) [
  | none ↦ []
  | some item ↦ item ∷ data_to_list row room (buf_next_row buf)
]

-- The conversions of a format, one after the other. Between them stands the delimiter of columns, a
-- tab, which in a format is any white space, or none: the end of a row as well.
abbrev pub Reading : Type 0 → Type 0
Reading A = Option (A × List ℕ)

abbrev pub then_column : {A B : Type 0} → Reading A → (List ℕ → Reading B) → Reading (A × B)
then_column none next = none
then_column (some (a, rest)) next = elim (next (skip_space rest)) [
  | none ↦ none
  | some (b, rest2) ↦ some ((a, b), rest2)
]

abbrev pub read_value : {A : Type 0} → Reading A → Option A
read_value none = none
read_value (some (a, rest)) = some a

unfoldable pub scan_i1 : List ℕ → Option ℤ
unfolding scan_d
scan_i1 buf = read_value (scan_d buf)

unfoldable pub scan_i2 : List ℕ → Option (ℤ × ℤ)
unfolding scan_d skip_space
scan_i2 buf = read_value (then_column (scan_d buf) scan_d)

unfoldable pub scan_i3 : List ℕ → Option ((ℤ × ℤ) × ℤ)
unfolding scan_d skip_space
scan_i3 buf = read_value (then_column (then_column (scan_d buf) scan_d) scan_d)

unfoldable pub scan_i1u32 : List ℕ → Option (ℤ × ℕ)
unfolding scan_d scan_u skip_space
scan_i1u32 buf = read_value (then_column (scan_d buf) scan_u)

-- `acp_dataToI1List`, and so on; `data` is the array of the request or of the response.
abbrev pub data_to_i1_list : ℕ → List ℕ → List ℤ
data_to_i1_list max_length bytes = data_to_list scan_i1 max_length (c_str bytes)

abbrev pub data_to_i2_list : ℕ → List ℕ → List (ℤ × ℤ)
data_to_i2_list max_length bytes = data_to_list scan_i2 max_length (c_str bytes)

abbrev pub data_to_i3_list : ℕ → List ℕ → List ((ℤ × ℤ) × ℤ)
data_to_i3_list max_length bytes = data_to_list scan_i3 max_length (c_str bytes)

abbrev pub data_to_i1u32_list : ℕ → List ℕ → List (ℤ × ℕ)
data_to_i1u32_list max_length bytes = data_to_list scan_i1u32 max_length (c_str bytes)

-- `%f` and what `%.3f` prints, in C's library
pub record FloatText (F : Type 0) : Type 0 where
  pub scan_f : List ℕ → Option (F × List ℕ)
  pub print_f : F → List ℕ

abbrev pub fts_of : {F : Type 0} → Reading ((((ℤ × F) × ℤ) × ℤ) × ℤ) → Option (Fts F)
fts_of none = none
fts_of (some (((((id, value), sec), nsec), state), rest)) =
    some (record {
      id = id;
      value = value;
      tm = record { tv_sec = sec; tv_nsec = nsec };
      state = state;
    })

module _ {F : Type 0} (text : FloatText F) where
  unfoldable pub scan_f1 : List ℕ → Option F
  scan_f1 buf = read_value (text.scan_f buf)

  unfoldable pub scan_i1f1 : List ℕ → Option (ℤ × F)
  unfolding scan_d skip_space
  scan_i1f1 buf = read_value (then_column (scan_d buf) text.scan_f)

  -- id, value, seconds, nanoseconds and state
  unfoldable pub scan_fts : List ℕ → Option (Fts F)
  unfolding scan_d skip_space
  scan_fts buf = fts_of (
      then_column (then_column (then_column (then_column (scan_d buf) text.scan_f) scan_d) scan_d)
        scan_d)

  abbrev pub data_to_f1_list : ℕ → List ℕ → List F
  data_to_f1_list max_length bytes = data_to_list scan_f1 max_length (c_str bytes)

  abbrev pub data_to_i1f1_list : ℕ → List ℕ → List (ℤ × F)
  data_to_i1f1_list max_length bytes = data_to_list scan_i1f1 max_length (c_str bytes)

  abbrev pub data_to_fts_list : ℕ → List ℕ → List (Fts F)
  data_to_fts_list max_length bytes = data_to_list scan_fts max_length (c_str bytes)
