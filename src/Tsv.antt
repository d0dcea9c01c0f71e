-- ===== src/Tsv.antt =====
-- lib/tsv.h and lib/tsv.c: tables in text files, with tabs between the cells of a row. A file is the
-- list of its bytes, and a pointer into `buf` an index; `malloc` is taken to succeed.
pub mod Getters
pub mod Pointers
pub mod Scan
pub mod Trip
pub mod Lengths
pub mod RoundTrip
pub mod ReadBack
pub mod Init
pub mod Cells
pub mod ByName
mod Tests
use regonf.Prelude.{
  ℕ, zero, suc, ◌+◌, ◌*◌, ◌/◌, Bool, true, false, ◌||◌, Option, none, some, List, [], ◌∷◌, ◌==◌,
  ltb, leb, if◌then◌else◌, get_elem?, length, map, replicate, set,
}
use regonf.CString.{str_eq}
use regonf.CString.Buffer.{c_str, drop}

pub record TsvResult : Type 0 where
  pub buf : List ℕ
  pub column_name : List (Option ℕ)
  pub data_cells : List (Option ℕ)
  pub null_returned : Bool

abbrev pub is_tab : ℕ → Bool
is_tab c = c == 9

abbrev pub is_feed : ℕ → Bool
is_feed c = c == 10

-- `getColumnNameLength`
unfoldable pub get_column_name_length : List ℕ → ℕ
get_column_name_length [] = 0
get_column_name_length (c ∷ cs) =
    let rest = get_column_name_length cs in
    if is_feed c then 1 else if is_tab c then suc rest else rest

-- TSV_SKIP_LINE
unfoldable pub skip_line : List ℕ → List ℕ
skip_line [] = []
skip_line (c ∷ cs) = let rest = skip_line cs in if is_feed c then cs else rest

unfoldable pub count_delimiters : List ℕ → ℕ
count_delimiters [] = 0
count_delimiters (c ∷ cs) =
    let rest = count_delimiters cs in if is_tab c || is_feed c then suc rest else rest

-- `getDataLength`
unfoldable pub get_data_length : List ℕ → ℕ
unfolding skip_line count_delimiters
get_data_length file = count_delimiters (skip_line file)

-- The variables of the loop of `parse`; `in_rows` is the state 1
pub record TsvScan : Type 0 where
  pub column_name : List (Option ℕ)
  pub data_cells : List (Option ℕ)
  pub in_rows : Bool
  pub i : ℕ
  pub j : ℕ
  pub is_set : Bool

-- `if (set) { if (j < length) { j++; } }`
abbrev pub pass_cell : Bool → ℕ → ℕ → ℕ
pass_cell is_set j n = if is_set then (if ltb j n then j + 1 else j) else j

-- The body of the loop in the header, and in the rows
unfoldable pub header_char : ℕ → TsvScan → TsvScan
header_char c s =
    let n = length s.column_name in
    let next = record s { i = s.i + 1 } in
    if is_feed c
    then record next { j = 0; is_set = true; in_rows = true }
    else if is_tab c
    then record next { j = pass_cell s.is_set s.j n; is_set = true }
    else if s.is_set
    then record next {
      column_name = set s.column_name s.j (some s.i);
      j = pass_cell true s.j n;
      is_set = false;
    }
    else next

unfoldable pub row_char : ℕ → TsvScan → TsvScan
row_char c s =
    let n = length s.data_cells in
    let next = record s { i = s.i + 1 } in
    if is_tab c || is_feed c
    then record next { j = pass_cell s.is_set s.j n; is_set = true }
    else if s.is_set
    then record next {
      data_cells = set s.data_cells s.j (some s.i);
      j = pass_cell true s.j n;
      is_set = false;
    }
    else next

unfoldable pub parse_loop : List ℕ → TsvScan → TsvScan
unfolding header_char row_char
parse_loop [] s = s
parse_loop (c ∷ cs) s = parse_loop cs (if s.in_rows then row_char c s else header_char c s)

-- What the loop leaves in `buf`
abbrev pub close_cell : ℕ → ℕ
close_cell c = if is_feed c || is_tab c then 0 else c

abbrev pub empty_scan : List ℕ → TsvScan
empty_scan file = record {
  column_name = replicate (get_column_name_length file) none;
  data_cells = replicate (get_data_length file) none;
  in_rows = false;
  i = 0;
  j = 0;
  is_set = true;
}

-- `parse`, on the arrays that `TSVinit` has cleared
unfoldable pub parse : List ℕ → TsvResult
unfolding parse_loop get_column_name_length get_data_length
parse file =
    let s = parse_loop file (empty_scan file) in
    record {
      buf = map close_cell file;
      column_name = s.column_name;
      data_cells = s.data_cells;
      null_returned = false;
    }

-- `TSVntuples`; `x / 0` is not computed
unfoldable pub ntuples : TsvResult → ℕ
ntuples r = if length r.column_name == 0 then 0 else length r.data_cells / length r.column_name

-- A pointer in an array, or null
abbrev pub at_index : List (Option ℕ) → ℕ → Option ℕ
at_index cells ind = elim (get_elem? cells ind) [ none ↦ none | some p ↦ p ]

-- `TSVgetvalue`
unfoldable pub get_value : TsvResult → ℕ → ℕ → Option ℕ × TsvResult
get_value r row column =
    let ind = length r.column_name * row + column in
    if leb (length r.data_cells) ind
    then (none, record r { null_returned = true })
    else (at_index r.data_cells ind, r)
