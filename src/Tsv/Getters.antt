-- ===== src/Tsv/Getters.antt =====
-- lib/tsv.c: `TSVinit`, which reads a table and checks that it has no empty cell, and the functions
-- that read its cells. `atoi` and `atof` are parameters.
use regonf.Prelude.{
  ℕ, zero, suc, ◌+◌, ◌*◌, Bool, true, false, Option, none, some, List, [], ◌∷◌, ◌==◌, leb,
  if◌then◌else◌, length, replicate,
}
use regonf.CString.{str_eq}
use regonf.CString.Buffer.{c_str, drop}
use regonf.Tsv.{
  TsvResult, parse, ntuples, get_value, at_index, get_column_name_length, get_data_length,
}

-- TSVRESULT_INITIALIZER, and what `TSVclear` leaves
abbrev pub tsv_result_initializer : TsvResult
tsv_result_initializer = record {
  buf = [];
  column_name = [];
  data_cells = [];
  null_returned = false;
}

unfoldable pub clear : TsvResult → TsvResult
clear r = tsv_result_initializer

-- The string that a pointer into `buf` leads to
abbrev pub text_of : TsvResult → ℕ → List ℕ
text_of r p = c_str (drop p r.buf)

-- The loops of `TSVcheck`, over `n` columns from `column` on, and over `n` rows from `row` on
unfoldable pub check_columns : (n row column : ℕ) → TsvResult → Bool × TsvResult
unfolding get_value
check_columns zero row column r = (true, r)
check_columns (suc n) row column r =
    let (v, r1) = get_value r row column in
    let rest = check_columns n row (column + 1) r1 in
    elim v as (λ _. Bool × TsvResult) [ none ↦ (false, r1) | some p ↦ rest ]

unfoldable pub check_rows : (n row : ℕ) → TsvResult → Bool × TsvResult
unfolding check_columns
check_rows zero row r = (true, r)
check_rows (suc n) row r =
    let (fine, r1) = check_columns (length r.column_name) row 0 r in
    let rest = check_rows n (row + 1) r1 in if fine then rest else (false, r1)

-- `TSVcheck`
unfoldable pub check : TsvResult → Bool × TsvResult
unfolding check_rows ntuples
check r = check_rows (ntuples r) 0 r

-- `TSVinit`; a file that cannot be opened is `none`. Where the file has no byte, or no delimiter after
-- its first line, the arrays made so far stay.
unfoldable pub init : TsvResult → Option (List ℕ) → Bool × TsvResult
unfolding check parse get_column_name_length get_data_length
init r none = (false, r)
init r (some file) =
    let names = get_column_name_length file in
    let r1 = record r { buf = replicate (length file) 0 } in
    let r2 = record r1 { column_name = replicate names none } in
    if length file == 0
    then (false, r)
    else if names == 0
    then (false, r1)
    else if get_data_length file == 0
    then (false, r2)
    else check (record (parse file) { null_returned = r.null_returned })

-- The loop of `TSVgetvalues` over the names of the columns: `none` where the source compares with a null
-- pointer, else the index of the column if there is one
unfoldable pub find_column : TsvResult → List ℕ → List (Option ℕ) → ℕ → Option (Option ℕ)
find_column r name [] i = some none
find_column r name (none ∷ ps) i = none
find_column r name (some p ∷ ps) i =
    let rest = find_column r name ps (i + 1) in
    if str_eq name (text_of r p) then some (some i) else rest

-- `TSVgetvalues`, by the name of the column
unfoldable pub get_values : TsvResult → ℕ → List ℕ → Option (Option ℕ × TsvResult)
unfolding find_column
get_values r row name =
    elim (find_column r name r.column_name 0) as (λ _. Option (Option ℕ × TsvResult)) [
      | none ↦ none
      | some none ↦ some (none, record r { null_returned = true })
      | some (some i) ↦
          let ind = length r.column_name * row + i in
          if leb (length r.data_cells) ind
          then some (none, record r { null_returned = true })
          else some (at_index r.data_cells ind, r)
    ]

module _ {N : Type 0} (zero_n : N) (of_text : List ℕ → N) where
  -- `TSVgeti` and `TSVgetf`, and `TSVgetis` and `TSVgetfs`: a cell as a number
  abbrev number_of : TsvResult → Option ℕ → N
  number_of r none = zero_n
  number_of r (some p) = of_text (text_of r p)

  unfoldable pub get_number : TsvResult → ℕ → ℕ → N × TsvResult
  unfolding get_value
  get_number r row column = let (v, r1) = get_value r row column in (number_of r1 v, r1)

  unfoldable pub get_number_by_name : TsvResult → ℕ → List ℕ → Option (N × TsvResult)
  unfolding get_values
  get_number_by_name r row name = elim (get_values r row name) as (λ _. Option (N × TsvResult)) [
    | none ↦ none
    | some (v, r1) ↦ some (number_of r1 v, r1)
  ]

-- `TSVnullreturned`
unfoldable pub is_null_returned : TsvResult → Bool
is_null_returned r = r.null_returned
