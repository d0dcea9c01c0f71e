-- ===== src/Tsv/Tests.antt =====
-- lib/tsv.c: a table at concrete inputs.
use regonf.Prelude.{true, ◌∷◌, [], All, arith, ℕ, ◌≡◌, refl, Option, none, some, List}
use regonf.CString.{codes, str_eq}
use regonf.CString.Buffer.{c_str, drop}
use regonf.Tsv.Getters.{
  tsv_result_initializer, init, check, check_rows, check_columns, get_values, find_column,
}
use regonf.Tsv.Scan.{IsCell}
use regonf.Tsv.Trip.{print_table}
use regonf.Tsv.RoundTrip.{LeadsTo}
use regonf.Tsv.Init.{HasRows}
use regonf.Tsv.Cells.{init-get_value}
use regonf.Tsv.ByName.{init-get_values}
use regonf.Tsv.{
  TsvResult, parse, parse_loop, header_char, row_char, get_column_name_length, get_data_length,
  skip_line, count_delimiters, ntuples, get_value,
}

abbrev text_at : TsvResult → Option ℕ → Option (List ℕ)
text_at r none = none
text_at r (some i) = some (c_str (drop i r.buf))

-- Two columns and two rows
abbrev file : List ℕ
file = codes "id\tv\n1\tab\n2\tcd\n"

cell : text_at (parse file) (get_value (parse file) 1 1).0 ≡ some (codes "cd")
unfolding parse parse_loop header_char row_char get_column_name_length get_data_length skip_line
    count_delimiters get_value c_str drop
cell = refl

-- Without the last line feed the last cell is not counted, and the second row is lost.
abbrev short_file : List ℕ
short_file = codes "id\tv\n1\tab\n2\tcd"

rows : ntuples (parse short_file) ≡ 1
unfolding parse parse_loop header_char row_char get_column_name_length get_data_length skip_line
    count_delimiters ntuples
rows = refl

-- A column without a name: a search by name behind it compares with a null pointer, though `TSVinit`
-- has accepted the table.
nameless :
    get_values (init tsv_result_initializer (some (codes "\tv\n1\tab\n"))).1 0 (codes "v") ≡ none
unfolding init parse parse_loop header_char row_char get_column_name_length get_data_length
    skip_line count_delimiters ntuples get_value check check_rows check_columns get_values
    find_column
nameless = refl

abbrev header : List (List ℕ)
header = codes "id" ∷ codes "v" ∷ []

abbrev rows_of : List (List (List ℕ))
rows_of = (codes "1" ∷ codes "ab" ∷ []) ∷ (codes "2" ∷ codes "cd" ∷ []) ∷ []

rows-IsCell : All (λ row. All IsCell row) (header ∷ rows_of)
rows-IsCell = ground arith

rows-HasRows : HasRows header rows_of
rows-HasRows = record {
  table = record {
    some_name = ground arith;
    names = rows-IsCell.0;
    cells = rows-IsCell.1;
    widths = (refl, (refl, tt));
  };
  some_row = ground arith;
}

init-get_value_example :
    let (accepted, r') = init tsv_result_initializer (some (print_table header rows_of)) in
    (accepted ≡ true) × (ntuples r' ≡ 2) × LeadsTo r'.buf (get_value r' 1 1).0 (codes "cd")
init-get_value_example =
    init-get_value tsv_result_initializer header rows_of 1 1 (codes "2" ∷ codes "cd" ∷ [])
      (codes "cd") rows-HasRows refl refl

init-get_values_example :
    let (_, r') = init tsv_result_initializer (some (print_table header rows_of)) in
    get_values r' 1 (codes "v") ≡ some (get_value r' 1 1)
unfolding str_eq
init-get_values_example =
    init-get_values tsv_result_initializer header rows_of 1 (codes "v") rows-HasRows
