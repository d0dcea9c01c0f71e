-- ===== src/Tsv/Lengths.antt =====
-- lib/tsv.c: the lengths that `TSVinit` computes for the arrays of a well-formed table.
use regonf.Prelude.{
  ℕ, zero, suc, ◌≡◌, refl, ap, ◌∙◌, true, some, List, [], ◌∷◌, ◌++◌, arith, All, All-append, length,
  append_assoc, get_elem?,
}
use regonf.Tsv.{get_column_name_length, skip_line, count_delimiters, get_data_length}
use regonf.Tsv.Scan.{IsCell, is_cell_char, Delimited, print_cells}
use regonf.Tsv.Trip.{delimit, delimit_rows, IsDelimited}

column_name_length-cell :
    (cell rest : List ℕ)
    → All (λ c. is_cell_char c ≡ true) cell
    → get_column_name_length (cell ++ rest) ≡ get_column_name_length rest
unfolding get_column_name_length
column_name_length-cell [] rest h = refl
column_name_length-cell (c ∷ cs) rest h = ground (arith, column_name_length-cell cs rest h.1)

skip_line-cell :
    (cell rest : List ℕ)
    → All (λ c. is_cell_char c ≡ true) cell
    → skip_line (cell ++ rest) ≡ skip_line rest
unfolding skip_line
skip_line-cell [] rest h = refl
skip_line-cell (c ∷ cs) rest h = ground (arith, skip_line-cell cs rest h.1)

count_delimiters-cell :
    (cell rest : List ℕ)
    → All (λ c. is_cell_char c ≡ true) cell
    → count_delimiters (cell ++ rest) ≡ count_delimiters rest
unfolding count_delimiters
count_delimiters-cell [] rest h = refl
count_delimiters-cell (c ∷ cs) rest h = ground (arith, count_delimiters-cell cs rest h.1)

pub column_name_length_lem :
    (name : List ℕ) (names : List (List ℕ)) (rest : List ℕ)
    → IsCell name
    → All IsCell names
    → get_column_name_length (print_cells (delimit (name ∷ names)) ++ rest) ≡ suc (length names)
unfolding get_column_name_length
column_name_length_lem name [] rest h hs =
    ap get_column_name_length (append_assoc name (10 ∷ []) rest)
    ∙ column_name_length-cell name (10 ∷ rest) h.chars
column_name_length_lem name (next ∷ names) rest h hs =
    let later = print_cells (delimit (next ∷ names)) in
    ap get_column_name_length (append_assoc name (9 ∷ later) rest)
    ∙ column_name_length-cell name (9 ∷ later ++ rest) h.chars
    ∙ ap suc (column_name_length_lem next names rest hs.0 hs.1)

pub skip_line_lem :
    (name : List ℕ) (names : List (List ℕ)) (rest : List ℕ)
    → IsCell name
    → All IsCell names
    → skip_line (print_cells (delimit (name ∷ names)) ++ rest) ≡ rest
unfolding skip_line
skip_line_lem name [] rest h hs =
    ap skip_line (append_assoc name (10 ∷ []) rest) ∙ skip_line-cell name (10 ∷ rest) h.chars
skip_line_lem name (next ∷ names) rest h hs =
    let later = print_cells (delimit (next ∷ names)) in
    ap skip_line (append_assoc name (9 ∷ later) rest)
    ∙ skip_line-cell name (9 ∷ later ++ rest) h.chars
    ∙ skip_line_lem next names rest hs.0 hs.1

count_delimiters_lem :
    (cells : Delimited)
    → All IsDelimited cells
    → count_delimiters (print_cells cells) ≡ length cells
unfolding count_delimiters
count_delimiters_lem [] h = refl
count_delimiters_lem ((cell, d) ∷ cells) h =
    count_delimiters-cell cell (d ∷ print_cells cells) h.0.0.chars
    ∙ ground (arith, count_delimiters_lem cells h.1, h.0.1)

pub data_length_lem :
    (name : List ℕ) (names : List (List ℕ)) (cells : Delimited)
    → IsCell name
    → All IsCell names
    → All IsDelimited cells
    → get_data_length (print_cells (delimit (name ∷ names)) ++ print_cells cells) ≡ length cells
unfolding get_data_length
data_length_lem name names cells h hs k =
    ap count_delimiters (skip_line_lem name names (print_cells cells) h hs)
    ∙ count_delimiters_lem cells k

pub delimit-IsDelimited : (row : List (List ℕ)) → All IsCell row → All IsDelimited (delimit row)
delimit-IsDelimited [] h = tt
delimit-IsDelimited (cell ∷ []) h = ((h.0, refl), tt)
delimit-IsDelimited (cell ∷ (next ∷ row)) h = ((h.0, refl), delimit-IsDelimited (next ∷ row) h.1)

pub length-delimit : (row : List (List ℕ)) → length (delimit row) ≡ length row
length-delimit [] = refl
length-delimit (cell ∷ []) = refl
length-delimit (cell ∷ (next ∷ row)) = ap suc (length-delimit (next ∷ row))

pub delimit_rows-IsDelimited :
    (rows : List (List (List ℕ)))
    → All (λ row. All IsCell row) rows
    → All IsDelimited (delimit_rows rows)
delimit_rows-IsDelimited [] h = tt
delimit_rows-IsDelimited (row ∷ rows) h =
    All-append IsDelimited (delimit row) (delimit_rows rows) (delimit-IsDelimited row h.0)
      (delimit_rows-IsDelimited rows h.1)

-- The cell in a column of a row
pub get_elem?-delimit :
    (row : List (List ℕ)) (column : ℕ) (cell : List ℕ)
    → get_elem? row column ≡ some cell
    → (d : ℕ) × (get_elem? (delimit row) column ≡ some (cell, d))
get_elem?-delimit [] column cell h = cc
get_elem?-delimit (x ∷ []) zero cell h = (10, ground arith)
get_elem?-delimit (x ∷ []) (suc column) cell h = cc
get_elem?-delimit (x ∷ (next ∷ row)) zero cell h = (9, ground arith)
get_elem?-delimit (x ∷ (next ∷ row)) (suc column) cell h =
    get_elem?-delimit (next ∷ row) column cell h
