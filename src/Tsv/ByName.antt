-- ===== src/Tsv/ByName.antt =====
-- lib/tsv.c: the cells of a table by the names of the columns.
use regonf.Prelude.{
  ℕ, ◌+◌, ◌*◌, ◌≡◌, refl, sym, ap, ◌∙◌, Bool, true, false, Option, none, some, List, [], ◌∷◌, ◌++◌,
  arith, All, length, map, length-append, leb, if◌then◌else◌,
}
use regonf.CString.{str_eq}
use regonf.CString.Buffer.{c_str, drop}
use regonf.Tsv.{TsvResult, close_cell, at_index, get_value}
use regonf.Tsv.Getters.{text_of, init, find_column, get_values}
use regonf.Tsv.Scan.{Delimited, print_cells, starts}
use regonf.Tsv.Trip.{delimit, delimit_rows, print_table, IsDelimited}
use regonf.Tsv.Lengths.{delimit-IsDelimited}
use regonf.Tsv.RoundTrip.{starts-LeadsTo, print-shift}
use regonf.Tsv.ReadBack.{parsed}
use regonf.Tsv.Init.{HasRows, init-print_table, with_flag}

-- The first column with a name
abbrev pub index_of : List ℕ → List (List ℕ) → ℕ → Option ℕ
index_of name [] i = none
index_of name (x ∷ xs) i =
    let rest = index_of name xs (i + 1) in if str_eq name x then some i else rest

abbrev names_of : Delimited → List (List ℕ)
names_of [] = []
names_of ((cell, d) ∷ cells) = cell ∷ names_of cells

names_of-delimit : (xs : List (List ℕ)) → names_of (delimit xs) ≡ xs
names_of-delimit [] = refl
names_of-delimit (x ∷ []) = refl
names_of-delimit (x ∷ (y ∷ xs)) = ap (λ t. x ∷ t) (names_of-delimit (y ∷ xs))

some-if :
    {A : Type 0} (b : Bool) (x y : A) → (if b then some x else some y) ≡ some (if b then x else y)
some-if true x y = refl
some-if false x y = refl

find_column_lem :
    (r : TsvResult) (name pre : List ℕ) (cells : Delimited) (post : List ℕ) (i : ℕ)
    → All IsDelimited cells
    → r.buf ≡ map close_cell (pre ++ (print_cells cells ++ post))
    → find_column r name (starts (length pre) cells) i ≡ some (index_of name (names_of cells) i)
unfolding find_column
find_column_lem r name pre [] post i h e = refl
find_column_lem r name pre ((x, d) ∷ cells) post i h e =
    let pre' = pre ++ (x ++ d ∷ []) in
    let same = print-shift pre x d cells post in
    let rest = find_column_lem r name pre' cells post (i + 1) h.1 (e ∙ ap (map close_cell) same) in
    let long : length pre' ≡ length pre + length x + 1 =
      omega (arith, length-append pre (x ++ d ∷ []), length-append x (d ∷ [])) in
    let next = ap (λ n. find_column r name (starts n cells) (i + 1)) (sym long) ∙ rest in
    let (p, o, s) = starts-LeadsTo pre ((x, d) ∷ cells) post 0 x d h refl in
    let here : text_of r (length pre) ≡ x =
      ap (λ u. c_str (drop (length pre) u)) e
      ∙ ap (λ q. c_str (drop q (map close_cell (pre ++ ((x ++ d ∷ print_cells cells) ++ post)))))
          {y = p} (ground (arith, o))
      ∙ s in
    ap
      (λ t.
        if str_eq name t
        then some (some i)
        else find_column r name (starts (length pre + length x + 1) cells) (i + 1))
      here
    ∙ ap (λ q. if str_eq name x then some (some i) else q) next
    ∙ some-if (str_eq name x) (some i) (index_of name (names_of cells) (i + 1))

-- `TSVgetvalue` of the column that has been found, if one has
abbrev pub value_in : TsvResult → ℕ → Option ℕ → Option ℕ × TsvResult
value_in r row none = (none, with_flag true r)
value_in r row (some column) = get_value r row column

get_values_lem :
    (r : TsvResult) (row : ℕ) (name : List ℕ) (o : Option ℕ)
    → find_column r name r.column_name 0 ≡ some o
    → get_values r row name ≡ some (value_in r row o)
unfolding get_values get_value
get_values_lem r row name none h = ground arith
get_values_lem r row name (some c) h =
    let ind = length r.column_name * row + c in
    ground (
      arith,
      some-if {A = Option ℕ × TsvResult} (leb (length r.data_cells) ind) (none, with_flag true r)
          (at_index r.data_cells ind, r),
    )

-- `TSVinit` has read the text of a table with a row, whose rows are as wide as the header, in which no name of a column and no other cell is
-- empty or has a tab, a line feed or a NUL in it, and the last line has its line feed. Then
-- `TSVgetvalues` compares with no null pointer. It returns what `TSVgetvalue` returns for the first column
-- that has the name; where no column has it, it returns null and sets `null_returned`.
pub init-get_values :
    (r : TsvResult) (header : List (List ℕ)) (rows : List (List (List ℕ))) (row : ℕ) (name : List ℕ)
    → HasRows header rows
    → let (_, r') = init r (some (print_table header rows)) in
      get_values r' row name ≡ some (value_in r' row (index_of name header 0))
init-get_values r header rows row name t =
    let r' = with_flag r.null_returned (parsed header rows) in
    let found =
      find_column_lem r' name [] (delimit header) (print_cells (delimit_rows rows)) 0
        (delimit-IsDelimited header t.table.names) refl
      ∙ ap (λ xs. some (index_of name xs 0)) (names_of-delimit header) in
    rw (init-print_table r header rows t)
      (get_values_lem r' row name (index_of name header 0) found)
