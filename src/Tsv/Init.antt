-- ===== src/Tsv/Init.antt =====
-- lib/tsv.c: `TSVinit` accepts the text of a table, and its cells are read back.
use native.Mathlib.Nat.{mul-div_cancel_left, mul-div-le}
use regonf.Prelude.{
  ℕ, zero, suc, ◌+◌, ◌*◌, ◌/◌, ◌<◌, ◌≤◌, ◌≡◌, ◌≢◌, refl, ap, ◌∙◌, Bool, true, false, Option, none,
  some, List, [], ◌∷◌, ◌==◌, arith, All, length, length-append, if◌then◌else◌,
}
use regonf.Tsv.{TsvResult, at_index, get_value, ntuples, get_column_name_length, get_data_length}
use regonf.Tsv.Getters.{check_columns, check_rows, check, init}
use regonf.Tsv.Scan.{Delimited, print_cells, starts}
use regonf.Tsv.Trip.{delimit, delimit_rows, print_table}
use regonf.Tsv.Lengths.{
  column_name_length_lem, data_length_lem, length-delimit, delimit_rows-IsDelimited,
}
use regonf.Tsv.RoundTrip.{IsTable}
use regonf.Tsv.ReadBack.{parsed, length-starts, parse-print_table}

-- A pointer that is not null
abbrev pub is_pointer : Option ℕ → Bool
is_pointer none = false
is_pointer (some p) = true

at_index-starts :
    (i : ℕ) (cells : Delimited) (k : ℕ)
    → k < length cells
    → is_pointer (at_index (starts i cells) k) ≡ true
at_index-starts i [] k h = ground arith
at_index-starts i ((cell, d) ∷ cells) zero h = refl
at_index-starts i ((cell, d) ∷ cells) (suc k) h =
    at_index-starts (i + length cell + 1) cells k (omega arith)

length-delimit_rows :
    (n : ℕ) (rows : List (List (List ℕ)))
    → All (λ r. length r ≡ n) rows
    → length (delimit_rows rows) ≡ n * length rows
length-delimit_rows n [] h = omega arith
length-delimit_rows n (row ∷ rows) h =
    let rest = length-delimit_rows n rows h.1 in
    ground (arith, length-append (delimit row) (delimit_rows rows), length-delimit row, h.0, rest)

pub get_value_lem :
    (r : TsvResult) (row column : ℕ)
    → length r.column_name * row + column < length r.data_cells
    → get_value r row column ≡ (at_index r.data_cells (length r.column_name * row + column), r)
unfolding get_value
get_value_lem r row column h = ground arith

elim-pointer :
    (o : Option ℕ)
    → is_pointer o ≡ true
    → (x y : Bool × TsvResult) → elim o as (λ _. Bool × TsvResult) [ none ↦ x | some p ↦ y ] ≡ y
elim-pointer none h x y = cc
elim-pointer (some p) h x y = refl

times_suc : (l row n : ℕ) → l * (row + suc n) ≡ l * row + l + l * n
times_suc l row n = ground arith

ntuples_le : (l m : ℕ) → l * (0 + (if l == 0 then 0 else m / l)) ≤ m
ntuples_le zero m = omega arith
ntuples_le (suc l) m = grind (arith, mul-div-le m (suc l))

-- A table without a null among its cells passes `TSVcheck`.
module _ (r : TsvResult)
    (full : (k : ℕ) → k < length r.data_cells → is_pointer (at_index r.data_cells k) ≡ true) where
  check_columns_lem :
      (n row column : ℕ)
      → length r.column_name * row + (column + n) ≤ length r.data_cells
      → check_columns n row column r ≡ (true, r)
  unfolding check_columns
  check_columns_lem zero row column h = refl
  check_columns_lem (suc n) row column h =
      let e = get_value_lem r row column (omega arith) in
      let rest = check_columns_lem n row (column + 1) (omega arith) in
      let p = full (length r.column_name * row + column) (omega arith) in
      ap
        (λ t.
          let (v, r1) = t in
          elim v as (λ _. Bool × TsvResult) [
            | none ↦ (false, r1)
            | some _ ↦ check_columns n row (column + 1) r1
          ])
        e
      ∙ elim-pointer (at_index r.data_cells (length r.column_name * row + column)) p (false, r)
          (check_columns n row (column + 1) r)
      ∙ rest

  check_rows_lem :
      (n row : ℕ)
      → length r.column_name * (row + n) ≤ length r.data_cells
      → check_rows n row r ≡ (true, r)
  unfolding check_rows
  check_rows_lem zero row h = refl
  check_rows_lem (suc n) row h =
      let first =
        check_columns_lem (length r.column_name) row 0
          (omega (arith, times_suc (length r.column_name) row n)) in
      let rest =
        check_rows_lem n (row + 1) (ground (arith, times_suc (length r.column_name) row n)) in
      rw (first, rest) refl

  check_lem : check r ≡ (true, r)
  unfolding check ntuples
  check_lem = check_rows_lem (ntuples r) 0 (ntuples_le (length r.column_name) (length r.data_cells))

-- A table with at least one row
pub record HasRows (header : List (List ℕ)) (rows : List (List (List ℕ))) : Type 0 where
  pub table : IsTable header rows
  pub some_row : rows ≢ []

abbrev pub with_flag : Bool → TsvResult → TsvResult
with_flag b r = record r { null_returned = b }

parsed-full :
    (header : List (List ℕ)) (rows : List (List (List ℕ))) (k : ℕ)
    → k < length (parsed header rows).data_cells
    → is_pointer (at_index (parsed header rows).data_cells k) ≡ true
parsed-full header rows k h =
    let i = length (print_cells (delimit header)) in
    at_index-starts i (delimit_rows rows) k (omega (arith, length-starts i (delimit_rows rows)))

names_le : (file : List ℕ) → get_column_name_length file ≤ length file
unfolding get_column_name_length
names_le [] = omega arith
names_le (c ∷ cs) = ground (arith, names_le cs)

positive : (n : ℕ) → 0 < n → (n == 0) ≡ false
positive n h = ground arith

passes : {A : Type 0} (b : Bool) → b ≡ false → (x y : A) → (if b then x else y) ≡ y
passes true h x y = cc
passes false h x y = refl

-- `TSVinit` reads the text of a table with a row.
pub init-print_table :
    (r : TsvResult) (header : List (List ℕ)) (rows : List (List (List ℕ)))
    → HasRows header rows
    → init r (some (print_table header rows))
      ≡ (true, with_flag r.null_returned (parsed header rows))
unfolding init
init-print_table r [] rows t = absurd (t.table.some_name refl)
init-print_table r (name ∷ names) [] t = absurd (t.some_row refl)
init-print_table r (name ∷ names) (row ∷ rows) t =
    let file = print_table (name ∷ names) (row ∷ rows) in
    let all = delimit_rows (row ∷ rows) in
    let columns =
      column_name_length_lem name names (print_cells all) t.table.names.0 t.table.names.1 in
    let cells =
      data_length_lem name names all t.table.names.0 t.table.names.1
        (delimit_rows-IsDelimited (row ∷ rows) t.table.cells) in
    let number = length-delimit_rows (suc (length names)) (row ∷ rows) t.table.widths in
    let b = r.null_returned in
    let fine =
      check_lem (with_flag r.null_returned (parsed (name ∷ names) (row ∷ rows)))
        (parsed-full (name ∷ names) (row ∷ rows)) in
    passes (length file == 0) (positive (length file) (ground (arith, names_le file, columns)))
      (false, r) _
    ∙ passes (get_column_name_length file == 0)
        (positive (get_column_name_length file) (omega (arith, columns))) _ _
    ∙ passes (get_data_length file == 0)
        (positive (get_data_length file) (grind (arith, cells, number))) _ _
    ∙ ap (λ q. check (with_flag b q)) (parse-print_table (name ∷ names) (row ∷ rows) t.table)
    ∙ fine

pub length-parsed :
    (header : List (List ℕ)) (rows : List (List (List ℕ)))
    → IsTable header rows
    → let r = parsed header rows in
      (length r.column_name ≡ length header) × (length r.data_cells ≡ length header * length rows)
length-parsed header rows t = (
  length-starts 0 (delimit header) ∙ length-delimit header,
  length-starts (length (print_cells (delimit header))) (delimit_rows rows)
      ∙ length-delimit_rows (length header) rows t.widths,
)

quotient : (l m : ℕ) → 0 < l → (if l == 0 then 0 else l * m / l) ≡ m
quotient l m h = passes (l == 0) (positive l h) 0 (l * m / l) ∙ mul-div_cancel_left m h

length-positive : (xs : List (List ℕ)) → xs ≢ [] → 0 < length xs
length-positive [] h = absurd (h refl)
length-positive (x ∷ xs) h = omega arith

pub ntuples-parsed :
    (header : List (List ℕ)) (rows : List (List (List ℕ)))
    → IsTable header rows
    → ntuples (parsed header rows) ≡ length rows
unfolding ntuples
ntuples-parsed header rows t =
    let r = parsed header rows in
    let (columns, cells) = length-parsed header rows t in
    ap (λ c. if c == 0 then 0 else length r.data_cells / c) columns
    ∙ ap (λ k. if length header == 0 then 0 else k / length header) cells
    ∙ quotient (length header) (length rows) (length-positive header t.some_name)
