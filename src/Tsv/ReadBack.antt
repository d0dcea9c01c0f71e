-- ===== src/Tsv/ReadBack.antt =====
-- lib/tsv.c: `TSVinit` on the text of a table, and the cells that it gives back.
use regonf.Prelude.{
  ℕ, suc, ◌+◌, ◌≡◌, refl, ap, ◌∙◌, true, false, none, List, [], ◌∷◌, ◌++◌, arith, All, length, map,
  replicate, append_nil,
}
use regonf.Tsv.{TsvResult, parse, parse_loop, close_cell, empty_scan, get_data_length}
use regonf.Tsv.Scan.{IsCell, Delimited, print_cells, starts, header_at}
use regonf.Tsv.Trip.{delimit, delimit_rows, print_table, IsDelimited, header_scan, row_scan}
use regonf.Tsv.Lengths.{column_name_length_lem, data_length_lem, delimit_rows-IsDelimited}
use regonf.Tsv.RoundTrip.{IsTable}

-- What `parse` makes of the text of a table
abbrev pub parsed : List (List ℕ) → List (List (List ℕ)) → TsvResult
parsed header rows = record {
  buf = map close_cell (print_table header rows);
  column_name = starts 0 (delimit header);
  data_cells = starts (length (print_cells (delimit header))) (delimit_rows rows);
  null_returned = false;
}

pub length-starts : (i : ℕ) (cells : Delimited) → length (starts i cells) ≡ length cells
length-starts i [] = refl
length-starts i ((cell, d) ∷ cells) = ap suc (length-starts (i + length cell + 1) cells)

parse_loop-table :
    (name : List ℕ) (names : List (List ℕ)) (cells : Delimited)
    → IsCell name
    → All IsCell names
    → All IsDelimited cells
    → let header = delimit (name ∷ names) in
      let file = print_cells header ++ print_cells cells in
      let s = parse_loop file (empty_scan file) in
      (s.column_name ≡ starts 0 header)
      × (s.data_cells ≡ starts (length (print_cells header)) cells)
parse_loop-table name names cells h hs k =
    let header = delimit (name ∷ names) in
    let text = print_cells header in
    let file = text ++ print_cells cells in
    let m = length cells in
    let start : empty_scan file ≡ header_at [] (suc (length names)) 0 (replicate m none) =
      ap
        (λ n. record {
          column_name = replicate n none;
          data_cells = replicate (get_data_length file) none;
          in_rows = false;
          i = 0;
          j = 0;
          is_set = true;
        })
        (column_name_length_lem name names (print_cells cells) h hs)
      ∙ ap (λ n. header_at [] (suc (length names)) 0 (replicate n none))
          (data_length_lem name names cells h hs k) in
    let end =
      ap (parse_loop file) start
      ∙ header_scan name names [] m 0 (print_cells cells) h hs
      ∙ row_scan cells [] (0 + length text) (starts 0 header) k in
    (
      ap (λ s. s.column_name) end,
      ap (λ s. s.data_cells) end
          ∙ append_nil (starts (0 + length text) cells)
          ∙ ap (λ n. starts n cells) {y = length text} (omega arith),
    )

pub parse-print_table :
    (header : List (List ℕ)) (rows : List (List (List ℕ)))
    → IsTable header rows
    → parse (print_table header rows) ≡ parsed header rows
unfolding parse
parse-print_table [] rows t = absurd (t.some_name refl)
parse-print_table (name ∷ names) rows t =
    let file = print_table (name ∷ names) rows in
    let (columns, cells) =
      parse_loop-table name names (delimit_rows rows) t.names.0 t.names.1
        (delimit_rows-IsDelimited rows t.cells) in
    λ i. record {
      buf = map close_cell file;
      column_name = columns i;
      data_cells = cells i;
      null_returned = false;
    }
