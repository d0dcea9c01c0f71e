-- ===== src/Tsv/Cells.antt =====
-- lib/tsv.c: the cells of a table that `TSVinit` has read, by row and column and by name.
use mathlib.Core.Path.{subst}
use regonf.Prelude.{
  ℕ, ◌+◌, ◌*◌, ◌≡◌, refl, sym, ap, ◌∙◌, Bool, true, some, List, [], ◌++◌, arith, length, map,
  append_nil, get_elem?,
}
use regonf.CString.Buffer.{c_str, drop}
use regonf.Tsv.{TsvResult, close_cell, at_index, get_value, ntuples}
use regonf.Tsv.Getters.{init}
use regonf.Tsv.Scan.{print_cells}
use regonf.Tsv.Trip.{delimit, delimit_rows, print_table}
use regonf.Tsv.Lengths.{delimit_rows-IsDelimited}
use regonf.Tsv.RoundTrip.{IsTable, LeadsTo, starts-LeadsTo, get_elem?-delimit_rows, get_elem?-lt}
use regonf.Tsv.ReadBack.{parsed, length-starts}
use regonf.Tsv.Init.{
  HasRows, init-print_table, length-parsed, ntuples-parsed, get_value_lem, with_flag,
}

cell-LeadsTo :
    (b : Bool) (header : List (List ℕ)) (rows : List (List (List ℕ))) (row column : ℕ)
    (cells : List (List ℕ)) (cell : List ℕ)
    → IsTable header rows
    → get_elem? rows row ≡ some cells
    → get_elem? cells column ≡ some cell
    → let r = with_flag b (parsed header rows) in LeadsTo r.buf (get_value r row column).0 cell
cell-LeadsTo b header rows row column cells cell t er ec =
    let r = with_flag b (parsed header rows) in
    let text = print_cells (delimit header) in
    let all = delimit_rows rows in
    let n = length header in
    let (names, total) = length-parsed header rows t in
    let (d, found) = get_elem?-delimit_rows rows n row column cells cell t.widths er ec in
    let at_names = ap (λ k. k * row + column) names in
    let below = get_elem?-lt all (n * row + column) (cell, d) found in
    let read =
      get_value_lem r row column
        (ground (arith, at_names, below, length-starts (length text) all)) in
    let (p, o, s) =
      starts-LeadsTo text all [] (n * row + column) cell d (delimit_rows-IsDelimited rows t.cells)
        found in
    (
      p,
      ap (λ v. v.0) read ∙ ap (at_index r.data_cells) at_names ∙ o,
      ap (λ u. c_str (drop p (map close_cell (text ++ u)))) (sym (append_nil (print_cells all)))
          ∙ s,
    )

-- `TSVinit` accepts the text of a table with a row, in which no cell is empty or has a tab, a line
-- feed or a NUL in it and the last line has its line feed. The table has as many tuples as rows were
-- written, and the pointer that `TSVgetvalue` returns for a row and a column leads to the cell that was
-- written there.
pub init-get_value :
    (r : TsvResult) (header : List (List ℕ)) (rows : List (List (List ℕ))) (row column : ℕ)
    (cells : List (List ℕ)) (cell : List ℕ)
    → HasRows header rows
    → get_elem? rows row ≡ some cells
    → get_elem? cells column ≡ some cell
    → let (accepted, r') = init r (some (print_table header rows)) in
      (accepted ≡ true)
      × (ntuples r' ≡ length rows)
      × LeadsTo r'.buf (get_value r' row column).0 cell
unfolding ntuples
init-get_value r header rows row column cells cell t er ec =
    let b = r.null_returned in
    subst
      (λ q.
        (q.0 ≡ true)
        × (ntuples q.1 ≡ length rows)
        × LeadsTo q.1.buf (get_value q.1 row column).0 cell)
      (sym (init-print_table r header rows t))
      (
        refl,
        ntuples-parsed header rows t.table,
        cell-LeadsTo b header rows row column cells cell t.table er ec,
      )
