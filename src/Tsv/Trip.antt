-- ===== src/Tsv/Trip.antt =====
-- lib/tsv.c: a well-formed table is read back as it was written.
use regonf.Prelude.{
  ℕ, suc, ◌+◌, ◌≡◌, refl, sym, ap, ◌∙◌, true, ◌||◌, Option, none, some, List, [], ◌∷◌, ◌++◌, arith,
  All, length, replicate, append_assoc, append_nil, length-append,
}
use regonf.Tsv.{is_tab, is_feed, parse_loop}
use regonf.Tsv.Scan.{
  IsCell, Delimited, print_cells, starts, filled, header_at, rows_at, header_inside, row_inside,
  header_ends, header_feeds, row_ends,
}

-- The cells of a line, with tabs between them and a line feed at the end
abbrev pub delimit : List (List ℕ) → Delimited
delimit [] = []
delimit (cell ∷ []) = (cell, 10) ∷ []
delimit (cell ∷ (next ∷ cells)) = (cell, 9) ∷ delimit (next ∷ cells)

abbrev pub delimit_rows : List (List (List ℕ)) → Delimited
delimit_rows [] = []
delimit_rows (row ∷ rows) = delimit row ++ delimit_rows rows

-- The text of a table
abbrev pub print_table : List (List ℕ) → List (List (List ℕ)) → List ℕ
print_table header rows = print_cells (delimit header) ++ print_cells (delimit_rows rows)

-- A cell with its delimiter
abbrev pub IsDelimited : List ℕ × ℕ → Type 0
IsDelimited (cell, d) = IsCell cell × ((is_tab d || is_feed d) ≡ true)

-- Some cells of a header
pub header_scan :
    (name : List ℕ) (names : List (List ℕ)) (done : List (Option ℕ)) (m i : ℕ) (rest : List ℕ)
    → IsCell name
    → All IsCell names
    → let cells = delimit (name ∷ names) in
      parse_loop
        (print_cells cells ++ rest)
        (header_at done (suc (length names)) i (replicate m none))
      ≡ parse_loop rest (rows_at [] m (i + length (print_cells cells)) (done ++ starts i cells))
header_scan [] names done m i rest h hs = absurd (h.ne_nil refl)
header_scan (c ∷ cs) [] done m i rest h hs =
    let done' = done ++ some i ∷ [] in
    ap (λ t. parse_loop t (header_at done 1 i (replicate m none)))
      (append_assoc (c ∷ cs) (10 ∷ []) rest)
    ∙ header_inside c cs (10 ∷ rest) done 0 i (replicate m none) h.chars
    ∙ header_feeds done' 0 (length done') (replicate m none) (i + length (c ∷ cs)) rest
    ∙ ap (λ k. parse_loop rest (rows_at [] m k (filled done' 0)))
        (omega (arith, length-append (c ∷ cs) (10 ∷ [])))
    ∙ ap (λ t. parse_loop rest (rows_at [] m (i + length (print_cells (((c ∷ cs), 10) ∷ []))) t))
        (append_nil done')
header_scan (c ∷ cs) (name ∷ names) done m i rest h hs =
    let done' = done ++ some i ∷ [] in
    let later = print_cells (delimit (name ∷ names)) in
    let k = i + length (c ∷ cs) + 1 in
    ap (λ t. parse_loop t (header_at done (suc (suc (length names))) i (replicate m none)))
      (append_assoc (c ∷ cs) (9 ∷ later) rest)
    ∙ header_inside c cs (9 ∷ later ++ rest) done (suc (length names)) i (replicate m none) h.chars
    ∙ header_ends done' (suc (length names)) (length done') (replicate m none) (i + length (c ∷ cs))
        (later ++ rest)
    ∙ header_scan name names done' m k rest hs.0 hs.1
    ∙ ap (λ t. parse_loop rest (rows_at [] m (k + length later) t))
        (append_assoc done (some i ∷ []) (starts k (delimit (name ∷ names))))
    ∙ ap
        (λ l.
          parse_loop rest (rows_at [] m l (done ++ starts i (delimit ((c ∷ cs) ∷ (name ∷ names))))))
        (omega (arith, length-append (c ∷ cs) (9 ∷ later)))

-- Some cells of the rows
pub row_scan :
    (cells : Delimited) (done : List (Option ℕ)) (i : ℕ) (names : List (Option ℕ))
    → All IsDelimited cells
    → parse_loop (print_cells cells) (rows_at done (length cells) i names)
      ≡ rows_at (done ++ starts i cells) 0 (i + length (print_cells cells)) names
unfolding parse_loop
row_scan [] done i names h =
    ap (λ k. rows_at done 0 k names) (omega arith)
    ∙ ap (λ t. rows_at t 0 (i + 0) names) (sym (append_nil done))
row_scan (([], d) ∷ cells) done i names h = absurd (h.0.0.ne_nil refl)
row_scan (((c ∷ cs), d) ∷ cells) done i names h =
    let done' = done ++ some i ∷ [] in
    let later = print_cells cells in
    let k = i + length (c ∷ cs) + 1 in
    row_inside c cs (d ∷ later) done (length cells) i names h.0.0.chars
    ∙ row_ends done' (length cells) (length done') names d (i + length (c ∷ cs)) later h.0.1
    ∙ row_scan cells done' k names h.1
    ∙ ap (λ t. rows_at t 0 (k + length later) names)
        (append_assoc done (some i ∷ []) (starts k cells))
    ∙ ap (λ l. rows_at (done ++ starts i (((c ∷ cs), d) ∷ cells)) 0 l names)
        (omega (arith, length-append (c ∷ cs) (d ∷ later)))
