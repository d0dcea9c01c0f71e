-- ===== src/Tsv/Scan.antt =====
-- lib/tsv.c: the loop of `parse` over the cells of a well-formed table.
use regonf.Prelude.{
  ◌==◌, not, ℕ, zero, suc, ◌+◌, ◌≡◌, ◌≢◌, refl, sym, ap, ◌∙◌, Bool, true, false, ◌||◌, Option, none,
  some, List, [], ◌∷◌, ◌++◌, arith, All, length, replicate, set, if◌then◌else◌, length-append,
}
use regonf.Tsv.{TsvScan, is_tab, is_feed, header_char, row_char, parse_loop}

-- A character of a cell
abbrev pub is_cell_char : ℕ → Bool
is_cell_char c = not (is_tab c || is_feed c || c == 0)

-- A cell: it is not empty, and its characters are no delimiters.
pub record IsCell (cell : List ℕ) : Type 0 where
  pub chars : All (λ c. is_cell_char c ≡ true) cell
  pub ne_nil : cell ≢ []

-- Cells, each with the delimiter behind it
abbrev pub Delimited : Type 0
Delimited = List (List ℕ × ℕ)

abbrev pub print_cells : Delimited → List ℕ
print_cells [] = []
print_cells ((cell, d) ∷ cells) = cell ++ d ∷ print_cells cells

-- The pointers to cells that begin at index `i`
abbrev pub starts : ℕ → Delimited → List (Option ℕ)
starts i [] = []
starts i ((cell, d) ∷ cells) = some i ∷ starts (i + length cell + 1) cells

-- The arrays as the loop fills them: pointers, and nulls up to the length
abbrev pub filled : List (Option ℕ) → ℕ → List (Option ℕ)
filled done n = done ++ replicate n none

set-filled :
    (done : List (Option ℕ)) (n p : ℕ)
    → set (filled done (suc n)) (length done) (some p) ≡ filled (done ++ some p ∷ []) n
set-filled [] n p = refl
set-filled (q ∷ done) n p = ap (λ t. q ∷ t) (set-filled done n p)

length-filled : (done : List (Option ℕ)) (n : ℕ) → length (filled done n) ≡ length done + n
length-filled [] zero = omega arith
length-filled [] (suc n) = omega (arith, length-filled [] n)
length-filled (q ∷ done) n = omega (arith, length-filled done n)

-- Behind its first character a cell changes nothing but the index.
parse_loop-inside :
    (cs rest : List ℕ) (s : TsvScan)
    → All (λ c. is_cell_char c ≡ true) cs
    → s.is_set ≡ false
    → parse_loop (cs ++ rest) s ≡ parse_loop rest (record s { i = s.i + length cs })
unfolding parse_loop header_char row_char
parse_loop-inside [] rest s h e = ap (λ k. parse_loop rest (record s { i = k })) (omega arith)
parse_loop-inside (c ∷ cs) rest s h e =
    let next : (if s.in_rows then row_char c s else header_char c s) ≡ record s { i = s.i + 1 } =
      ground (arith, h.0) in
    ap (parse_loop (cs ++ rest)) next
    ∙ parse_loop-inside cs rest (record s { i = s.i + 1 }) h.1 e
    ∙ ap (λ k. parse_loop rest (record s { i = k })) (omega arith)

-- The scan in the header, and in the rows, at the beginning of a cell
abbrev pub header_at : (done : List (Option ℕ)) (n i : ℕ) → List (Option ℕ) → TsvScan
header_at done n i cells = record {
  column_name = filled done n;
  data_cells = cells;
  in_rows = false;
  i = i;
  j = length done;
  is_set = true;
}

abbrev pub rows_at : (done : List (Option ℕ)) (n i : ℕ) → List (Option ℕ) → TsvScan
rows_at done n i names = record {
  column_name = names;
  data_cells = filled done n;
  in_rows = true;
  i = i;
  j = length done;
  is_set = true;
}

-- The same behind the first character of a cell
abbrev pub inside : TsvScan → TsvScan
inside s = record s { is_set = false }

header_char-first :
    (c : ℕ) (done : List (Option ℕ)) (n i : ℕ) (cells : List (Option ℕ))
    → is_cell_char c ≡ true
    → header_char c (header_at done (suc n) i cells)
      ≡ record (inside (header_at (done ++ some i ∷ []) n (i + 1) cells)) { j = length done + 1 }
unfolding header_char
header_char-first c done n i cells h =
    ground (arith, set-filled done n i, length-filled done (suc n))

row_char-first :
    (c : ℕ) (done : List (Option ℕ)) (n i : ℕ) (names : List (Option ℕ))
    → is_cell_char c ≡ true
    → row_char c (rows_at done (suc n) i names)
      ≡ record (inside (rows_at (done ++ some i ∷ []) n (i + 1) names)) { j = length done + 1 }
unfolding row_char
row_char-first c done n i names h = ground (arith, set-filled done n i, length-filled done (suc n))

-- The scan with `done` pointers, before the delimiter that ends the cell of the last one
module _ (done : List (Option ℕ)) (n j : ℕ) (others : List (Option ℕ)) where
  pub header_ends :
      (k : ℕ) (rest : List ℕ)
      → parse_loop (9 ∷ rest) (record (inside (header_at done n k others)) { j = j })
        ≡ parse_loop rest (record (header_at done n (k + 1) others) { j = j })
  unfolding parse_loop header_char
  header_ends k rest = refl

  pub header_feeds :
      (k : ℕ) (rest : List ℕ)
      → parse_loop (10 ∷ rest) (record (inside (header_at done n k others)) { j = j })
        ≡ parse_loop rest (record {
          column_name = filled done n;
          data_cells = others;
          in_rows = true;
          i = k + 1;
          j = 0;
          is_set = true;
        })
  unfolding parse_loop header_char
  header_feeds k rest = refl

  pub row_ends :
      (d k : ℕ) (rest : List ℕ)
      → (is_tab d || is_feed d) ≡ true
      → parse_loop (d ∷ rest) (record (inside (rows_at done n k others)) { j = j })
        ≡ parse_loop rest (record (rows_at done n (k + 1) others) { j = j })
  unfolding parse_loop row_char
  row_ends d k rest h = rw h refl

length-snoc : (done : List (Option ℕ)) (p : Option ℕ) → length done + 1 ≡ length (done ++ p ∷ [])
length-snoc done p = sym (length-append done (p ∷ []))

pub header_inside :
    (c : ℕ) (cs rest : List ℕ) (done : List (Option ℕ)) (n i : ℕ) (cells : List (Option ℕ))
    → All (λ c. is_cell_char c ≡ true) (c ∷ cs)
    → parse_loop ((c ∷ cs) ++ rest) (header_at done (suc n) i cells)
      ≡ parse_loop rest (inside (header_at (done ++ some i ∷ []) n (i + length (c ∷ cs)) cells))
unfolding parse_loop
header_inside c cs rest done n i cells h =
    let s = inside (header_at (done ++ some i ∷ []) n (i + 1) cells) in
    ap (parse_loop (cs ++ rest)) (header_char-first c done n i cells h.0)
    ∙ parse_loop-inside cs rest (record s { j = length done + 1 }) h.1 refl
    ∙ ap (λ k. parse_loop rest (record s { j = k; i = i + 1 + length cs }))
        (length-snoc done (some i))
    ∙ ap (λ k. parse_loop rest (record s { i = k })) (omega arith)

pub row_inside :
    (c : ℕ) (cs rest : List ℕ) (done : List (Option ℕ)) (n i : ℕ) (names : List (Option ℕ))
    → All (λ c. is_cell_char c ≡ true) (c ∷ cs)
    → parse_loop ((c ∷ cs) ++ rest) (rows_at done (suc n) i names)
      ≡ parse_loop rest (inside (rows_at (done ++ some i ∷ []) n (i + length (c ∷ cs)) names))
unfolding parse_loop
row_inside c cs rest done n i names h =
    let s = inside (rows_at (done ++ some i ∷ []) n (i + 1) names) in
    ap (parse_loop (cs ++ rest)) (row_char-first c done n i names h.0)
    ∙ parse_loop-inside cs rest (record s { j = length done + 1 }) h.1 refl
    ∙ ap (λ k. parse_loop rest (record s { j = k; i = i + 1 + length cs }))
        (length-snoc done (some i))
    ∙ ap (λ k. parse_loop rest (record s { i = k })) (omega arith)
