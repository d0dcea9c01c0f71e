-- ===== src/Tsv/RoundTrip.antt =====
-- lib/tsv.c: reading a cell of a table gives the text that was written.
use regonf.Prelude.{
  ℕ, zero, suc, ◌+◌, ◌*◌, ◌<◌, ◌≡◌, ◌≢◌, refl, sym, ap, ◌∙◌, true, Option, some, List, [], ◌∷◌,
  ◌++◌, arith, All, length, map, append_assoc, append_nil, length-append, get_elem?,
}
use regonf.CString.Buffer.{c_str, drop, IsText, c_str-append}
use regonf.Tsv.{close_cell, at_index}
use regonf.Tsv.Scan.{IsCell, is_cell_char, Delimited, print_cells, starts}
use regonf.Tsv.Trip.{delimit, delimit_rows, IsDelimited}
use regonf.Tsv.Lengths.{length-delimit, get_elem?-delimit}

-- A table: a header with at least one name, and rows of as many cells
pub record IsTable (header : List (List ℕ)) (rows : List (List (List ℕ))) : Type 0 where
  pub some_name : header ≢ []
  pub names : All IsCell header
  pub cells : All (λ row. All IsCell row) rows
  pub widths : All (λ row. length row ≡ length header) rows

map_append : (xs ys : List ℕ) → map close_cell (xs ++ ys) ≡ map close_cell xs ++ map close_cell ys
map_append [] ys = refl
map_append (x ∷ xs) ys = ap (λ t. close_cell x ∷ t) (map_append xs ys)

map-cell : (cell : List ℕ) → All (λ c. is_cell_char c ≡ true) cell → map close_cell cell ≡ cell
map-cell [] h = refl
map-cell (c ∷ cs) h =
    let same : close_cell c ≡ c = ground (arith, h.0) in
    ap (λ t. t ∷ map close_cell cs) same ∙ ap (λ t. c ∷ t) (map-cell cs h.1)

cell-IsText : (cell : List ℕ) → All (λ c. is_cell_char c ≡ true) cell → IsText cell
cell-IsText [] h = tt
cell-IsText (c ∷ cs) h = (ground (arith, h.0), cell-IsText cs h.1)

-- The string at the beginning of a cell in the buffer
c_str-cell :
    (cell : List ℕ) (d : ℕ) (rest : List ℕ)
    → IsDelimited (cell, d)
    → c_str (map close_cell (cell ++ d ∷ rest)) ≡ cell
unfolding c_str
c_str-cell cell d rest h =
    let closed : close_cell d ≡ 0 = ground (arith, h.1) in
    ap c_str (map_append cell (d ∷ rest))
    ∙ ap (λ t. c_str (t ++ close_cell d ∷ map close_cell rest)) (map-cell cell h.0.chars)
    ∙ ap (λ z. c_str (cell ++ z ∷ map close_cell rest)) closed
    ∙ c_str-append cell (0 ∷ map close_cell rest) (cell-IsText cell h.0.chars)
    ∙ append_nil cell

drop-map :
    (pre rest : List ℕ) → drop (length pre) (map close_cell (pre ++ rest)) ≡ map close_cell rest
unfolding drop
drop-map [] rest = refl
drop-map (x ∷ pre) rest = drop-map pre rest

-- The pointer to a cell leads to its text.
abbrev pub LeadsTo : List ℕ → Option ℕ → List ℕ → Type 0
LeadsTo buf o cell = (p : ℕ) × (o ≡ some p) × (c_str (drop p buf) ≡ cell)

-- The text behind the first cell
pub print-shift :
    (pre x : List ℕ) (b : ℕ) (cells : Delimited) (post : List ℕ)
    → pre ++ ((x ++ b ∷ print_cells cells) ++ post)
      ≡ (pre ++ (x ++ b ∷ [])) ++ (print_cells cells ++ post)
print-shift pre x b cells post =
    let after = print_cells cells ++ post in
    ap (λ t. pre ++ t)
      (append_assoc x (b ∷ print_cells cells) post ∙ sym (append_assoc x (b ∷ []) after))
    ∙ sym (append_assoc pre (x ++ b ∷ []) after)

pub starts-LeadsTo :
    (pre : List ℕ) (cells : Delimited) (post : List ℕ) (k : ℕ) (cell : List ℕ) (d : ℕ)
    → All IsDelimited cells
    → get_elem? cells k ≡ some (cell, d)
    → LeadsTo
        (map close_cell (pre ++ (print_cells cells ++ post)))
        (at_index (starts (length pre) cells) k)
        cell
starts-LeadsTo pre [] post k cell d h e = cc
starts-LeadsTo pre ((x, b) ∷ cells) post zero cell d h e =
    let same : x ≡ cell = ground (arith, e) in
    (
      length pre,
      refl,
      ap c_str (drop-map pre ((x ++ b ∷ print_cells cells) ++ post))
          ∙ ap (λ t. c_str (map close_cell t)) (append_assoc x (b ∷ print_cells cells) post)
          ∙ c_str-cell x b (print_cells cells ++ post) h.0
          ∙ same,
    )
starts-LeadsTo pre ((x, b) ∷ cells) post (suc k) cell d h e =
    let pre' = pre ++ (x ++ b ∷ []) in
    let (p, o, t) = starts-LeadsTo pre' cells post k cell d h.1 e in
    let long : length pre' ≡ length pre + length x + 1 =
      omega (arith, length-append pre (x ++ b ∷ []), length-append x (b ∷ [])) in
    let same = print-shift pre x b cells post in
    (
      p,
      ap (λ n. at_index (starts n cells) k) (sym long) ∙ o,
      ap (λ u. c_str (drop p (map close_cell u))) same ∙ t,
    )

module _ {A : Type 0} where
  get_elem?-front :
      (xs ys : List A) (i : ℕ) (x : A) → get_elem? xs i ≡ some x → get_elem? (xs ++ ys) i ≡ some x
  get_elem?-front [] ys i x h = cc
  get_elem?-front (y ∷ xs) ys zero x h = h
  get_elem?-front (y ∷ xs) ys (suc i) x h = get_elem?-front xs ys i x h

  get_elem?-behind :
      (xs ys : List A) (i : ℕ) → get_elem? (xs ++ ys) (length xs + i) ≡ get_elem? ys i
  get_elem?-behind [] ys i = ap (get_elem? ys) (omega arith)
  get_elem?-behind (y ∷ xs) ys i =
      ap (get_elem? ((y ∷ xs) ++ ys)) {y = suc (length xs + i)} (omega arith)
      ∙ get_elem?-behind xs ys i

  pub get_elem?-lt : (xs : List A) (i : ℕ) (x : A) → get_elem? xs i ≡ some x → i < length xs
  get_elem?-lt [] i x h = cc
  get_elem?-lt (y ∷ xs) zero x h = omega arith
  get_elem?-lt (y ∷ xs) (suc i) x h = omega (arith, get_elem?-lt xs i x h)

-- The rows one behind the other: the cell of a row and a column
pub get_elem?-delimit_rows :
    (rows : List (List (List ℕ))) (n row column : ℕ) (cells : List (List ℕ)) (cell : List ℕ)
    → All (λ r. length r ≡ n) rows
    → get_elem? rows row ≡ some cells
    → get_elem? cells column ≡ some cell
    → (d : ℕ) × (get_elem? (delimit_rows rows) (n * row + column) ≡ some (cell, d))
get_elem?-delimit_rows [] n row column cells cell h r c = cc
get_elem?-delimit_rows (first ∷ rows) n zero column cells cell h r c =
    let same : first ≡ cells = ground (arith, r) in
    let (d, found) = get_elem?-delimit first column cell (ap (λ t. get_elem? t column) same ∙ c) in
    (
      d,
      ap (get_elem? (delimit first ++ delimit_rows rows)) {y = column} (omega arith)
          ∙ get_elem?-front (delimit first) (delimit_rows rows) column (cell, d) found,
    )
get_elem?-delimit_rows (first ∷ rows) n (suc row) column cells cell h r c =
    let (d, found) = get_elem?-delimit_rows rows n row column cells cell h.1 r c in
    (
      d,
      ap (get_elem? (delimit first ++ delimit_rows rows))
            {y = length (delimit first) + (n * row + column)}
            (ground (arith, length-delimit first, h.0))
          ∙ get_elem?-behind (delimit first) (delimit_rows rows) (n * row + column)
          ∙ found,
    )
