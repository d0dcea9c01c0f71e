-- ===== src/Tsv/Pointers.antt =====
-- lib/tsv.c: where the pointers to the cells of a table lead.
use mathlib.Core.Path.{subst}
use regonf.Prelude.{
  ℕ, zero, suc, ◌+◌, ◌*◌, ◌<◌, ◌≡◌, refl, ap, ◌∙◌, Option, none, some, List, [], ◌∷◌, arith, ◌||◌,
  if-elim, if◌then◌else◌, All, leb, length, length-set, length-replicate, map, replicate, set,
}
use regonf.Tsv.{
  TsvResult, TsvScan, header_char, row_char, parse_loop, empty_scan, close_cell, parse, get_value,
  at_index, is_feed, is_tab, get_column_name_length, get_data_length,
}

-- A pointer that is null or leads to one of the first bytes
abbrev pub IsBelow : ℕ → Option ℕ → Type 0
IsBelow n none = Unit
IsBelow n (some i) = i < n

abbrev pub AreBelow : ℕ → List (Option ℕ) → Type 0
AreBelow n = All (IsBelow n)

IsBelow-mono : (n : ℕ) (p : Option ℕ) → IsBelow n p → IsBelow (n + 1) p
IsBelow-mono n none h = tt
IsBelow-mono n (some i) h = omega arith

AreBelow-mono : (n : ℕ) (ps : List (Option ℕ)) → AreBelow n ps → AreBelow (n + 1) ps
AreBelow-mono n [] h = tt
AreBelow-mono n (p ∷ ps) h = (IsBelow-mono n p h.0, AreBelow-mono n ps h.1)

AreBelow-set :
    (n j : ℕ) (p : Option ℕ) (ps : List (Option ℕ))
    → AreBelow n ps
    → IsBelow n p
    → AreBelow n (set ps j p)
AreBelow-set n j p [] h k = tt
AreBelow-set n zero p (q ∷ ps) h k = (k, h.1)
AreBelow-set n (suc j) p (q ∷ ps) h k = (h.0, AreBelow-set n j p ps h.1 k)

AreBelow-replicate : (n m : ℕ) → AreBelow n (replicate m none)
AreBelow-replicate n zero = tt
AreBelow-replicate n (suc m) = (tt, AreBelow-replicate n m)

-- The pointers lead to bytes that have been read, and the arrays keep their lengths.
abbrev Sound : (names cells : ℕ) → TsvScan → Type 0
Sound names cells s =
    AreBelow s.i s.column_name
    × AreBelow s.i s.data_cells
    × (length s.column_name ≡ names)
    × (length s.data_cells ≡ cells)

abbrev Step : (names cells i : ℕ) → TsvScan → Type 0
Step names cells i s = Sound names cells s × (s.i ≡ i + 1)

header_char-Step :
    (names cells c : ℕ) (s : TsvScan) → Sound names cells s → Step names cells s.i (header_char c s)
unfolding header_char
header_char-Step names cells c s h =
    let a = AreBelow-mono s.i s.column_name h.0 in
    let b = AreBelow-mono s.i s.data_cells h.1 in
    let p = Step names cells s.i in
    if-elim p (is_feed c) _ _ ((a, b, h.2, h.3), refl)
      (if-elim p (is_tab c) _ _ ((a, b, h.2, h.3), refl)
        (if-elim p s.is_set _ _
          (
            (
              AreBelow-set (s.i + 1) s.j (some s.i) s.column_name a (omega arith),
              b,
              length-set s.column_name s.j (some s.i) ∙ h.2,
              h.3,
            ),
            refl,
          )
          ((a, b, h.2, h.3), refl)))

row_char-Step :
    (names cells c : ℕ) (s : TsvScan) → Sound names cells s → Step names cells s.i (row_char c s)
unfolding row_char
row_char-Step names cells c s h =
    let a = AreBelow-mono s.i s.column_name h.0 in
    let b = AreBelow-mono s.i s.data_cells h.1 in
    let p = Step names cells s.i in
    if-elim p (is_tab c || is_feed c) _ _ ((a, b, h.2, h.3), refl)
      (if-elim p s.is_set _ _
        (
          (
            a,
            AreBelow-set (s.i + 1) s.j (some s.i) s.data_cells b (omega arith),
            h.2,
            length-set s.data_cells s.j (some s.i) ∙ h.3,
          ),
          refl,
        )
        ((a, b, h.2, h.3), refl))

parse_loop-Sound :
    (names cells : ℕ) (cs : List ℕ) (s : TsvScan)
    → Sound names cells s
    → Sound names cells (parse_loop cs s) × ((parse_loop cs s).i ≡ s.i + length cs)
unfolding parse_loop
parse_loop-Sound names cells [] s h = (h, omega arith)
parse_loop-Sound names cells (c ∷ cs) s h =
    let next = if s.in_rows then row_char c s else header_char c s in
    let (sound, moved) =
      if-elim (Step names cells s.i) s.in_rows (row_char c s) (header_char c s)
        (row_char-Step names cells c s h) (header_char-Step names cells c s h) in
    let (rest, end) = parse_loop-Sound names cells cs next sound in
    (rest, omega (arith, end, moved))

length-map : (f : ℕ → ℕ) (xs : List ℕ) → length (map f xs) ≡ length xs
length-map f [] = refl
length-map f (x ∷ xs) = ap suc (length-map f xs)

-- The pointers of a table that has been read, to the names of its columns and to its cells, are null or
-- lead into its buffer, and there are as many as their arrays have been made for.
pub parse-AreBelow :
    (file : List ℕ)
    → AreBelow (length (parse file).buf) (parse file).column_name
      × AreBelow (length (parse file).buf) (parse file).data_cells
      × (length (parse file).column_name ≡ get_column_name_length file)
      × (length (parse file).data_cells ≡ get_data_length file)
unfolding parse
parse-AreBelow file =
    let s = empty_scan file in
    let start : Sound (get_column_name_length file) (get_data_length file) s = (
      AreBelow-replicate 0 (get_column_name_length file),
      AreBelow-replicate 0 (get_data_length file),
      length-replicate (get_column_name_length file) none,
      length-replicate (get_data_length file) none,
    ) in
    let (sound, end) =
      parse_loop-Sound (get_column_name_length file) (get_data_length file) file s start in
    let size : (parse_loop file s).i ≡ length (map close_cell file) =
      omega (arith, end, length-map close_cell file) in
    (
      subst (λ n. AreBelow n (parse_loop file s).column_name) size sound.0,
      subst (λ n. AreBelow n (parse_loop file s).data_cells) size sound.1,
      sound.2,
      sound.3,
    )

at_index-IsBelow : (n ind : ℕ) (ps : List (Option ℕ)) → AreBelow n ps → IsBelow n (at_index ps ind)
at_index-IsBelow n ind [] h = tt
at_index-IsBelow n zero (p ∷ ps) h = h.0
at_index-IsBelow n (suc ind) (p ∷ ps) h = at_index-IsBelow n ind ps h.1

-- So is the value that a reader of the table gets, whatever row and column it asks for.
pub get_value-IsBelow :
    (file : List ℕ) (row column : ℕ)
    → IsBelow (length (parse file).buf) (get_value (parse file) row column).0
unfolding get_value
get_value-IsBelow file row column =
    let r = parse file in
    let ind = length r.column_name * row + column in
    if-elim (λ (x : Option ℕ × TsvResult). IsBelow (length r.buf) x.0)
      (leb (length r.data_cells) ind) _ _ tt
      (at_index-IsBelow (length r.buf) ind r.data_cells (parse-AreBelow file).1)
