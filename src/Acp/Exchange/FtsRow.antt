-- ===== src/Acp/Exchange/FtsRow.antt =====
-- lib/acp/main.c: the row of `acp_responseFTSCat`, and how `acp_dataToFTSList` reads it.
use regonf.Prelude.{
  ℕ, ◌≤◌, ◌≡◌, refl, ap, ◌∙◌, some, List, [], ◌∷◌, ◌++◌, arith, length, length-append, All-append,
}
use regonf.CString.Buffer.{c_str}
use regonf.CString.Decimal.{print_d}
use regonf.CString.Scanf.{IsWord, scan_d, scan_d-print_d, scan_d-space, skip_space}
use regonf.Acp.{Fts}
use regonf.Acp.Packet.{delimiter_column, delimiter_row}
use regonf.Acp.Packet.Rows.{IsPlain, print_d-IsPlain}
use regonf.Acp.Packet.ReadRows.{FloatText, scan_fts, fts_of, data_to_list, data_to_fts_list}
use regonf.Acp.Packet.ReadRowsTrip.{column_lem}

-- What C's library promises of `%.3f` and `%f`: white space before a number is skipped, and a number
-- that has been printed is read with its rounding.
pub record FloatLaws {F : Type 0} (text : FloatText F) : Type 0 where
  pub rounded : F → F
  pub scan_f-space : (s : List ℕ) → text.scan_f (skip_space (delimiter_column ∷ s)) ≡ text.scan_f s
  pub scan_f-print_f :
      (v : F) (s : List ℕ)
      → text.scan_f (text.print_f v ++ delimiter_column ∷ s)
        ≡ some (rounded v, delimiter_column ∷ s)
  pub print_f-IsPlain : (v : F) → IsPlain (text.print_f v)

-- A column and what follows it
abbrev pub col : List ℕ → List ℕ → List ℕ
col s rest = s ++ delimiter_column ∷ rest

module _ {F : Type 0} (text : FloatText F) where
  -- The row of `acp_responseFTSCat`
  abbrev pub row_fts : Fts F → List ℕ
  row_fts v = col (print_d v.id) (
      col (text.print_f v.value) (
        col (print_d v.tm.tv_sec)
          (col (print_d v.tm.tv_nsec) (print_d v.state ++ delimiter_row ∷ []))))

  abbrev pub FtsIsWord : Fts F → Type 0
  FtsIsWord v = IsWord v.id × IsWord v.tm.tv_sec × IsWord v.tm.tv_nsec × IsWord v.state

  pub row_fts-IsPlain : (laws : FloatLaws text) (v : Fts F) → IsPlain (row_fts v)
  row_fts-IsPlain laws v = column (print_d v.id) _ (print_d-IsPlain v.id) (
      column (text.print_f v.value) _ (laws.print_f-IsPlain v.value) (
        column (print_d v.tm.tv_sec) _ (print_d-IsPlain v.tm.tv_sec) (
          column (print_d v.tm.tv_nsec) _ (print_d-IsPlain v.tm.tv_nsec) (
            All-append _ (print_d v.state) _ (print_d-IsPlain v.state)
              ((omega arith, omega arith), tt)))))
    where
      column : (s rest : List ℕ) → IsPlain s → IsPlain rest → IsPlain (col s rest)
      column s rest h k = All-append _ s _ h ((omega arith, omega arith), k)

  pub row_fts-length : (v : Fts F) → 2 ≤ length (row_fts v)
  row_fts-length v =
      let c5 = print_d v.state ++ delimiter_row ∷ [] in
      let c4 = col (print_d v.tm.tv_nsec) c5 in
      let c3 = col (print_d v.tm.tv_sec) c4 in
      let c2 = col (text.print_f v.value) c3 in
      omega (
        arith,
        length-append (print_d v.id) (delimiter_column ∷ c2),
        length-append (text.print_f v.value) (delimiter_column ∷ c3),
      )

  scan_fts-row_fts :
      (laws : FloatLaws text) (v : Fts F)
      → FtsIsWord v
      → scan_fts text (row_fts v) ≡ some (record v { value = laws.rounded v.value })
  unfolding scan_fts
  scan_fts-row_fts laws v h =
      let c5 = print_d v.state ++ delimiter_row ∷ [] in
      let c4 = col (print_d v.tm.tv_nsec) c5 in
      let c3 = col (print_d v.tm.tv_sec) c4 in
      let c2 = col (text.print_f v.value) c3 in
      ap fts_of (
        column_lem scan_d
          (column_lem scan_d
            (column_lem scan_d
              (column_lem text.scan_f (scan_d-print_d v.id delimiter_column c2 h.0 refl)
                (laws.scan_f-space c2 ∙ laws.scan_f-print_f v.value c3))
              (scan_d-space c3 ∙ scan_d-print_d v.tm.tv_sec delimiter_column c4 h.1 refl))
            (scan_d-space c4 ∙ scan_d-print_d v.tm.tv_nsec delimiter_column c5 h.2 refl))
          (scan_d-space c5 ∙ scan_d-print_d v.state delimiter_row [] h.3 refl))

  -- The list with room for one item that is made of the row
  pub one_item :
      (laws : FloatLaws text) (v : Fts F) (bytes : List ℕ)
      → FtsIsWord v
      → c_str bytes ≡ row_fts v
      → data_to_fts_list text 1 bytes ≡ record v { value = laws.rounded v.value } ∷ []
  unfolding data_to_list
  one_item laws v bytes h e =
      ap (data_to_list (scan_fts text) 1) e ∙ ground (arith, scan_fts-row_fts laws v h)
