-- ===== src/Server/Answer.antt =====
-- main.c and util.c: what the answer to a query holds.
use regonf.Prelude.{
  ℕ, ◌+◌, ◌<◌, ◌≤◌, ◌≡◌, refl, sym, ap, ◌∙◌, Bool, true, false, Option, none, some, List, [], ◌∷◌,
  ◌++◌, arith, if◌then◌else◌, All, length, length-append, take_all, append_assoc, append_nil,
  All-append, map,
}
use regonf.Prelude.Int.{ℤ, eq_ℤ}
use regonf.CString.Buffer.{IsText, c_str}
use regonf.CString.Scanf.{IsWord}
use regonf.Timef.{Clock}
use regonf.Acp.Packet.{
  AcpRequest, AcpResponse, response_init, response_pack, response_coop_request, str_cat,
  data_max_size,
}
use regonf.Acp.Packet.Parse.{Outcome, fault, fail, done}
use regonf.Acp.Packet.Request.{concat, text_array, str_cat_lem}
use regonf.Acp.Packet.Rows.{row_i1}
use regonf.Acp.Packet.ReadRows.{data_to_list, scan_i1, data_to_i1_list}
use regonf.Acp.Packet.ReadRowsTrip.{data_to_i1-concat}
use regonf.Regonfhc.{RegOnfHc}
use regonf.ProgList.{Prog, ProgList, Heap}
use regonf.ProgList.Chain.{first, Chain, Represents}
use regonf.ProgList.Lookup.{lookup_id, get_prog_by_id_lem}
use regonf.Server.RowTexts.{PrintsTexts, row_of-IsText}
use regonf.Server.Query.{Query, Printer, row_of, cat_prog, cat_progs, packed, serve_query}

module _ {F : Type 0} where
  -- The first program with an id
  abbrev pub find_id : ℤ → List (ℕ × Prog F) → Option (Prog F)
  find_id id [] = none
  find_id id (e ∷ es) = let rest = find_id id es in if eq_ℤ (e.1.id) id then some (e.1) else rest

  -- What the heap holds at the address that a search has found
  abbrev Found : Heap F → Option ℕ → Option (Prog F) → Type 0
  Found h none none = Unit
  Found h none (some p) = ⊥
  Found h (some a) none = ⊥
  Found h (some a) (some p) = (next : Option ℕ) × (h a ≡ some (record p { next = next }))

  Found-if :
      (b : Bool) (h : Heap F) (e : ℕ × Prog F) (es : List (ℕ × Prog F)) (o : Option ℕ)
      (p : Option (Prog F))
      → h (e.0) ≡ some (record (e.1) { next = first es })
      → Found h o p
      → Found h (if b then some (e.0) else o) (if b then some (e.1) else p)
  Found-if true h e es o p c f = (first es, c)
  Found-if false h e es o p c f = f

  lookup_id-Found :
      (id : ℤ) (h : Heap F) (es : List (ℕ × Prog F))
      → Chain h es
      → Found h (lookup_id id es) (find_id id es)
  lookup_id-Found id h [] c = tt
  lookup_id-Found id h (e ∷ es) c =
      Found-if (eq_ℤ (e.1.id) id) h e es _ _ c.0 (lookup_id-Found id h es c.1)

module _ {F W : Type 0} (clock : Clock W) (printer : Printer F) (q : Query) where
  -- The rows of an answer, one for each id that a program has
  abbrev pub one_row : Option (Prog F) → W → List (List ℕ) × W
  one_row none w = ([], w)
  one_row (some p) w = let (row, w1) = row_of clock printer q p.id p.reg w in (row ∷ [], w1)

  abbrev pub answer_rows : List ℤ → List (ℕ × Prog F) → W → List (List ℕ) × W
  answer_rows [] es w = ([], w)
  answer_rows (id ∷ ids) es w =
      let (row, w1) = one_row (find_id id es) w in
      let (rest, w2) = answer_rows ids es w1 in (row ++ rest, w2)

  cat_prog-Found :
      (h : Heap F) (o : Option ℕ) (p : Option (Prog F)) (t : List ℕ) (w : W)
      → Found h o p
      → IsText t
      → length t + length (concat (one_row p w).0) + 1 < data_max_size
      → cat_prog clock printer q (some o) h (text_array t) w
        ≡ (done (text_array (t ++ concat (one_row p w).0)), (one_row p w).1)
  unfolding cat_prog
  cat_prog-Found h none none t w f ht l = ap (λ u. (done (text_array u), w)) (sym (append_nil t))
  cat_prog-Found h none (some p) t w f ht l = elim f [ ]
  cat_prog-Found h (some a) none t w f ht l = elim f [ ]
  cat_prog-Found h (some a) (some p) t w f ht l =
      let (next, at) = f in
      let row = (row_of clock printer q p.id p.reg w).0 in
      let nil : row ++ [] ≡ row = append_nil row in
      let added = str_cat_lem t row ht (omega (arith, l, ap length nil)) in
      ap
        (λ o. elim o as (λ _. Outcome (List ℕ) × W) [
          | none ↦ (fault, w)
          | some p' ↦
              let (row', w1) = row_of clock printer q p'.id p'.reg w in
              (elim (str_cat (text_array t) row') [ none ↦ fail | some bytes1 ↦ done bytes1 ], w1)
        ])
        at
      ∙ ap
          (λ o. (
            elim o as (λ _. Outcome (List ℕ)) [ none ↦ fail | some bytes1 ↦ done bytes1 ],
            (row_of clock printer q p.id p.reg w).1,
          ))
          added
      ∙ ap (λ u. (done (text_array (t ++ u)), (row_of clock printer q p.id p.reg w).1)) (sym nil)

  -- Every row is a text.
  abbrev pub RowsAreTexts : Type 0
  RowsAreTexts = (id : ℤ) (reg : RegOnfHc F) (w : W) → IsText (row_of clock printer q id reg w).0

  one_row-IsText : RowsAreTexts → (p : Option (Prog F)) (w : W) → IsText (concat (one_row p w).0)
  one_row-IsText texts none w = tt
  one_row-IsText texts (some p) w = All-append _ _ [] (texts p.id p.reg w) tt

  concat-append : (xs ys : List (List ℕ)) → concat (xs ++ ys) ≡ concat xs ++ concat ys
  concat-append [] ys = refl
  concat-append (x ∷ xs) ys =
      ap (λ t. x ++ t) (concat-append xs ys) ∙ sym (append_assoc x (concat xs) (concat ys))

  cat_progs_lem :
      RowsAreTexts
      → (ids : List ℤ) (h : Heap F) (l : ProgList) (es : List (ℕ × Prog F)) (t : List ℕ) (w : W)
      → Represents h l es
      → IsText t
      → length t + length (concat (answer_rows ids es w).0) + 1 < data_max_size
      → cat_progs clock printer q ids h l (text_array t) w
        ≡ (done (text_array (t ++ concat (answer_rows ids es w).0)), (answer_rows ids es w).1)
  unfolding cat_progs
  cat_progs_lem texts [] h l es t w r ht lb =
      ap (λ u. (done (text_array u), w)) (sym (append_nil t))
  cat_progs_lem texts (id ∷ ids) h l es t w r ht lb =
      let p = find_id id es in
      let row = (one_row p w).0 in
      let w1 = (one_row p w).1 in
      let rest = answer_rows ids es w1 in
      let joined = concat-append row rest.0 in
      let size = length-append (concat row) (concat rest.0) in
      let first_row =
        ap (λ o. cat_prog clock printer q o h (text_array t) w) (get_prog_by_id_lem id h l es r)
        ∙ cat_prog-Found h (lookup_id id es) p t w (lookup_id-Found id h es r.chain) ht
            (omega (arith, lb, size, ap length joined)) in
      ap
        (λ (x : Outcome (List ℕ) × W). elim x.0 as (λ _. Outcome (List ℕ) × W) [
          | fault ↦ (fault, x.1)
          | fail ↦ (fail, x.1)
          | done bytes1 ↦ cat_progs clock printer q ids h l bytes1 x.1
        ])
        first_row
      ∙ cat_progs_lem texts ids h l es (t ++ concat row) w1 r
          (All-append _ t (concat row) ht (one_row-IsText texts p w))
          (omega (arith, lb, size, ap length joined, length-append t (concat row)))
      ∙ ap (λ u. (done (text_array u), rest.1))
          (append_assoc t (concat row) (concat rest.0) ∙ ap (λ u. t ++ u) (sym joined))

module _ {F W : Type 0} (clock : Clock W) (printer : Printer F) where
  -- A query for programs by their ids, of 32 bits and a sign, that the packet holds in their rows, is
  -- answered if the rows of the answer leave room for one more character: the response that is sent has
  -- the id of the request and, as its data, the rows of the first program with each id, in the order
  -- of the request, less the ids that no program has.
  pub serve_query_lem :
      (q : Query) (prints : PrintsTexts printer) (raw : AcpResponse) (request : AcpRequest) (id : ℤ)
      (ids : List ℤ) (h : Heap F) (l : ProgList) (es : List (ℕ × Prog F)) (w : W)
      → Represents h l es
      → All IsWord (id ∷ ids)
      → c_str request.data_buf ≡ concat (map row_i1 (id ∷ ids))
      → length (id ∷ ids) ≤ request.data_rows_count
      → length (concat (answer_rows clock printer q (id ∷ ids) es w).0) + 1 < data_max_size
      → serve_query clock printer q request
          (response_coop_request (response_init raw) request)
          h
          l
          w
        ≡ (
          done (
              response_pack (record (response_init raw) {
                id = request.id;
                data_buf = text_array (concat (answer_rows clock printer q (id ∷ ids) es w).0);
              })),
          (answer_rows clock printer q (id ∷ ids) es w).1,
        )
  unfolding serve_query packed response_coop_request response_init
  serve_query_lem q prints raw request id ids h l es w r words e room fits =
      let response = response_coop_request (response_init raw) request in
      let read : data_to_i1_list request.data_rows_count request.data_buf ≡ id ∷ ids =
        ap (data_to_list scan_i1 request.data_rows_count) e
        ∙ data_to_i1-concat request.data_rows_count (id ∷ ids) words
        ∙ take_all request.data_rows_count (id ∷ ids) room in
      ap
        (λ list. elim list as (λ _. Outcome AcpResponse × W) [
          | [] ↦ (fail, w)
          | id ∷ ids ↦
              packed clock printer response
                (cat_progs clock printer q (id ∷ ids) h l response.data_buf w)
        ])
        read
      ∙ ap (packed clock printer response) (
          cat_progs_lem clock printer q (row_of-IsText clock printer prints q) (id ∷ ids) h l es []
            w r tt (omega (arith, fits)))
