-- ===== src/Acp/Packet/Request.antt =====
-- lib/acp/main.c: the life of a request from its rows to the peer that reads it, and how the peer
-- recognises the command.
use mathlib.Core.Path.{subst}
use regonf.Prelude.{
  ℕ, suc, ◌+◌, ◌-◌, ◌^◌, ◌<◌, ◌≤◌, ◌≡◌, sym, ap, ◌∙◌, ◌↔◌, true, none, some, List, [], ◌∷◌, ◌++◌,
  arith, leb, if◌then◌else◌, All, length, replicate, length-append, take_all, All-append, Succeeds,
}
use regonf.CString.Buffer.{IsText, c_str, strcat, strncpy}
use regonf.Acp.Packet.{
  AcpRequest, request_init, request_set_cmd, str_cat, request_fill, request_rows, request_pack,
  sent_bytes, close_block, data_max_size, command_max_size,
}
use regonf.Prelude.{append_assoc, append_nil}
use regonf.Acp.Packet.Pack.{c_str_text, strcat_lem}
use regonf.Acp.Packet.Check.{IsBlock}
use regonf.Acp.Packet.Parse.{request_read, cmdcmp, cmdcmp_loop, is_block_end}
use regonf.Acp.Packet.RoundTrip.{Holds, with_arrays, request_read-request_pack}

-- The rows one after the other
abbrev pub concat : List (List ℕ) → List ℕ
concat [] = []
concat (row ∷ rows) = row ++ concat rows

-- A text in an array of the size of the data
abbrev pub text_array : List ℕ → List ℕ
text_array t = t ++ 0 ∷ replicate (data_max_size - suc (length t)) 0

pub str_cat_lem :
    (t row : List ℕ)
    → IsText t
    → length t + length row + 1 < data_max_size
    → str_cat (text_array t) row ≡ some (text_array (t ++ row))
unfolding str_cat
str_cat_lem t row h l =
    let n = data_max_size - suc (length t) in
    let text : c_str (text_array t) ≡ t = c_str_text t n h in
    let room : strcat (text_array t) row ≡ text_array (t ++ row) =
      strcat_lem t row n h
      ∙ ap (λ k. (t ++ row) ++ 0 ∷ replicate k 0) (omega (arith, length-append t row)) in
    ap
      (λ u.
        if leb data_max_size (length u + length row + 1)
        then none
        else some (strcat (text_array t) row))
      text
    ∙ ground (arith, room)

request_fill-row :
    (item : AcpRequest) (row text : List ℕ) (rows : List (List ℕ))
    → str_cat item.data_buf row ≡ some text
    → request_fill item (row ∷ rows) ≡ request_fill (record item { data_buf = text }) rows
unfolding request_fill
request_fill-row item row text rows e = ground (arith, e)

request_fill_lem :
    (item : AcpRequest) (t : List ℕ) (rows : List (List ℕ))
    → IsText t
    → All IsText rows
    → length t + length (concat rows) + 1 < data_max_size
    → request_fill (record item { data_buf = text_array t }) rows
      ≡ some (record item { data_buf = text_array (t ++ concat rows) })
unfolding request_fill
request_fill_lem item t [] ht hr l =
    ap (λ u. some (record item { data_buf = text_array u })) (sym (append_nil t))
request_fill_lem item t (row ∷ rows) ht hr l =
    request_fill-row (record item { data_buf = text_array t }) row (text_array (t ++ row)) rows
      (str_cat_lem t row ht (omega (arith, length-append row (concat rows))))
    ∙ (request_fill_lem item (t ++ row) rows (All-append _ t row ht hr.0) hr.1
          (omega (arith, length-append row (concat rows), length-append t row))
        ∙ ap (λ u. some (record item { data_buf = text_array u }))
            (append_assoc t row (concat rows)))

pub concat-IsText : (rows : List (List ℕ)) → All IsText rows → IsText (concat rows)
concat-IsText [] h = tt
concat-IsText (row ∷ rows) h = All-append _ row (concat rows) h.0 (concat-IsText rows h.1)

text-cmd :
    (cmd : List ℕ) → IsText cmd → length cmd < command_max_size → c_str (strncpy cmd 16) ≡ cmd
unfolding strncpy
text-cmd cmd h l =
    ap c_str (
      ap (λ t. t ++ replicate (16 - length cmd) 0) (take_all 16 cmd (omega arith))
      ∙ ap (λ k. cmd ++ replicate k 0) {y = suc (15 - length cmd)} (omega arith))
    ∙ c_str_text cmd (15 - length cmd) h

-- A request is made of a command and rows that fit, packed with a number from `rand`, and sent. It
-- always gets that far, and a peer that receives these bytes reads the same command, the rows one
-- after the other as the data, and the number as the id. The command and the rows are texts without
-- the delimiter of blocks and together have three characters at least.
pub request_read-request_rows :
    (s r : AcpRequest) (cmd : List ℕ) (rows : List (List ℕ)) (rand : ℕ)
    → IsText cmd
    → IsBlock cmd
    → All IsText rows
    → IsBlock (concat rows)
    → length cmd < command_max_size
    → length (concat rows) + 1 < data_max_size
    → 3 ≤ length cmd + length (concat rows)
    → rand < 2 ^ 32
    → Succeeds
        (λ item.
          Holds cmd
            (concat rows)
            rand
            (request_read (request_init r) (some (sent_bytes (request_pack rand item).buf))))
        (request_rows s cmd rows)
unfolding request_rows request_init request_set_cmd
request_read-request_rows s r cmd rows rand tc bc tx br lc lr l3 lid =
    let cmd_array = strncpy cmd 16 in
    let text = concat rows in
    let array = text_array text in
    let filled : request_rows s cmd rows ≡ some (with_arrays s cmd_array array) =
      request_fill_lem (request_set_cmd (request_init s) cmd) [] rows tt tx (omega arith) in
    let ec : cmd ≡ c_str cmd_array = sym (text-cmd cmd tc lc) in
    let et : text ≡ c_str array =
      sym (c_str_text text (data_max_size - suc (length text)) (concat-IsText rows tx)) in
    let outcome =
      request_read (request_init r)
        (some (sent_bytes (request_pack rand (with_arrays s cmd_array array)).buf)) in
    let held : Holds (c_str cmd_array) (c_str array) rand outcome =
      request_read-request_pack s r cmd_array array rand (subst IsBlock ec bc) (subst IsBlock et br)
        (subst (λ t. length t < command_max_size) ec lc)
        (subst (λ t. length t < data_max_size) et (omega arith))
        (omega (arith, ap length ec, ap length et)) lid in
    subst
      (Succeeds (λ item.
        Holds cmd text rand
          (request_read (request_init r) (some (sent_bytes (request_pack rand item).buf)))))
      (sym filled)
      (subst (λ t. Holds t text rand outcome) (sym ec)
        (subst (λ t. Holds (c_str cmd_array) t rand outcome) (sym et) held))

is_block_end-loop :
    (cmd a rest : List ℕ)
    → IsBlock a
    → IsBlock cmd
    → (is_block_end (cmdcmp_loop cmd (close_block a rest)) ≡ true) ↔ (cmd ≡ a)
unfolding is_block_end cmdcmp_loop
is_block_end-loop [] [] rest ha hc = ground arith
is_block_end-loop [] (b ∷ a) rest ha hc = ground (arith, ha.0)
is_block_end-loop (c ∷ cmd) [] rest ha hc = ground (arith, hc.0)
is_block_end-loop (c ∷ cmd) (b ∷ a) rest ha hc =
    ground (arith, is_block_end-loop cmd a rest ha.1 hc.1)

-- A request is recognised as a command, of at least one character, exactly if the command is the
-- first block of its packet.
pub cmdcmp_iff :
    (request : AcpRequest) (c : ℕ) (cmd a rest : List ℕ)
    → request.buf ≡ close_block a rest
    → IsBlock a
    → IsBlock (c ∷ cmd)
    → (cmdcmp request (c ∷ cmd) ≡ true) ↔ (c ∷ cmd ≡ a)
unfolding cmdcmp
cmdcmp_iff request c cmd a rest e ha hc =
    subst (λ t. (is_block_end (cmdcmp_loop (c ∷ cmd) t) ≡ true) ↔ (c ∷ cmd ≡ a)) (sym e)
      (is_block_end-loop (c ∷ cmd) a rest ha hc)
