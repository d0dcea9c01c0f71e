-- ===== src/Acp/Packet/ResponseTrip.antt =====
-- lib/acp/main.c: a response that is packed and sent is read as it was.
use mathlib.Core.Path.{subst}
use regonf.Prelude.{
  ℕ, ◌+◌, ◌-◌, ◌^◌, ◌≤◌, ◌<◌, ◌≡◌, refl, sym, ap, ◌∙◌, Bool, true, false, Option, none, some, List,
  ◌∷◌, arith, ◌==◌, if◌then◌else◌, length, replicate, All-append, length-append,
}
use regonf.CString.Buffer.{IsText, c_str, strlen}
use regonf.CString.Decimal.{print_u, print_u-AreDigits, length-print_u}
use regonf.Crc.{crc_update_by_str}
use regonf.Acp.Packet.{
  AcpResponse, response_init, response_pack, sent_bytes, crc_check, data_max_size, buffer_max_size,
  delimiter_column,
}
use regonf.Acp.Packet.Check.{IsBlock, three}
use regonf.Acp.Packet.Scan.{over, c_str-over, read_number-over}
use regonf.Acp.Packet.Deliver.{
  packet, strlen-packet, digits-IsText, digits-IsBlock, c_str-IsText, three-IsText, length-three,
  packet-delivered,
}
use regonf.Acp.Packet.Parse.{num_str_length, read_number}
use regonf.Acp.Packet.Response.{
  ResponseScan, scan_response, response_numbers, finish_response, no_digits, response_scan,
  response_parse, response_read, is_missing, parsed_or_not,
}
use regonf.Acp.Packet.ScanResponse.{counter, scan-three}

-- A response that has been read, with its data and numbers
abbrev pub Carries : List ℕ → (seq last id : ℕ) → Option (Bool × AcpResponse) → Type 0
Carries text seq last id none = ⊥
Carries text seq last id (some (false, r)) = ⊥
Carries text seq last id (some (true, r)) =
    (c_str r.data_buf ≡ text) × (r.seq ≡ seq) × (r.is_not_last ≡ last) × (r.id ≡ id)

digits_present : (n : ℕ) → is_missing (over (print_u n) no_digits) ≡ false
digits_present n =
    ap (λ t. length t == 0)
      (c_str-over (print_u n) num_str_length (digits-IsText (print_u n) (print_u-AreDigits n))
        (omega (arith, length-print_u n)))
    ∙ ground (arith, length-print_u n)

response_numbers-done :
    (item : AcpResponse) (s : ResponseScan) (seq last id : ℕ)
    → read_number s.seq_str ≡ some seq
    → read_number s.inl_str ≡ some last
    → read_number s.id_str ≡ some id
    → is_missing s.seq_str ≡ false
    → is_missing s.inl_str ≡ false
    → is_missing s.id_str ≡ false
    → finish_response item (some (true, s))
      ≡ some (true, record item { data_buf = s.data_buf; seq = seq; is_not_last = last; id = id })
unfolding finish_response response_numbers
response_numbers-done item s seq last id e1 e2 e3 m1 m2 m3 = ground (arith, e1, e2, e3, m1, m2, m3)

response_parse-scanned :
    (item : AcpResponse) (n : ℕ)
    → strlen item.buf ≡ some n
    → 9 ≤ n
    → response_parse item ≡ finish_response item (scan_response item.buf (response_scan item))
unfolding response_parse
response_parse-scanned item n e l = ground arith

-- A receiver whose array holds a packet
abbrev holding : AcpResponse → List ℕ → ℕ → AcpResponse
holding r body m = record (response_init r) { buf = packet body m }

read-packet :
    (r : AcpResponse) (b : List ℕ) (seq last id m : ℕ)
    → IsText (three (counter seq last) b (print_u id))
    → IsText b
    → IsBlock b
    → length b < data_max_size
    → 9 ≤ length (three (counter seq last) b (print_u id))
    → seq < 2 ^ 32
    → last < 2 ^ 32
    → id < 2 ^ 32
    → Carries b seq last id (response_parse (holding r (three (counter seq last) b (print_u id)) m))
unfolding response_init
read-packet r b seq last id m ht tb hb lb l ls ll li =
    let n = print_u id in
    let body = three (counter seq last) b n in
    let item = holding r body m in
    let crc = crc_update_by_str 0 body in
    let (k, e, lk) = strlen-packet body (replicate m 0) crc ht in
    let parsed =
      response_parse-scanned item k e (omega arith)
      ∙ scan-three item seq last id b (replicate data_max_size 0) (replicate m 0) crc hb
          (omega arith)
      ∙ response_numbers-done item _ seq last id (read_number-over seq ls)
          (read_number-over last ll) (read_number-over id li) (digits_present seq)
          (digits_present last) (digits_present id) in
    subst (Carries b seq last id) (sym parsed) (c_str-over b data_max_size tb lb, refl, refl, refl)

counter-IsText : (seq last : ℕ) → IsText (counter seq last)
counter-IsText seq last =
    All-append _ (print_u seq) _ (digits-IsText _ (print_u-AreDigits seq))
      (omega arith, digits-IsText _ (print_u-AreDigits last))

counter-IsBlock : (seq last : ℕ) → IsBlock (counter seq last)
counter-IsBlock seq last =
    All-append _ (print_u seq) _ (digits-IsBlock _ (print_u-AreDigits seq))
      (omega arith, digits-IsBlock _ (print_u-AreDigits last))

-- An initialised response with the given contents
abbrev pub with_data : AcpResponse → (text : List ℕ) (seq last id : ℕ) → AcpResponse
with_data s text seq last id = record (response_init s) {
  data_buf = text;
  seq = seq;
  is_not_last = last;
  id = id;
}

-- A response with data of two characters or more that leave room for the terminator and have no
-- delimiter of blocks is packed and sent; the peer that receives the bytes reads the same data, number
-- in the sequence, mark of the last packet, and id.
pub response_read-response_pack :
    (s r : AcpResponse) (text : List ℕ) (seq last id : ℕ)
    → IsBlock (c_str text)
    → 2 ≤ length (c_str text)
    → length (c_str text) < data_max_size
    → seq < 2 ^ 32
    → last < 2 ^ 32
    → id < 2 ^ 32
    → Carries (c_str text) seq last id (
        response_read
          (response_init r)
          (some (sent_bytes (response_pack (with_data s text seq last id)).buf)))
unfolding response_read response_pack response_init
response_read-response_pack s r text seq last id hb l2 lb ls ll li =
    let a = counter seq last in
    let b = c_str text in
    let n = print_u id in
    let body = three a b n in
    let tb = c_str-IsText text in
    let ht : IsText body =
      three-IsText a b n (counter-IsText seq last) tb (digits-IsText n (print_u-AreDigits id)) in
    let size = length-three a b n in
    let head = length-append (print_u seq) (delimiter_column ∷ print_u last) in
    let d1 = length-print_u seq in
    let d2 = length-print_u last in
    let d3 = length-print_u id in
    let (received, checked) =
      packet-delivered a b n ht (counter-IsBlock seq last) hb
        (digits-IsBlock n (print_u-AreDigits id)) (omega arith) in
    let m = buffer_max_size - (length body + 2) in
    let held = read-packet r b seq last id m ht tb hb lb (omega arith) ls ll li in
    subst
      (λ x. Carries b seq last id (
        if crc_check x
        then parsed_or_not (response_parse (record (response_init r) { buf = x }))
        else some (false, record (response_init r) { buf = x })))
      (sym received)
      (subst
        (λ t. Carries b seq last id (
          if t
          then parsed_or_not (response_parse (holding r body m))
          else some (false, holding r body m)))
        (sym checked) (parsed_lem (response_parse (holding r body m)) held))
  where
    parsed_lem :
        (o : Option (Bool × AcpResponse))
        → Carries (c_str text) seq last id o
        → Carries (c_str text) seq last id (parsed_or_not o)
    parsed_lem none c = c
    parsed_lem (some (false, r)) c = elim c [ ]
    parsed_lem (some (true, r)) c = c
