-- ===== src/Acp/Packet/RoundTrip.antt =====
-- lib/acp/main.c: a request that is packed and sent is read as it was.
use regonf.Prelude.{
  ◌∷◌, refl, ℕ, ◌+◌, ◌-◌, ◌^◌, ◌<◌, ◌≤◌, ◌≡◌, sym, ◌∙◌, some, List, arith, if◌then◌else◌, length,
  replicate,
}
use mathlib.Core.Path.{subst}
use regonf.CString.Buffer.{IsText, c_str, strlen}
use regonf.CString.Decimal.{print_u, print_u-AreDigits, length-print_u}
use regonf.Crc.{crc_update_by_str}
use regonf.Acp.Packet.{
  close_block, AcpRequest, request_init, request_pack, sent_bytes, crc_check, buffer_max_size,
  data_max_size, command_max_size,
}
use regonf.Acp.Packet.Parse.{count_data_rows, RequestScan, read_number}
use regonf.Acp.Packet.Scan.{
  read_number-over, count_data_rows-over, scan_at, scan-three, over, c_str-over,
}
use regonf.Acp.Packet.Check.{three-append, IsBlock, three}
use regonf.Acp.Packet.Deliver.{
  packet, strlen-packet, digits-IsText, digits-IsBlock, c_str-IsText, three-IsText, length-three,
  packet-delivered,
}
use regonf.Acp.Packet.Parse.{
  Outcome, fault, fail, done, scan_request, finish_parse, request_scan, request_parse, request_read,
}

-- The first block of a packet
abbrev pub BeginsWith : List ℕ → List ℕ → Type 0
BeginsWith cmd buf = (rest : List ℕ) × (buf ≡ close_block cmd rest)

-- What a request that has been read holds
abbrev pub Holds : List ℕ → List ℕ → ℕ → Outcome AcpRequest → Type 0
Holds cmd text id fault = ⊥
Holds cmd text id fail = ⊥
Holds cmd text id (done r) =
    (c_str r.cmd ≡ cmd)
    × (c_str r.data_buf ≡ text)
    × (r.id ≡ id)
    × (r.data_rows_count ≡ count_data_rows text)
    × BeginsWith cmd r.buf

request_parse-scanned :
    (item : AcpRequest) (n : ℕ)
    → strlen item.buf ≡ some n
    → 7 ≤ n
    → request_parse item ≡ finish_parse item (scan_request item.buf (request_scan item))
unfolding request_parse
request_parse-scanned item n e l = ground arith

finish_parse-done :
    (item : AcpRequest) (s : RequestScan) (id : ℕ)
    → read_number s.id_str ≡ some id
    → finish_parse item (done s)
      ≡ done (record item {
        cmd = s.cmd;
        data_buf = s.data_buf;
        data_rows_count = count_data_rows s.data_buf;
        id = id;
      })
unfolding finish_parse
finish_parse-done item s id e = ground (arith, e)

-- A receiver whose array holds a packet
abbrev holding : AcpRequest → List ℕ → ℕ → AcpRequest
holding r body m = record (request_init r) { buf = packet body m }

read-packet :
    (r : AcpRequest) (a b : List ℕ) (id m : ℕ)
    → IsText (three a b (print_u id))
    → IsText a
    → IsText b
    → IsBlock a
    → IsBlock b
    → length a < command_max_size
    → length b < data_max_size
    → 7 ≤ length (three a b (print_u id))
    → id < 2 ^ 32
    → Holds a b id (request_parse (holding r (three a b (print_u id)) m))
unfolding request_init
read-packet r a b id m ht ta tb ha hb la lb l lid =
    let n = print_u id in
    let item = holding r (three a b n) m in
    let crc = crc_update_by_str 0 (three a b n) in
    let (k, e, lk) = strlen-packet (three a b n) (replicate m 0) crc ht in
    let digits = print_u-AreDigits id in
    let small = length-print_u id in
    let z : ℕ → List ℕ = λ k. replicate k 0 in
    let parsed : request_parse item
        ≡ finish_parse item (done (scan_at 3 (over a (z 16)) (over b (z 456)) (over n (z 12)) 0)) =
      request_parse-scanned item k e (omega arith)
      ∙ scan-three item a b n (z 16) (z 456) (z 12) (z m) crc ha hb digits (omega arith)
          (omega arith) (omega arith) in
    subst (Holds a b id) (sym (parsed ∙ finish_parse-done item _ id (read_number-over id lid))) (
      c_str-over a 16 ta la,
      c_str-over b 456 tb lb,
      refl,
      count_data_rows-over b 456 tb lb,
      (close_block b (close_block n (crc ∷ 0 ∷ z m)), three-append a b n (crc ∷ 0 ∷ z m)),
    )

-- An initialised request with the given arrays
abbrev pub with_arrays : AcpRequest → (cmd text : List ℕ) → AcpRequest
with_arrays item cmd text = record (request_init item) { cmd = cmd; data_buf = text }

pub request_read-request_pack :
    (s r : AcpRequest) (cmd text : List ℕ) (rand : ℕ)
    → IsBlock (c_str cmd)
    → IsBlock (c_str text)
    → length (c_str cmd) < command_max_size
    → length (c_str text) < data_max_size
    → 3 ≤ length (c_str cmd) + length (c_str text)
    → rand < 2 ^ 32
    → Holds (c_str cmd) (c_str text) rand (
        request_read
          (request_init r)
          (some (sent_bytes (request_pack rand (with_arrays s cmd text)).buf)))
unfolding request_read request_pack request_init
request_read-request_pack s r cmd text rand ha hb la lb l lid =
    let a = c_str cmd in
    let b = c_str text in
    let n = print_u rand in
    let body = three a b n in
    let ht : IsText body =
      three-IsText a b n (c_str-IsText cmd) (c_str-IsText text)
        (digits-IsText n (print_u-AreDigits rand)) in
    let size : length body ≡ length a + length b + length n + 3 = length-three a b n in
    let digits = length-print_u rand in
    let fits : length body + 2 ≤ buffer_max_size = omega arith in
    let m = buffer_max_size - (length body + 2) in
    let (received, checked) =
      packet-delivered a b n ht ha hb (digits-IsBlock n (print_u-AreDigits rand)) fits in
    subst
      (λ x.
        Holds a b rand
          (if crc_check x then request_parse (record (request_init r) { buf = x }) else fail))
      (sym received)
      (subst (λ t. Holds a b rand (if t then request_parse (holding r body m) else fail))
        (sym checked)
        (read-packet r a b rand m ht (c_str-IsText cmd) (c_str-IsText text) ha hb la lb
          (omega arith) lid))
