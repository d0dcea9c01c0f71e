-- ===== src/Acp/Packet/Deliver.antt =====
-- lib/acp/main.c: the way of a packet from the array of the sender to the array of the receiver.
use regonf.Prelude.{
  ℕ, zero, suc, ◌+◌, ◌-◌, ◌<◌, ◌≤◌, ◌≡◌, sym, ap, ◌∙◌, true, some, List, [], ◌∷◌, ◌++◌, arith,
  length, take, replicate, length-append, All-append,
}
use regonf.CString.Buffer.{IsText, c_str, strlen, drop-replicate, strlen-append}
use regonf.CString.Decimal.{AreDigits}
use regonf.Crc.{crc_update_by_str}
use regonf.Acp.Packet.{
  packlen, sent_bytes, pack, crc_check, close_block, delimiter_block, buffer_max_size,
}
use regonf.Prelude.{append_assoc}
use regonf.Acp.Packet.Pack.{pack_lem}
use regonf.Acp.Packet.Check.{IsBlock, three, packlen-three, crc_check-three}
use regonf.Acp.Packet.Parse.{receive}

-- The array of a packet: its blocks, its checksum, and zeros
abbrev pub packet : List ℕ → ℕ → List ℕ
packet body m = body ++ crc_update_by_str 0 body ∷ 0 ∷ replicate m 0

pub strlen-packet :
    (body rest : List ℕ) (x : ℕ)
    → IsText body
    → (n : ℕ) × (strlen (body ++ x ∷ 0 ∷ rest) ≡ some n) × (length body ≤ n)
unfolding strlen
strlen-packet body rest zero h = (length body, strlen-append body (0 ∷ rest) h, omega arith)
strlen-packet body rest (suc x) h = (
  suc (length body),
  ap strlen (sym (append_assoc body (suc x ∷ []) (0 ∷ rest)))
      ∙ strlen-append (body ++ suc x ∷ []) rest (All-append _ body (suc x ∷ []) h (omega arith, tt))
      ∙ ap some {y = suc (length body)} (omega (arith, length-append body (suc x ∷ []))),
  omega arith,
)

pub digits-IsText : (n : List ℕ) → AreDigits n → IsText n
digits-IsText [] h = tt
digits-IsText (c ∷ n) h = (ground (arith, h.0), digits-IsText n h.1)

pub packet-shape :
    (body : List ℕ) (x n : ℕ)
    → length body + 2 ≤ n
    → body ++ x ∷ replicate (n - suc (length body)) 0
      ≡ body ++ x ∷ 0 ∷ replicate (n - (length body + 2)) 0
packet-shape body x n l =
    ap (λ k. body ++ x ∷ replicate k 0) {y = suc (n - (length body + 2))} (omega arith)

take-append : (xs ys : List ℕ) (n : ℕ) → take (length xs + n) (xs ++ ys) ≡ xs ++ take n ys
take-append [] ys n = ap (λ k. take k ys) {x = 0 + n} (omega arith)
take-append (x ∷ xs) ys n =
    ap (λ k. take k (x ∷ (xs ++ ys))) {x = suc (length xs) + n} {y = suc (length xs + n)}
      (omega arith)
    ∙ ap (λ t. x ∷ t) (take-append xs ys n)

-- What is sent of a packet fills the array of the receiver with the same packet.
pub receive-packet :
    (body : List ℕ)
    → length body + 2 ≤ buffer_max_size
    → let m = buffer_max_size - (length body + 2) in
      receive (take (length body + 2) (packet body m)) (replicate buffer_max_size 0) ≡ packet body m
unfolding receive
receive-packet body l =
    let m = buffer_max_size - (length body + 2) in
    let c = crc_update_by_str 0 body in
    let z : List ℕ = replicate buffer_max_size 0 in
    ap (λ t. receive t z) (take-append body (c ∷ 0 ∷ replicate m 0) 2)
    ∙ ap (λ t. (body ++ c ∷ 0 ∷ []) ++ t)
        (drop-replicate (length (body ++ c ∷ 0 ∷ [])) buffer_max_size
          ∙ ap (λ k. replicate k 0) {y = m} (omega (arith, length-append body (c ∷ 0 ∷ []))))
    ∙ append_assoc body (c ∷ 0 ∷ []) (replicate m 0)

pub c_str-IsText : (bs : List ℕ) → IsText (c_str bs)
unfolding c_str
c_str-IsText [] = tt
c_str-IsText (zero ∷ bs) = tt
c_str-IsText (suc b ∷ bs) = (omega arith, c_str-IsText bs)

pub digits-IsBlock : (n : List ℕ) → AreDigits n → IsBlock n
digits-IsBlock [] h = tt
digits-IsBlock (c ∷ n) h = (ground (arith, h.0), digits-IsBlock n h.1)

pub three-IsText : (a b n : List ℕ) → IsText a → IsText b → IsText n → IsText (three a b n)
three-IsText a b n ha hb hn =
    let d : 0 < delimiter_block = omega arith in
    All-append _ a _ ha (d, All-append _ b _ hb (d, All-append _ n _ hn (d, tt)))

pub length-three : (a b n : List ℕ) → length (three a b n) ≡ length a + length b + length n + 3
length-three a b n = omega (
  arith,
  length-append a (delimiter_block ∷ close_block b (close_block n [])),
  length-append b (delimiter_block ∷ close_block n []),
  length-append n (delimiter_block ∷ []),
)

-- What a text of three blocks is packed to and sent as, received into zeros, is the same packet, and
-- its checksum is right.
pub packet-delivered :
    (a b n : List ℕ)
    → IsText (three a b n)
    → IsBlock a
    → IsBlock b
    → IsBlock n
    → length (three a b n) + 2 ≤ buffer_max_size
    → let body = three a b n in
      let sent = sent_bytes ((pack (replicate buffer_max_size 0) 0 body).0) in
      let arrived = packet body (buffer_max_size - (length body + 2)) in
      (receive sent (replicate buffer_max_size 0) ≡ arrived) × (crc_check arrived ≡ true)
packet-delivered a b n ht ha hb hn fits =
    let body = three a b n in
    let m = buffer_max_size - (length body + 2) in
    let crc = crc_update_by_str 0 body in
    let z : List ℕ = replicate buffer_max_size 0 in
    let packed : (pack z 0 body).0 ≡ packet body m =
      ap (λ t. t.0) (pack_lem body 0 ht fits) ∙ packet-shape body crc buffer_max_size fits in
    let bytes : sent_bytes ((pack z 0 body).0) ≡ take (length body + 2) (packet body m) =
      ap (λ t. take (packlen t) t) packed
      ∙ ap (λ k. take k (packet body m)) (packlen-three a b n (replicate m 0) crc 0 ha hb hn) in
    (
      ap (λ t. receive t z) bytes ∙ receive-packet body fits,
      crc_check-three a b n (0 ∷ replicate m 0) crc ha hb hn ∙ ground arith,
    )
