-- ===== src/Acp/Packet/Pack.antt =====
-- lib/acp/main.c: what a packed request looks like in its array.
use regonf.Prelude.{
  ℕ, zero, suc, ◌+◌, ◌-◌, ◌<◌, ◌≤◌, ◌≡◌, ap, ◌∙◌, List, [], ◌∷◌, ◌++◌, arith, length, take,
  replicate, length-append, take_all,
}
use regonf.Prelude.{append_nil, append_assoc}
use regonf.CString.Buffer.{
  IsText, c_str, strcpy, strcat, snprintf, drop, c_str-append, drop-replicate,
}
use regonf.Crc.{crc_update_by_str}
use regonf.Acp.Packet.{pack, buffer_max_size}

drop-append : (xs ys : List ℕ) (n : ℕ) → drop (length xs + n) (xs ++ ys) ≡ drop n ys
unfolding drop
drop-append [] ys n = ap (λ k. drop k ys) {x = 0 + n} {y = n} (omega arith)
drop-append (x ∷ xs) ys n =
    ap (λ k. drop k (x ∷ xs ++ ys)) {x = suc (length xs) + n} {y = suc (length xs + n)}
      (omega arith)
    ∙ drop-append xs ys n

-- The text of a string array
pub c_str_text : (s : List ℕ) (n : ℕ) → IsText s → c_str (s ++ 0 ∷ replicate n 0) ≡ s
unfolding c_str
c_str_text s n h = c_str-append s (0 ∷ replicate n 0) h ∙ append_nil s

-- The array after `snprintf` into zeros
printed_lem :
    (body : List ℕ) (n : ℕ)
    → length body < n
    → strcpy (replicate n 0) body ≡ body ++ 0 ∷ replicate (n - suc (length body)) 0
unfolding strcpy
printed_lem body n h = ap (λ t. body ++ 0 ∷ t) (drop-replicate (suc (length body)) n)

-- A text appended to a text in front of zeros
pub strcat_lem :
    (body s : List ℕ) (n : ℕ)
    → IsText body
    → strcat (body ++ 0 ∷ replicate n 0) s ≡ (body ++ s) ++ 0 ∷ replicate (n - length s) 0
unfolding strcat strcpy drop
strcat_lem body s n h =
    let array = body ++ 0 ∷ replicate n 0 in
    let rest : drop (suc (length (body ++ s))) array ≡ replicate (n - length s) 0 =
      ap (λ k. drop k array) {x = suc (length (body ++ s))} {y = length body + suc (length s)}
        (omega (arith, length-append body s))
      ∙ drop-append body (0 ∷ replicate n 0) (suc (length s))
      ∙ drop-replicate (length s) n in
    ap (λ t. strcpy array (t ++ s)) (c_str_text body n h) ∙ ap (λ t. (body ++ s) ++ 0 ∷ t) rest

-- The checksum as a string is empty when it is 0, and then the terminator stands in its place.
strcat-crc :
    (body : List ℕ) (c n : ℕ)
    → IsText body
    → strcat (body ++ 0 ∷ replicate (suc n) 0) (c_str (c ∷ 0 ∷ []))
      ≡ body ++ c ∷ replicate (suc n) 0
unfolding c_str
strcat-crc body zero n h =
    strcat_lem body [] (suc n) h
    ∙ ap (λ t. t ++ 0 ∷ replicate (suc n - 0) 0) (append_nil body)
    ∙ ap (λ k. body ++ 0 ∷ replicate k 0) {x = suc n - 0} {y = suc n} (omega arith)
strcat-crc body (suc c) n h =
    strcat_lem body (suc c ∷ []) (suc n) h
    ∙ append_assoc body (suc c ∷ []) (0 ∷ replicate (suc n - 1) 0)
    ∙ ap (λ k. body ++ suc c ∷ 0 ∷ replicate k 0) {x = suc n - 1} {y = n} (omega arith)

-- Packed into zeros, a text that leaves room is followed by its checksum and zeros.
pub pack_lem :
    (body : List ℕ) (crc : ℕ)
    → IsText body
    → length body + 2 ≤ buffer_max_size
    → let crc' = crc_update_by_str crc body in
      pack (replicate buffer_max_size 0) crc body
      ≡ (body ++ crc' ∷ replicate (buffer_max_size - suc (length body)) 0, crc')
unfolding pack snprintf
pack_lem body crc h l =
    let m = buffer_max_size - suc (suc (length body)) in
    let P = body ++ 0 ∷ replicate (suc m) 0 in
    let fits : take 507 body ≡ body = take_all 507 body (omega arith) in
    let printed : snprintf (replicate buffer_max_size 0) buffer_max_size body ≡ P =
      ap (strcpy (replicate buffer_max_size 0)) fits
      ∙ printed_lem body buffer_max_size (omega arith)
      ∙ ap (λ k. body ++ 0 ∷ replicate k 0) {y = suc m} (omega arith) in
    let text : c_str P ≡ body = c_str_text body (suc m) h in
    let crc' = crc_update_by_str crc body in
    ap
      (λ t. (
        strcat t (c_str (crc_update_by_str crc (c_str t) ∷ 0 ∷ [])),
        crc_update_by_str crc (c_str t),
      ))
      printed
    ∙ ap (λ t. (strcat P (c_str (crc_update_by_str crc t ∷ 0 ∷ [])), crc_update_by_str crc t)) text
    ∙ ap (λ t. (t, crc'))
        (strcat-crc body crc' m h
          ∙ ap (λ k. body ++ crc' ∷ replicate k 0) {x = suc m} (omega arith))
