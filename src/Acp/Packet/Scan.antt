-- ===== src/Acp/Packet/Scan.antt =====
-- lib/acp/main.c: what the loop of `acp_requestParse` does with the three blocks of a packet.
use regonf.Prelude.{
  zero, suc, refl, ◌%◌, ◌^◌, ℕ, suc, ◌+◌, ◌-◌, ◌<◌, ◌≤◌, ◌≡◌, ap, ◌∙◌, List, [], ◌∷◌, ◌++◌, arith,
  length, replicate, set, length-replicate,
}
use regonf.CString.Buffer.{IsText, c_str, write_all, drop-replicate, write_all-front}
use regonf.CString.Decimal.{AreDigits}
use regonf.Prelude.{some}
use regonf.Acp.Packet.{AcpRequest, data_max_size, command_max_size}
use regonf.Acp.Packet.Parse.{read_number, count_data_rows}
use regonf.CString.Buffer.{strlen, strlen-append}
use regonf.CString.Decimal.{
  print_u, print_u-AreDigits, length-print_u, read_digits, read_digits-print_u,
}
use regonf.Acp.Packet.Deliver.{digits-IsText}
use regonf.Acp.Packet.Pack.{c_str_text}
use regonf.Acp.Packet.Check.{IsBlock, three, three-append}
use regonf.Acp.Packet.Parse.{
  done, RequestScan, scan_byte, scan_step, scan_request, finish_parse, num_str_length,
}

abbrev pub scan_at : ℕ → List ℕ → List ℕ → List ℕ → ℕ → RequestScan
scan_at block_count cmd data_buf id_str j = record {
  cmd = cmd;
  data_buf = data_buf;
  id_str = id_str;
  block_count = block_count;
  j = j;
}

scan-cmd :
    (xs rest c d i : List ℕ) (j : ℕ)
    → IsBlock xs
    → j + length xs ≤ command_max_size
    → scan_request (xs ++ rest) (scan_at 0 c d i j)
      ≡ scan_request rest (scan_at 0 (write_all c j xs) d i (j + length xs))
unfolding scan_request scan_step scan_byte write_all
scan-cmd [] rest c d i j h l = ap (λ k. scan_request rest (scan_at 0 c d i k)) {x = j} (omega arith)
scan-cmd (x ∷ xs) rest c d i j h l =
    ground (arith, scan-cmd xs rest (set c j x) d i (suc j) h.1 (omega arith))

scan-data :
    (xs rest c d i : List ℕ) (j : ℕ)
    → IsBlock xs
    → j + length xs ≤ data_max_size
    → scan_request (xs ++ rest) (scan_at 1 c d i j)
      ≡ scan_request rest (scan_at 1 c (write_all d j xs) i (j + length xs))
unfolding scan_request scan_step scan_byte write_all
scan-data [] rest c d i j h l =
    ap (λ k. scan_request rest (scan_at 1 c d i k)) {x = j} (omega arith)
scan-data (x ∷ xs) rest c d i j h l =
    ground (arith, scan-data xs rest c (set d j x) i (suc j) h.1 (omega arith))

scan-id :
    (xs rest c d i : List ℕ) (j : ℕ)
    → AreDigits xs
    → j + length xs ≤ num_str_length
    → scan_request (xs ++ rest) (scan_at 2 c d i j)
      ≡ scan_request rest (scan_at 2 c d (write_all i j xs) (j + length xs))
unfolding scan_request scan_step scan_byte write_all
scan-id [] rest c d i j h l = ap (λ k. scan_request rest (scan_at 2 c d i k)) {x = j} (omega arith)
scan-id (x ∷ xs) rest c d i j h l =
    ground (arith, scan-id xs rest c d (set i j x) (suc j) h.1 (omega arith))

-- The checksum may be the code of the delimiter; the byte after it ends the loop in any case.
scan-end :
    (item : AcpRequest) (c d i rest : List ℕ) (x : ℕ)
    → finish_parse item (scan_request (x ∷ 0 ∷ rest) (scan_at 3 c d i 0))
      ≡ finish_parse item (done (scan_at 3 c d i 0))
unfolding scan_request scan_step scan_byte finish_parse
scan-end item c d i rest x = ground arith

-- The array with the bytes of a block at its start
abbrev pub over : List ℕ → List ℕ → List ℕ
over xs array = write_all array 0 xs

pub scan-three :
    (item : AcpRequest) (a b n c d i rest : List ℕ) (x : ℕ)
    → IsBlock a
    → IsBlock b
    → AreDigits n
    → length a ≤ command_max_size
    → length b ≤ data_max_size
    → length n ≤ num_str_length
    → finish_parse item (scan_request (three a b n ++ x ∷ 0 ∷ rest) (scan_at 0 c d i 0))
      ≡ finish_parse item (done (scan_at 3 (over a c) (over b d) (over n i) 0))
unfolding scan_request scan_step
scan-three item a b n c d i rest x ha hb hn la lb ln =
    ap (λ t. finish_parse item (scan_request t (scan_at 0 c d i 0)))
      (three-append a b n (x ∷ 0 ∷ rest))
    ∙ ap (finish_parse item) (
        scan-cmd a _ c d i 0 ha (omega arith)
        ∙ scan-data b _ (over a c) d i 0 hb (omega arith)
        ∙ scan-id n _ (over a c) (over b d) i 0 hn (omega arith))
    ∙ scan-end item (over a c) (over b d) (over n i) rest x

pub over-zeros :
    (xs : List ℕ) (n : ℕ)
    → length xs < n
    → over xs (replicate n 0) ≡ xs ++ 0 ∷ replicate (n - suc (length xs)) 0
over-zeros xs n l =
    write_all-front xs (replicate n 0) (omega (arith, length-replicate {A = ℕ} n 0))
    ∙ ap (λ t. xs ++ t) (drop-replicate (length xs) n)
    ∙ ap (λ k. xs ++ replicate k 0) {y = suc (n - suc (length xs))} (omega arith)

pub c_str-over :
    (xs : List ℕ) (n : ℕ) → IsText xs → length xs < n → c_str (over xs (replicate n 0)) ≡ xs
c_str-over xs n h l = ap c_str (over-zeros xs n l) ∙ c_str_text xs (n - suc (length xs)) h

-- An array of digits is read as the number that they print.
pub read_number-over :
    (id : ℕ) → id < 2 ^ 32 → read_number (over (print_u id) (replicate num_str_length 0)) ≡ some id
unfolding read_number
read_number-over id l =
    let n = print_u id in
    let digits = length-print_u id in
    let text = digits-IsText n (print_u-AreDigits id) in
    let ends : strlen (over n (replicate num_str_length 0)) ≡ some (length n) =
      ap strlen (over-zeros n num_str_length (omega arith)) ∙ strlen-append n _ text in
    let reads : read_digits 0 (c_str (over n (replicate num_str_length 0))) % 2 ^ 32 ≡ id =
      ap (λ t. read_digits 0 t % 2 ^ 32) (c_str-over n num_str_length text (omega arith))
      ∙ omega (arith, read_digits-print_u id l) in
    ground (arith, ends, reads)

count_data_rows-append :
    (xs rest : List ℕ) → IsText xs → count_data_rows (xs ++ 0 ∷ rest) ≡ count_data_rows xs
unfolding count_data_rows
count_data_rows-append [] rest h = refl
count_data_rows-append (zero ∷ xs) rest h = ground arith
count_data_rows-append (suc x ∷ xs) rest h = ground (arith, count_data_rows-append xs rest h.1)

pub count_data_rows-over :
    (xs : List ℕ) (n : ℕ)
    → IsText xs
    → length xs < n
    → count_data_rows (over xs (replicate n 0)) ≡ count_data_rows xs
count_data_rows-over xs n h l =
    ap count_data_rows (over-zeros xs n l) ∙ count_data_rows-append xs _ h
