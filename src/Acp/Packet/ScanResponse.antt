-- ===== src/Acp/Packet/ScanResponse.antt =====
-- lib/acp/main.c: what the loop of `acp_responseParse` does with the three blocks of a packet.
use regonf.Prelude.{
  ℕ, suc, ◌+◌, ◌≤◌, ◌≡◌, ap, ◌∙◌, Bool, true, false, some, List, [], ◌∷◌, ◌++◌, arith, length, set,
  append_assoc,
}
use regonf.CString.Buffer.{write_all}
use regonf.CString.Decimal.{print_u, AreDigits, print_u-AreDigits, length-print_u}
use regonf.Acp.Packet.{AcpResponse, data_max_size, delimiter_block, delimiter_column}
use regonf.Acp.Packet.Check.{IsBlock, three, three-append}
use regonf.Acp.Packet.Scan.{over}
use regonf.Acp.Packet.Parse.{num_str_length}
use regonf.Acp.Packet.Response.{
  ResponseScan, scan_response, response_step, response_byte, response_numbers, finish_response,
  no_digits,
}

abbrev pub at : ℕ → (seq inl data_buf id_str : List ℕ) → ℕ → Bool → ResponseScan
at block_count seq last data_buf id_str j f1 = record {
  seq_str = seq;
  inl_str = last;
  data_buf = data_buf;
  id_str = id_str;
  block_count = block_count;
  j = j;
  f1 = f1;
}

scan-seq :
    (xs rest q l d i : List ℕ) (j : ℕ)
    → AreDigits xs
    → j + length xs ≤ num_str_length
    → scan_response (xs ++ rest) (at 0 q l d i j false)
      ≡ scan_response rest (at 0 (write_all q j xs) l d i (j + length xs) false)
unfolding scan_response response_step response_byte write_all
scan-seq [] rest q l d i j h k =
    ap (λ n. scan_response rest (at 0 q l d i n false)) {x = j} (omega arith)
scan-seq (x ∷ xs) rest q l d i j h k =
    ground (arith, scan-seq xs rest (set q j x) l d i (suc j) h.1 (omega arith))

scan-inl :
    (xs rest q l d i : List ℕ) (j : ℕ)
    → AreDigits xs
    → j + length xs ≤ num_str_length
    → scan_response (xs ++ rest) (at 0 q l d i j true)
      ≡ scan_response rest (at 0 q (write_all l j xs) d i (j + length xs) true)
unfolding scan_response response_step response_byte write_all
scan-inl [] rest q l d i j h k =
    ap (λ n. scan_response rest (at 0 q l d i n true)) {x = j} (omega arith)
scan-inl (x ∷ xs) rest q l d i j h k =
    ground (arith, scan-inl xs rest q (set l j x) d i (suc j) h.1 (omega arith))

scan-data :
    (xs rest q l d i : List ℕ) (j : ℕ)
    → IsBlock xs
    → j + length xs ≤ data_max_size
    → scan_response (xs ++ rest) (at 1 q l d i j true)
      ≡ scan_response rest (at 1 q l (write_all d j xs) i (j + length xs) true)
unfolding scan_response response_step response_byte write_all
scan-data [] rest q l d i j h k =
    ap (λ n. scan_response rest (at 1 q l d i n true)) {x = j} (omega arith)
scan-data (x ∷ xs) rest q l d i j h k =
    ground (arith, scan-data xs rest q l (set d j x) i (suc j) h.1 (omega arith))

scan-id :
    (xs rest q l d i : List ℕ) (j : ℕ)
    → AreDigits xs
    → j + length xs ≤ num_str_length
    → scan_response (xs ++ rest) (at 2 q l d i j true)
      ≡ scan_response rest (at 2 q l d (write_all i j xs) (j + length xs) true)
unfolding scan_response response_step response_byte write_all
scan-id [] rest q l d i j h k =
    ap (λ n. scan_response rest (at 2 q l d i n true)) {x = j} (omega arith)
scan-id (x ∷ xs) rest q l d i j h k =
    ground (arith, scan-id xs rest q l d (set i j x) (suc j) h.1 (omega arith))

-- The checksum may be the code of the delimiter; the byte after it ends the loop in any case.
scan-end :
    (item : AcpResponse) (q l d i rest : List ℕ) (x : ℕ)
    → finish_response item (scan_response (x ∷ 0 ∷ rest) (at 3 q l d i 0 true))
      ≡ finish_response item (some (true, at 3 q l d i 0 true))
unfolding scan_response response_step response_byte finish_response response_numbers
scan-end item q l d i rest x = ground arith

-- The first block of a response
abbrev pub counter : ℕ → ℕ → List ℕ
counter seq last = print_u seq ++ delimiter_column ∷ print_u last

scan-counter :
    (seq last : ℕ) (rest d : List ℕ)
    → scan_response
        (counter seq last ++ delimiter_block ∷ rest)
        (at 0 no_digits no_digits d no_digits 0 false)
      ≡ scan_response rest
          (at 1 (over (print_u seq) no_digits) (over (print_u last) no_digits) d no_digits 0 true)
unfolding scan_response response_step response_byte
scan-counter seq last rest d =
    let q = print_u seq in
    let l = print_u last in
    ap (λ t. scan_response t (at 0 no_digits no_digits d no_digits 0 false))
      (append_assoc q (delimiter_column ∷ l) (delimiter_block ∷ rest))
    ∙ scan-seq q (delimiter_column ∷ (l ++ delimiter_block ∷ rest)) no_digits no_digits d no_digits
        0 (print_u-AreDigits seq) (omega (arith, length-print_u seq))
    ∙ scan-inl l (delimiter_block ∷ rest) (over q no_digits) no_digits d no_digits 0
        (print_u-AreDigits last) (omega (arith, length-print_u last))

pub scan-three :
    (item : AcpResponse) (seq last id : ℕ) (b d rest : List ℕ) (x : ℕ)
    → IsBlock b
    → length b ≤ data_max_size
    → let n = print_u id in
      finish_response item (
        scan_response
          (three (counter seq last) b n ++ x ∷ 0 ∷ rest)
          (at 0 no_digits no_digits d no_digits 0 false))
      ≡ finish_response item (
          some (
            true,
            at 3
                (over (print_u seq) no_digits)
                (over (print_u last) no_digits)
                (over b d)
                (over n no_digits)
                0
                true,
          ))
unfolding scan_response response_step
scan-three item seq last id b d rest x hb lb =
    let n = print_u id in
    let q = over (print_u seq) no_digits in
    let l = over (print_u last) no_digits in
    ap (λ t. finish_response item (scan_response t (at 0 no_digits no_digits d no_digits 0 false)))
      (three-append (counter seq last) b n (x ∷ 0 ∷ rest))
    ∙ ap (finish_response item) (
        scan-counter seq last _ d
        ∙ scan-data b _ q l d no_digits 0 hb (omega arith)
        ∙ scan-id n _ q l (over b d) no_digits 0 (print_u-AreDigits id)
            (omega (arith, length-print_u id)))
    ∙ scan-end item q l (over b d) (over n no_digits) rest x
