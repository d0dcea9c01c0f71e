-- ===== src/Acp/Packet/Rows.antt =====
-- lib/acp/main.c: the functions that send a request with a list of a type, and their rows. `sendBuf`
-- never returns less than 0, so that they fail only where the rows do not fit.
use regonf.Prelude.{
  ℕ, suc, ◌+◌, ◌-◌, ◌^◌, ◌<◌, ◌≤◌, ◌≢◌, Option, none, some, List, [], ◌∷◌, ◌++◌, arith, All,
  All-append, length, take, map, Succeeds,
}
use regonf.Prelude.Int.{ℤ, pos, negsuc}
use regonf.CString.Buffer.{IsText}
use regonf.CString.Decimal.{print_u, print_d, AreDigits, print_u-AreDigits}
use regonf.Acp.Packet.{
  AcpRequest, request_init, request_rows, request_pack, sent_bytes, delimiter_column, delimiter_row,
  delimiter_block, command_max_size, data_max_size,
}
use regonf.Acp.Packet.Check.{IsBlock}
use regonf.Acp.Packet.Parse.{request_read}
use regonf.Acp.Packet.RoundTrip.{Holds}
use regonf.Acp.Packet.Request.{concat, request_read-request_rows}

abbrev pub line_size : ℕ
line_size = 256

-- The rows, as `snprintf` prints them into a line
abbrev pub row_i1 : ℤ → List ℕ
row_i1 a = print_d a ++ delimiter_row ∷ []

abbrev pub row_i2 : ℤ × ℤ → List ℕ
row_i2 (a, b) = print_d a ++ delimiter_column ∷ (print_d b ++ delimiter_row ∷ [])

abbrev pub row_i1u32 : ℤ × ℕ → List ℕ
row_i1u32 (a, n) = print_d a ++ delimiter_column ∷ (print_u n ++ delimiter_row ∷ [])

abbrev pub row_s1 : List ℕ → List ℕ
row_s1 s = take (line_size - 1) (s ++ delimiter_row ∷ [])

abbrev pub row_s2 : List ℕ × List ℕ → List ℕ
row_s2 (s, t) = take (line_size - 1) (s ++ delimiter_column ∷ (t ++ delimiter_row ∷ []))

-- What the functions have in common; the number is what `rand` returns
unfoldable pub request_send_rows : List ℕ → List (List ℕ) → ℕ → AcpRequest → Option AcpRequest
request_send_rows cmd rows rand request = elim (request_rows request cmd rows) [
  | none ↦ none
  | some item ↦ some (request_pack rand item)
]

abbrev pub request_send_i1_list : List ℕ → List ℤ → ℕ → AcpRequest → Option AcpRequest
request_send_i1_list cmd list = request_send_rows cmd (map row_i1 list)

abbrev pub request_send_i2_list : List ℕ → List (ℤ × ℤ) → ℕ → AcpRequest → Option AcpRequest
request_send_i2_list cmd list = request_send_rows cmd (map row_i2 list)

abbrev pub request_send_i1u32_list : List ℕ → List (ℤ × ℕ) → ℕ → AcpRequest → Option AcpRequest
request_send_i1u32_list cmd list = request_send_rows cmd (map row_i1u32 list)

abbrev pub request_send_s1_list : List ℕ → List (List ℕ) → ℕ → AcpRequest → Option AcpRequest
request_send_s1_list cmd list = request_send_rows cmd (map row_s1 list)

abbrev pub request_send_s2_list :
    List ℕ → List (List ℕ × List ℕ) → ℕ → AcpRequest → Option AcpRequest
request_send_s2_list cmd list = request_send_rows cmd (map row_s2 list)

-- Characters that are neither NUL nor the delimiter of blocks
abbrev pub IsPlain : List ℕ → Type 0
IsPlain = All (λ c. (0 < c) × (c ≢ delimiter_block))

pub plain-IsText : (s : List ℕ) → IsPlain s → IsText s
plain-IsText [] h = tt
plain-IsText (c ∷ s) h = (h.0.0, plain-IsText s h.1)

pub plain-IsBlock : (s : List ℕ) → IsPlain s → IsBlock s
plain-IsBlock [] h = tt
plain-IsBlock (c ∷ s) h = (h.0.1, plain-IsBlock s h.1)

pub digits-IsPlain : (s : List ℕ) → AreDigits s → IsPlain s
digits-IsPlain [] h = tt
digits-IsPlain (c ∷ s) h = ((ground (arith, h.0), ground (arith, h.0)), digits-IsPlain s h.1)

pub print_d-IsPlain : (v : ℤ) → IsPlain (print_d v)
print_d-IsPlain (pos n) = digits-IsPlain (print_u n) (print_u-AreDigits n)
print_d-IsPlain (negsuc n) =
    ((omega arith, omega arith), digits-IsPlain (print_u (suc n)) (print_u-AreDigits (suc n)))

pub row_i2-IsPlain : (v : ℤ × ℤ) → IsPlain (row_i2 v)
row_i2-IsPlain (a, b) = All-append _ (print_d a) _ (print_d-IsPlain a) (
  (omega arith, omega arith),
  All-append _ (print_d b) _ (print_d-IsPlain b) ((omega arith, omega arith), tt),
)

pub rows_i2 :
    (list : List (ℤ × ℤ)) → All IsText (map row_i2 list) × IsPlain (concat (map row_i2 list))
rows_i2 [] = (tt, tt)
rows_i2 (v ∷ list) =
    let (x, y) = rows_i2 list in
    let p = row_i2-IsPlain v in ((plain-IsText (row_i2 v) p, x), All-append _ (row_i2 v) _ p y)

-- What a peer reads of a request that has been sent
abbrev pub Delivered : AcpRequest → (cmd text : List ℕ) (rand : ℕ) → Option AcpRequest → Type 0
Delivered r cmd text rand =
    Succeeds (λ p. Holds cmd text rand (request_read (request_init r) (some (sent_bytes p.buf))))

-- Rows that leave room for one more character are sent under a command of three characters or more,
-- and the peer that receives them reads the same command, the rows, and the id.
pub request_send_rows_lem :
    (s r : AcpRequest) (cmd : List ℕ) (rows : List (List ℕ)) (rand : ℕ)
    → IsText cmd
    → IsBlock cmd
    → 3 ≤ length cmd
    → length cmd < command_max_size
    → All IsText rows
    → IsBlock (concat rows)
    → length (concat rows) + 1 < data_max_size
    → rand < 2 ^ 32
    → Delivered r cmd (concat rows) rand (request_send_rows cmd rows rand s)
unfolding request_send_rows
request_send_rows_lem s r cmd rows rand tc bc l3 lc texts blocks lr lid =
    packed (request_rows s cmd rows)
      (request_read-request_rows s r cmd rows rand tc bc texts blocks lc lr (omega arith) lid)
  where
    packed :
        (o : Option AcpRequest)
        → Succeeds
            (λ item.
              Holds cmd
                (concat rows)
                rand
                (request_read (request_init r) (some (sent_bytes (request_pack rand item).buf))))
            o
        → Delivered r cmd
            (concat rows)
            rand
            (elim o [ none ↦ none | some item ↦ some (request_pack rand item) ])
    packed none h = h
    packed (some item) h = h

-- A list of pairs of integers whose rows leave room for one more character is sent under a command of
-- three characters or more, and the peer that receives it reads the same command, the rows, and the id.
pub request_send_i2_list_lem :
    (s r : AcpRequest) (cmd : List ℕ) (list : List (ℤ × ℤ)) (rand : ℕ)
    → IsText cmd
    → IsBlock cmd
    → 3 ≤ length cmd
    → length cmd < command_max_size
    → length (concat (map row_i2 list)) + 1 < data_max_size
    → rand < 2 ^ 32
    → Succeeds
        (λ p.
          Holds cmd
            (concat (map row_i2 list))
            rand
            (request_read (request_init r) (some (sent_bytes p.buf))))
        (request_send_i2_list cmd list rand s)
request_send_i2_list_lem s r cmd list rand tc bc l3 lc lr lid =
    let (texts, plain) = rows_i2 list in
    request_send_rows_lem s r cmd (map row_i2 list) rand tc bc l3 lc texts (plain-IsBlock _ plain)
      lr lid
