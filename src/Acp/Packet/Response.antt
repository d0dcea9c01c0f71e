-- ===== src/Acp/Packet/Response.antt =====
-- lib/acp/main.c: `acp_responseParse`, `acp_responseRead`, `acp_responseSendStr` and what the
-- functions `acp_responseRead…List` have in common.
use regonf.Prelude.{
  ℕ, zero, suc, ◌+◌, Bool, true, false, ◌||◌, not, Option, none, some, List, [], ◌∷◌, ◌==◌, ltb,
  if◌then◌else◌, length, set, replicate,
}
use regonf.CString.Buffer.{c_str, strlen, strncpy}
use regonf.CString.Decimal.{is_digit}
use regonf.Acp.Packet.{
  AcpRequest, AcpResponse, response_init, response_check, response_pack, sent_bytes, crc_check,
  data_max_size, delimiter_block, delimiter_column,
}
use regonf.Acp.Packet.Parse.{num_str_length, read_number, receive}

-- The variables of the loop of `acp_responseParse`
pub record ResponseScan : Type 0 where
  pub seq_str : List ℕ
  pub inl_str : List ℕ
  pub data_buf : List ℕ
  pub id_str : List ℕ
  pub block_count : ℕ
  pub j : ℕ
  pub f1 : Bool

-- What an iteration does: `continue`, `break`, or `return 0`; `off_end` is a write past an array
pub data ResponseStep : Type 0 where
  go_on : ResponseScan → ResponseStep
  break_off : ResponseStep
  give_up : ResponseStep
  off_end : ResponseStep

-- A digit into one of the arrays of digits
abbrev pub put_digit : ℕ → List ℕ → ℕ → (List ℕ → ResponseScan) → ResponseStep
put_digit b array j next =
    if not (is_digit b)
    then give_up
    else if ltb j num_str_length
    then go_on (next (set array j b))
    else off_end

-- The body of the loop, for a byte that is not a delimiter of blocks
unfoldable pub response_byte : ℕ → ℕ → ResponseScan → ResponseStep
response_byte zero b s =
    if b == delimiter_column
    then go_on (record s { f1 = true; j = 0 })
    else if s.f1
    then put_digit b s.inl_str s.j (λ array. record s { inl_str = array; j = s.j + 1 })
    else put_digit b s.seq_str s.j (λ array. record s { seq_str = array; j = s.j + 1 })
response_byte (suc zero) b s =
    if ltb s.j data_max_size
    then go_on (record s { data_buf = set s.data_buf s.j b; j = s.j + 1 })
    else give_up
response_byte (suc (suc zero)) b s =
    put_digit b s.id_str s.j (λ array. record s { id_str = array; j = s.j + 1 })
response_byte (suc (suc (suc n))) b s = break_off

unfoldable pub response_step : ℕ → ResponseScan → ResponseStep
unfolding response_byte
response_step b s =
    if b == delimiter_block
    then go_on (record s { block_count = s.block_count + 1; j = 0 })
    else response_byte s.block_count b s

-- How the loop ends: with its variables, and whether it ran to its end; `none` is a write past an
-- array
unfoldable pub scan_response : List ℕ → ResponseScan → Option (Bool × ResponseScan)
unfolding response_step
scan_response [] s = some (true, s)
scan_response (b ∷ bs) s = elim (response_step b s) [
  | go_on s' ↦ scan_response bs s'
  | break_off ↦ some (true, s)
  | give_up ↦ some (false, s)
  | off_end ↦ none
]

-- An array of digits without a digit
abbrev pub is_missing : List ℕ → Bool
is_missing array = length (c_str array) == 0

-- `atoi` of the three arrays
unfoldable pub response_numbers : AcpResponse → ResponseScan → Option (Bool × AcpResponse)
unfolding read_number
response_numbers item s = elim (read_number s.seq_str) [
  | none ↦ none
  | some seq ↦ elim (read_number s.inl_str) [
    | none ↦ none
    | some last ↦ elim (read_number s.id_str) [
      | none ↦ none
      | some id ↦
          some (true, record item { data_buf = s.data_buf; seq = seq; is_not_last = last; id = id })
    ]
  ]
]

unfoldable pub finish_response :
    AcpResponse → Option (Bool × ResponseScan) → Option (Bool × AcpResponse)
unfolding response_numbers
finish_response item none = none
finish_response item (some (false, s)) = some (false, record item { data_buf = s.data_buf })
finish_response item (some (true, s)) =
    if is_missing s.seq_str || is_missing s.inl_str || is_missing s.id_str
    then some (false, record item { data_buf = s.data_buf })
    else response_numbers item s

abbrev pub no_digits : List ℕ
no_digits = replicate num_str_length 0

abbrev pub response_scan : AcpResponse → ResponseScan
response_scan item = record {
  seq_str = no_digits;
  inl_str = no_digits;
  data_buf = item.data_buf;
  id_str = no_digits;
  block_count = 0;
  j = 0;
  f1 = false;
}

-- ACP_RESPONSE_BUF_SIZE_MIN is 9
unfoldable pub response_parse : AcpResponse → Option (Bool × AcpResponse)
unfolding scan_response finish_response
response_parse item =
    let scanned = finish_response item (scan_response item.buf (response_scan item)) in
    elim (strlen item.buf) [
      | none ↦ none
      | some n ↦ if ltb n 9 then some (false, item) else scanned
    ]

-- The result of `acp_responseRead` is 1 whether the packet could be parsed or not.
abbrev pub parsed_or_not : Option (Bool × AcpResponse) → Option (Bool × AcpResponse)
parsed_or_not none = none
parsed_or_not (some (_, item)) = some (true, item)

-- `acp_responseRead`, with the bytes that `recvfrom` returns, or `none` on its failure
unfoldable pub response_read : AcpResponse → Option (List ℕ) → Option (Bool × AcpResponse)
unfolding response_parse receive
response_read item none = some (false, item)
response_read item (some bytes) =
    let item1 = record item { buf = receive bytes item.buf } in
    let parsed = parsed_or_not (response_parse item1) in
    if crc_check item1.buf then parsed else some (false, item1)

-- `acp_responseRead…List` up to the list: a response is created in memory that holds `raw`, read and
-- compared with the request. The result is the data, or `none` for 0.
unfoldable pub response_data : AcpResponse → AcpRequest → Option (List ℕ) → Option (Option (List ℕ))
unfolding response_read response_init response_check
response_data raw request bytes = elim (response_read (response_init raw) bytes) [
  | none ↦ none
  | some (false, item) ↦ some none
  | some (true, item) ↦ some (if response_check item request then some item.data_buf else none)
]

-- `acp_responseSendStr`; `send` is what `sendto` returns for the bytes, or 0 on its failure
unfoldable pub response_send_str :
    {W : Type 0} → (List ℕ → W → ℕ × W) → List ℕ → ℕ → AcpResponse → W → AcpResponse × W
unfolding response_pack
response_send_str send s is_not_last response w =
    let filled = record response {
      is_not_last = is_not_last;
      data_buf = strncpy s data_max_size;
      crc = 0;
    } in
    let packed = response_pack filled in
    let (n, w1) = send (sent_bytes packed.buf) w in
    if not response.last_is_ok
    then (response, w)
    else if n == 0
    then (record packed { last_is_ok = false }, w1)
    else (record packed { seq = packed.seq + 1; last_is_ok = true }, w1)
