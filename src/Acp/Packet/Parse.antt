-- ===== src/Acp/Packet/Parse.antt =====
-- lib/acp/main.c: `acp_requestParse`, `acp_read`, `acp_requestRead` and `acp_cmdcmp`.
use regonf.Prelude.{
  ℕ, zero, suc, ◌+◌, ◌%◌, ◌^◌, Bool, false, Option, none, some, List, [], ◌∷◌, ◌++◌, ◌==◌, ltb, not,
  if◌then◌else◌, length, replicate, set,
}
use regonf.CString.Buffer.{c_str, strlen, drop}
use regonf.CString.Decimal.{is_digit, read_digits}
use regonf.Acp.Packet.{
  AcpRequest, command_max_size, data_max_size, delimiter_block, delimiter_row, crc_check,
}

-- A call that reads or writes outside its arrays, fails, or succeeds
pub data Outcome (A : Type 0) : Type 0 where
  fault : Outcome A
  fail : Outcome A
  done : A → Outcome A

-- The variables of the loop of `acp_requestParse`
pub record RequestScan : Type 0 where
  pub cmd : List ℕ
  pub data_buf : List ℕ
  pub id_str : List ℕ
  pub block_count : ℕ
  pub j : ℕ

-- ACP_NUM_STR_LENGTH
abbrev pub num_str_length : ℕ
num_str_length = 12

-- What an iteration does: `continue`, `break`, or `return 0`; `off_end` is a write past `id_str`
pub data ScanStep : Type 0 where
  go_on : RequestScan → ScanStep
  break_off : ScanStep
  give_up : ScanStep
  off_end : ScanStep

-- The body of the loop, for a byte that is not a delimiter of blocks
unfoldable pub scan_byte : ℕ → ℕ → RequestScan → ScanStep
scan_byte zero b s =
    if ltb s.j command_max_size
    then go_on (record s { cmd = set s.cmd s.j b; j = s.j + 1 })
    else give_up
scan_byte (suc zero) b s =
    if ltb s.j data_max_size
    then go_on (record s { data_buf = set s.data_buf s.j b; j = s.j + 1 })
    else give_up
scan_byte (suc (suc zero)) b s =
    if not (is_digit b)
    then give_up
    else if ltb s.j num_str_length
    then go_on (record s { id_str = set s.id_str s.j b; j = s.j + 1 })
    else off_end
scan_byte (suc (suc (suc n))) b s = break_off

unfoldable pub scan_step : ℕ → RequestScan → ScanStep
unfolding scan_byte
scan_step b s =
    if b == delimiter_block
    then go_on (record s { block_count = s.block_count + 1; j = 0 })
    else scan_byte s.block_count b s

unfoldable pub scan_request : List ℕ → RequestScan → Outcome RequestScan
unfolding scan_step
scan_request [] s = done s
scan_request (b ∷ bs) s = elim (scan_step b s) [
  | go_on s' ↦ scan_request bs s'
  | break_off ↦ done s
  | give_up ↦ fail
  | off_end ↦ fault
]

-- `acp_countDataRows`
unfoldable pub count_data_rows : List ℕ → ℕ
count_data_rows [] = 0
count_data_rows (zero ∷ bs) = 0
count_data_rows (suc b ∷ bs) =
    let rest = count_data_rows bs in if suc b == delimiter_row then suc rest else rest

-- `atoi` of an array of digits, into an `unsigned int`; `none` where the array is full of digits and
-- the source reads past its end
unfoldable pub read_number : List ℕ → Option ℕ
read_number array = elim (strlen array) [
  | none ↦ none
  | some n ↦ some (read_digits 0 (c_str array) % 2 ^ 32)
]

-- `acp_requestParse` after its first test. A missing id is only reported; `atoi` then reads 0.
unfoldable pub finish_parse : AcpRequest → Outcome RequestScan → Outcome AcpRequest
unfolding read_number
finish_parse item fault = fault
finish_parse item fail = fail
finish_parse item (done s) = elim (read_number s.id_str) [
  | none ↦ fault
  | some id ↦ done (record item {
    cmd = s.cmd;
    data_buf = s.data_buf;
    data_rows_count = count_data_rows s.data_buf;
    id = id;
  })
]

abbrev pub request_scan : AcpRequest → RequestScan
request_scan item = record {
  cmd = item.cmd;
  data_buf = item.data_buf;
  id_str = replicate num_str_length 0;
  block_count = 0;
  j = 0;
}

-- ACP_REQUEST_BUF_SIZE_MIN is 7
unfoldable pub request_parse : AcpRequest → Outcome AcpRequest
unfolding scan_request finish_parse count_data_rows
request_parse item =
    let scanned = finish_parse item (scan_request item.buf (request_scan item)) in
    elim (strlen item.buf) [ none ↦ fault | some n ↦ if ltb n 7 then fail else scanned ]

-- `recvfrom` puts the received bytes at the start of the array.
unfoldable pub receive : List ℕ → List ℕ → List ℕ
receive bytes buf = bytes ++ drop (length bytes) buf

-- `acp_requestRead`, with the bytes that `recvfrom` returns, or `none` on its failure
unfoldable pub request_read : AcpRequest → Option (List ℕ) → Outcome AcpRequest
unfolding request_parse receive
request_read item none = fail
request_read item (some bytes) =
    let item1 = record item { buf = receive bytes item.buf } in
    let parsed = request_parse item1 in if crc_check item1.buf then parsed else fail

-- The loop of `acp_cmdcmp`; it ends at the byte after the command
unfoldable pub cmdcmp_loop : List ℕ → List ℕ → Option (List ℕ)
cmdcmp_loop [] buf = some buf
cmdcmp_loop (c ∷ cmd) [] = some []
cmdcmp_loop (c ∷ cmd) (b ∷ buf) = let rest = cmdcmp_loop cmd buf in if b == c then rest else none

unfoldable pub is_block_end : Option (List ℕ) → Bool
is_block_end none = false
is_block_end (some []) = false
is_block_end (some (b ∷ bs)) = b == delimiter_block

-- `acp_cmdcmp`: whether the packet begins with the command and a delimiter of blocks
unfoldable pub cmdcmp : AcpRequest → List ℕ → Bool
unfolding cmdcmp_loop is_block_end
cmdcmp request [] = false
cmdcmp request (c ∷ cmd) = is_block_end (cmdcmp_loop (c ∷ cmd) request.buf)
