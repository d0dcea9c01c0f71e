-- ===== src/Acp/Packet.antt =====
-- lib/acp/main.h and lib/acp/main.c: a request and a response as they are built, packed and checked.
-- A packet is three blocks that end in a carriage return, the checksum of these, and a NUL.
pub mod Check
pub mod Deliver
pub mod ListTrip
pub mod Pack
pub mod Parse
pub mod ReadRows
pub mod ReadRowsTrip
pub mod ReadTexts
pub mod Request
pub mod Response
pub mod ResponseTrip
pub mod RoundTrip
pub mod Rows
pub mod Scan
pub mod ScanResponse
mod Tests
use regonf.Prelude.{
  ℕ, zero, suc, ◌+◌, ◌*◌, Bool, true, false, Option, none, some, List, [], ◌∷◌, ◌++◌, ◌==◌, leb,
  if◌then◌else◌, length, replicate, take,
}
use regonf.CString.Buffer.{c_str, strcat, snprintf, strncpy}
use regonf.CString.Decimal.{print_u}
use regonf.Crc.{crc_update, crc_update_by_str}

abbrev pub command_max_size : ℕ
command_max_size = 16

abbrev pub data_max_size : ℕ
data_max_size = 456

abbrev pub buffer_max_size : ℕ
buffer_max_size = 508

abbrev pub delimiter_column : ℕ
delimiter_column = 9

abbrev pub delimiter_row : ℕ
delimiter_row = 10

abbrev pub delimiter_block : ℕ
delimiter_block = 13

-- The fields cmd_size, data_size and buf_size are constant from the initialisation on.
pub record AcpRequest : Type 0 where
  pub cmd : List ℕ
  pub data_buf : List ℕ
  pub buf : List ℕ
  pub id : ℕ
  pub data_rows_count : ℕ
  pub crc : ℕ

pub record AcpResponse : Type 0 where
  pub data_buf : List ℕ
  pub buf : List ℕ
  pub id : ℕ
  pub seq : ℕ
  pub is_not_last : ℕ
  pub crc : ℕ
  pub last_is_ok : Bool

unfoldable pub request_init : AcpRequest → AcpRequest
request_init item = record item {
  buf = replicate buffer_max_size 0;
  data_buf = replicate data_max_size 0;
  cmd = replicate command_max_size 0;
  crc = 0;
}

unfoldable pub response_init : AcpResponse → AcpResponse
response_init item = record item {
  buf = replicate buffer_max_size 0;
  data_buf = replicate data_max_size 0;
  crc = 0;
  is_not_last = 0;
  last_is_ok = true;
  seq = 0;
}

unfoldable pub response_coop_request : AcpResponse → AcpRequest → AcpResponse
response_coop_request response request = record response { id = request.id }

-- `acp_responseCheck`
unfoldable pub response_check : AcpResponse → AcpRequest → Bool
response_check response request = response.id == request.id

-- `acp_requestStrCat` and `acp_responseStrCat`, on the array of the data
unfoldable pub str_cat : List ℕ → List ℕ → Option (List ℕ)
str_cat array str =
    if leb data_max_size (length (c_str array) + length str + 1)
    then none
    else some (strcat array str)

unfoldable pub request_set_cmd : AcpRequest → List ℕ → AcpRequest
request_set_cmd item cmd = record item { cmd = strncpy cmd command_max_size }

-- The loop over the rows with which `acp_requestSendI1List` and its variants begin: each row, as
-- printed, is appended to the data
unfoldable pub request_fill : AcpRequest → List (List ℕ) → Option AcpRequest
request_fill item [] = some item
request_fill item (row ∷ rows) = elim (str_cat item.data_buf row) [
  | none ↦ none
  | some text ↦ request_fill (record item { data_buf = text }) rows
]

unfoldable pub request_rows : AcpRequest → List ℕ → List (List ℕ) → Option AcpRequest
unfolding request_fill request_init request_set_cmd
request_rows request cmd rows = request_fill (request_set_cmd (request_init request) cmd) rows

-- A block, its delimiter, and what follows
abbrev pub close_block : List ℕ → List ℕ → List ℕ
close_block block rest = block ++ delimiter_block ∷ rest

-- What `snprintf` prints
abbrev pub request_body : AcpRequest → List ℕ
request_body item =
    close_block (c_str item.cmd)
      (close_block (c_str item.data_buf) (close_block (print_u item.id) []))

abbrev pub response_body : AcpResponse → List ℕ
response_body item =
    close_block (print_u item.seq ++ delimiter_column ∷ print_u item.is_not_last)
      (close_block (c_str item.data_buf) (close_block (print_u item.id) []))

-- The common end of both functions that pack: print, checksum, append the checksum as a string.
-- The results are the array and the checksum.
unfoldable pub pack : List ℕ → (crc : ℕ) → List ℕ → List ℕ × ℕ
pack buf crc body =
    let printed = snprintf buf buffer_max_size body in
    let crc' = crc_update_by_str crc (c_str printed) in
    (strcat printed (c_str (crc' ∷ 0 ∷ [])), crc')

-- `acp_requestPack`; the number is what `rand` returns in `acp_requestSetNewId`
unfoldable pub request_pack : ℕ → AcpRequest → AcpRequest
unfolding pack
request_pack rand item =
    let item1 = record item { id = rand } in
    let (buf, crc) = pack item1.buf item1.crc (request_body item1) in
    record item1 { buf = buf; crc = crc }

unfoldable pub response_pack : AcpResponse → AcpResponse
unfolding pack
response_pack item =
    let (buf, crc) = pack item.buf item.crc (response_body item) in
    record item { buf = buf; crc = crc }

-- The values 0 to 4 of `state` in `acp_packlen`
pub data PacklenState : Type 0 where
  block1 block2 block3 at_crc at_end : PacklenState

-- A state in which the bytes of a block are counted, and the one after its delimiter
abbrev pub after_block : ℕ → PacklenState → PacklenState → PacklenState
after_block b here next = if b == delimiter_block then next else here

-- The loop of `acp_packlen`, with its `state` and `n`
unfoldable pub packlen_loop : PacklenState → ℕ → List ℕ → ℕ
packlen_loop state n [] = 0
packlen_loop block1 n (b ∷ bs) = packlen_loop (after_block b block1 block2) (n + 1) bs
packlen_loop block2 n (b ∷ bs) = packlen_loop (after_block b block2 block3) (n + 1) bs
packlen_loop block3 n (b ∷ bs) = packlen_loop (after_block b block3 at_crc) (n + 1) bs
packlen_loop at_crc n (b ∷ bs) = packlen_loop at_end (n + 1) bs
packlen_loop at_end n (b ∷ bs) = n + 1

unfoldable pub packlen : List ℕ → ℕ
unfolding packlen_loop
packlen buf = packlen_loop block1 0 buf

-- The bytes of the array that `acp_sendBuf` sends
abbrev pub sent_bytes : List ℕ → List ℕ
sent_bytes buf = take (packlen buf) buf

-- State 1 of `acp_crcCheck`: the next byte, if there is one, against the checksum
unfoldable pub is_crc : (crc_fact : ℕ) → List ℕ → Bool
is_crc crc_fact [] = false
is_crc crc_fact (crc ∷ bs) = crc == crc_fact

-- The loop of `acp_crcCheck` in its state 0, with `block_count` and `crc_fact`
unfoldable pub crc_check_loop : (block_count crc_fact : ℕ) → List ℕ → Bool
unfolding is_crc
crc_check_loop block_count crc_fact [] = false
crc_check_loop block_count crc_fact (b ∷ bs) =
    let count = if b == delimiter_block then block_count + 1 else block_count in
    let fact = crc_update crc_fact b in
    let rest = crc_check_loop count fact bs in if count == 3 then is_crc fact bs else rest

unfoldable pub crc_check : List ℕ → Bool
unfolding crc_check_loop
crc_check buf = crc_check_loop 0 0 buf
