-- ===== src/Acp/Packet/Tests.antt =====
-- lib/acp/main.c: packets at concrete inputs.
use regonf.Prelude.{
  ℕ, ◌≡◌, ◌↔◌, ◌≢◌, refl, true, false, Option, none, some, List, [], ◌∷◌, ◌++◌, arith, Succeeds,
}
use regonf.Prelude.Int.{ℤ, pos, negsuc}
use regonf.Acp.Packet.Rows.{request_send_i2_list}
use regonf.CString.Buffer.{c_str, strcat, snprintf, strncpy}
use regonf.CString.Decimal.{print_u}
use regonf.Crc.{crc_update, crc_update_by_str}
use regonf.Crc.Detect.{crc_update_by_str-detects}
use regonf.Acp.Packet.{
  AcpRequest, request_init, request_rows, request_pack, sent_bytes, str_cat, packlen, crc_check,
}
use regonf.Acp.Packet.Check.{three, crc_check-detects}
use regonf.Acp.Packet.Parse.{cmdcmp, request_read}
use regonf.Acp.Packet.RoundTrip.{Holds}
use regonf.Acp.Packet.ListTrip.{Lists, i2_list-delivered}
use regonf.Acp.Packet.{AcpResponse, response_init, response_pack}
use regonf.Acp.Packet.Response.{response_read}
use regonf.Acp.Packet.ResponseTrip.{Carries, with_data, response_read-response_pack}
use regonf.Acp.Packet.Request.{concat, request_read-request_rows, cmdcmp_iff}

-- A request as its memory may be before the initialisation
abbrev raw : AcpRequest
raw = record { cmd = []; data_buf = []; buf = []; id = 7; data_rows_count = 0; crc = 9 }

-- "gft", the rows "1\n" and "20\n"
abbrev gft : List ℕ
gft = 103 ∷ 102 ∷ 116 ∷ []

abbrev rows : List (List ℕ)
rows = (49 ∷ 10 ∷ []) ∷ (50 ∷ 48 ∷ 10 ∷ []) ∷ []

abbrev psp : List ℕ
psp = 112 ∷ 115 ∷ 112 ∷ []

-- What is sent with the number 305
abbrev sent : Option AcpRequest → List ℕ
sent none = []
sent (some item) = sent_bytes (request_pack 305 item).buf

packet_sent :
    sent (request_rows raw gft rows)
    ≡ 103
      ∷ 102
      ∷ 116
      ∷ 13
      ∷ 49
      ∷ 10
      ∷ 50
      ∷ 48
      ∷ 10
      ∷ 13
      ∷ 51
      ∷ 48
      ∷ 53
      ∷ 13
      ∷ crc_update_by_str 0 (three gft (concat rows) (51 ∷ 48 ∷ 53 ∷ []))
      ∷ 0
      ∷ []
unfolding request_rows request_pack packlen crc_update_by_str str_cat c_str strcat snprintf strncpy
    print_u crc_update
packet_sent = refl

request_read-request_rows_example :
    Succeeds
      (λ item.
        Holds gft
          (concat rows)
          305
          (request_read (request_init raw) (some (sent_bytes (request_pack 305 item).buf))))
      (request_rows raw gft rows)
request_read-request_rows_example =
    request_read-request_rows raw raw gft rows 305 (ground arith) (ground arith) (ground arith)
      (ground arith) (omega arith) (omega arith) (omega arith) (omega arith)

cmdcmp_iff_example :
    (cmdcmp (record raw { buf = 112 ∷ 115 ∷ 112 ∷ 13 ∷ 0 ∷ [] }) (psp) ≡ true) ↔ (psp ≡ psp)
cmdcmp_iff_example =
    cmdcmp_iff (record raw { buf = 112 ∷ 115 ∷ 112 ∷ 13 ∷ 0 ∷ [] }) 112 (115 ∷ 112 ∷ []) psp
      (0 ∷ []) refl (ground arith) (ground arith)

crc_update_by_str-detects_example :
    crc_update_by_str 0 ((1 ∷ 2 ∷ []) ++ 3 ∷ 4 ∷ [])
    ≢ crc_update_by_str 0 ((1 ∷ 2 ∷ []) ++ 7 ∷ 4 ∷ [])
crc_update_by_str-detects_example =
    crc_update_by_str-detects (1 ∷ 2 ∷ []) (4 ∷ []) 3 7 (ground arith) (ground arith) (omega arith)
      (omega arith) (omega arith)

crc_check-detects_example :
    crc_check (
      three (97 ∷ []) (99 ∷ []) (49 ∷ [])
      ++ crc_update_by_str 0 (97 ∷ 13 ∷ 98 ∷ 13 ∷ 49 ∷ 13 ∷ []) ∷ 0 ∷ [])
    ≡ false
crc_check-detects_example =
    crc_check-detects (97 ∷ []) (99 ∷ []) (49 ∷ []) (97 ∷ 13 ∷ []) (13 ∷ 49 ∷ 13 ∷ []) (0 ∷ []) 98
      99 (crc_update_by_str 0 (97 ∷ 13 ∷ 98 ∷ 13 ∷ 49 ∷ 13 ∷ [])) (ground arith) (ground arith)
      (ground arith) (ground arith) (ground arith) (omega arith) (omega arith) (omega arith) refl
      refl

abbrev pair : List (ℤ × ℤ)
pair = (pos 5, negsuc 11) ∷ []

-- A response as its memory may be before the initialisation
abbrev raw_response : AcpResponse
raw_response = record {
  data_buf = [];
  buf = [];
  id = 7;
  seq = 3;
  is_not_last = 1;
  crc = 9;
  last_is_ok = false;
}

-- "1;2"
abbrev data_text : List ℕ
data_text = 49 ∷ 59 ∷ 50 ∷ []

response_read-response_pack_example : Carries data_text 4 1 305 (
    response_read
      (response_init raw_response)
      (some (sent_bytes (response_pack (with_data raw_response data_text 4 1 305)).buf)))
unfolding c_str
response_read-response_pack_example =
    response_read-response_pack raw_response raw_response data_text 4 1 305 (ground arith)
      (omega arith) (omega arith) (omega arith) (omega arith) (omega arith)

i2_list-delivered_example :
    Succeeds
      (λ p. Lists 1 pair (request_read (request_init raw) (some (sent_bytes p.buf))))
      (request_send_i2_list psp pair 305 raw)
unfolding print_u
i2_list-delivered_example =
    i2_list-delivered raw raw psp pair 305 1 (ground arith) (ground arith) (omega arith)
      (omega arith) (omega arith) (omega arith) ((omega arith, omega arith), tt)
