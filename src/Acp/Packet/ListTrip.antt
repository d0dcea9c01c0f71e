-- ===== src/Acp/Packet/ListTrip.antt =====
-- lib/acp/main.c: a list of pairs of integers from the client that sends it to the server's list.
use regonf.Prelude.{
  ℕ, ◌+◌, ◌^◌, ◌<◌, ◌≤◌, ◌≡◌, ap, ◌∙◌, Option, none, some, List, length, map, take, All, Succeeds,
}
use regonf.Prelude.Int.{ℤ}
use regonf.CString.Buffer.{IsText}
use regonf.CString.Scanf.{IsWord}
use regonf.Acp.Packet.{AcpRequest, request_init, sent_bytes, command_max_size, data_max_size}
use regonf.Acp.Packet.Check.{IsBlock}
use regonf.Acp.Packet.Parse.{Outcome, fault, fail, done, request_read}
use regonf.Acp.Packet.RoundTrip.{Holds}
use regonf.Acp.Packet.Request.{concat}
use regonf.Acp.Packet.Rows.{row_i2, request_send_i2_list, request_send_i2_list_lem, Delivered}
use regonf.Acp.Packet.ReadRows.{data_to_list, scan_i2, data_to_i2_list}
use regonf.Acp.Packet.ReadRowsTrip.{data_to_i2-concat}

-- The list that the receiver of a request makes of its data
abbrev pub Lists : ℕ → List (ℤ × ℤ) → Outcome AcpRequest → Type 0
Lists n list fault = ⊥
Lists n list fail = ⊥
Lists n list (done r) = data_to_i2_list n r.data_buf ≡ list

listed :
    (n : ℕ) (cmd : List ℕ) (list : List (ℤ × ℤ)) (rand : ℕ) (o : Outcome AcpRequest)
    → All (λ a. IsWord a.0 × IsWord a.1) list
    → Holds cmd (concat (map row_i2 list)) rand o
    → Lists n (take n list) o
listed n cmd list rand fault words h = h
listed n cmd list rand fail words h = h
listed n cmd list rand (done r) words h =
    ap (data_to_list scan_i2 n) h.1 ∙ data_to_i2-concat n list words

-- A list of pairs of integers of 32 bits and a sign, whose rows leave room for one more character, is
-- sent under a command of three characters or more. The peer that receives the packet and has room for
-- `n` pairs reads the first `n` pairs of the list, in their order.
pub i2_list-delivered :
    (s r : AcpRequest) (cmd : List ℕ) (list : List (ℤ × ℤ)) (rand n : ℕ)
    → IsText cmd
    → IsBlock cmd
    → 3 ≤ length cmd
    → length cmd < command_max_size
    → length (concat (map row_i2 list)) + 1 < data_max_size
    → rand < 2 ^ 32
    → All (λ a. IsWord a.0 × IsWord a.1) list
    → Succeeds
        (λ p. Lists n (take n list) (request_read (request_init r) (some (sent_bytes p.buf))))
        (request_send_i2_list cmd list rand s)
i2_list-delivered s r cmd list rand n tc bc l3 lc lr lid words =
    received (request_send_i2_list cmd list rand s)
      (request_send_i2_list_lem s r cmd list rand tc bc l3 lc lr lid)
  where
    received :
        (o : Option AcpRequest)
        → Delivered r cmd (concat (map row_i2 list)) rand o
        → Succeeds
            (λ p. Lists n (take n list) (request_read (request_init r) (some (sent_bytes p.buf))))
            o
    received none h = h
    received (some p) h = listed n cmd list rand _ words h
