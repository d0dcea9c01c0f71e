-- ===== src/Acp/Exchange.antt =====
-- lib/acp/main.c: the functions that send a request to a peer and read its response, over packets:
-- `acp_getProgEnabled`, `acp_peerItemSendCmd`, `acp_readSensorInt`, and what they have in common. The
-- result `none` is a write or a read past an array.
pub mod Sensor
pub mod Peers
pub mod Refine
mod Tests
pub mod Answer
pub mod Carried
pub mod FtsRow
use regonf.Prelude.{
  ℕ, Bool, true, false, Option, none, some, List, [], ◌∷◌, ◌++◌, if◌then◌else◌, not,
}
use regonf.Prelude.Int.{ℤ, pos, eq_ℤ}
use regonf.CString.Buffer.{c_str}
use regonf.CString.Decimal.{print_d}
use regonf.CString.Scanf.{scan_d}
use regonf.Timef.{Timespec, Clock}
use regonf.Acp.{Peer, Fts, SensorFts, Em, Link, accept_fts, start_read, finish_read}
use regonf.Acp.Packet.{
  AcpRequest, AcpResponse, request_init, request_set_cmd, request_pack, response_init,
  response_check, sent_bytes, delimiter_column, delimiter_row,
}
use regonf.Acp.Packet.Rows.{request_send_rows, request_send_i1_list, request_send_i2_list}
use regonf.Acp.Packet.ReadRows.{FloatText, data_to_fts_list, data_to_i2_list}
use regonf.Acp.Packet.Response.{response_read, response_data}

-- What C's library and the kernel do for the exchange; `raw_request` and `raw_response` are what the
-- memory of a request and of a response holds before the initialisation.
pub record Wire (W : Type 0) : Type 0 where
  pub clock : Clock W
  -- `rand` after `srand`
  pub rand : W → ℕ × W
  pub send : List ℕ → Peer → W → W
  -- `recvfrom`, or `none` on its failure
  pub receive : Peer → W → Option (List ℕ) × W
  pub raw_request : AcpRequest
  pub raw_response : AcpResponse

-- `acp_peerItemSendCmd`, `acp_getFTS` and the others begin so.
abbrev pub stop_peer : Peer → Timespec → Peer
stop_peer peer now = record peer { active = false; time1 = now }

-- "pgenl"
abbrev cmd_prog_get_enabled : List ℕ
cmd_prog_get_enabled = 112 ∷ 103 ∷ 101 ∷ 110 ∷ 108 ∷ []

module _ {W : Type 0} (wire : Wire W) where
  -- A request that has been built is sent.
  send_request : Option AcpRequest → Peer → W → Option AcpRequest × W
  send_request none peer w = (none, w)
  send_request (some request) peer w = (some request, wire.send (sent_bytes request.buf) peer w)

  -- `acp_requestSendI1List` with one number
  unfoldable pub send_i1 : List ℕ → ℤ → Peer → W → Option AcpRequest × W
  unfolding send_request
  send_i1 cmd remote_id peer w =
      let (n, w1) = wire.rand w in
      send_request (request_send_i1_list cmd (remote_id ∷ []) n wire.raw_request) peer w1

  -- `acp_requestSendCmd`
  unfoldable pub send_cmd : List ℕ → Peer → W → AcpRequest × W
  send_cmd cmd peer w =
      let (n, w1) = wire.rand w in
      let request = request_pack n (request_set_cmd (request_init wire.raw_request) cmd) in
      (request, wire.send (sent_bytes request.buf) peer w1)

  -- `acp_responseRead…List` up to the list
  unfoldable pub read_data : AcpRequest → Peer → W → Option (Option (List ℕ)) × W
  unfolding response_data
  read_data request peer w =
      let (bytes, w1) = wire.receive peer w in (response_data wire.raw_response request bytes, w1)

  -- A request with one number, and the data of the response, if both the sending and the reading
  -- succeed
  unfoldable pub exchange_i1 : List ℕ → ℤ → Peer → W → Option (Option (List ℕ)) × W
  unfolding send_i1 read_data
  exchange_i1 cmd remote_id peer w =
      let (sent, w1) = send_i1 cmd remote_id peer w in
      elim sent [ none ↦ (some none, w1) | some request ↦ read_data request peer w1 ]

  -- `acp_peerItemSendCmd`
  unfoldable pub peer_item_send_cmd : Peer → ℤ → List ℕ → W → Bool × Peer × W
  unfolding send_i1
  peer_item_send_cmd peer remote_id cmd w =
      let (now, w1) = wire.clock w in
      let (sent, w2) = send_i1 cmd remote_id (stop_peer peer now) w1 in
      elim sent [
        | none ↦ (false, stop_peer peer now, w2)
        | some request ↦ (true, stop_peer peer now, w2)
      ]

  -- The item of a response that has one, if it is of the program
  accept_i2 : ℤ → List (ℤ × ℤ) → Option ℤ
  accept_i2 remote_id [] = none
  accept_i2 remote_id (a ∷ (b ∷ rest)) = none
  accept_i2 remote_id ((id, v) ∷ []) = if eq_ℤ id remote_id then some v else none

  -- `acp_getProgEnabled`, less its `memset` of the item; a failure is 0, too
  unfoldable pub get_prog_enabled : Peer → ℤ → W → Option (ℤ × Peer) × W
  unfolding exchange_i1 accept_i2
  get_prog_enabled peer remote_id w =
      let (now, w1) = wire.clock w in
      let stopped = stop_peer peer now in
      let (answer, w2) = exchange_i1 cmd_prog_get_enabled remote_id stopped w1 in
      elim answer [
        | none ↦ (none, w2)
        | some none ↦ (some (pos 0, stopped), w2)
        | some (some bytes) ↦
            let active = record stopped { active = true } in
            elim (accept_i2 remote_id (data_to_i2_list 1 bytes)) [
              | none ↦ (some (pos 0, active), w2)
              | some v ↦ (some (v, active), w2)
            ]
      ]

-- a sensor with an integer
pub record SensorInt : Type 0 where
  pub id : ℤ
  pub remote_id : ℤ
  pub peer : Peer
  pub value : ℤ
  pub last_read_time : Timespec
  pub interval_min : Timespec
  pub last_return : Bool

-- The tests of `acp_readSensorInt` on a response: an item of the sensor itself is refused.
accept_int : ℤ → List (ℤ × ℤ) → Option ℤ
accept_int remote_id [] = none
accept_int remote_id (a ∷ (b ∷ rest)) = none
accept_int remote_id ((id, v) ∷ []) = if eq_ℤ id remote_id then none else some v

-- What follows the response
finish_int : SensorInt → Option (List ℕ) → Bool × SensorInt
unfolding accept_int
finish_int s none = (false, s)
finish_int s (some bytes) =
    let s1 = record s { peer = record (s.peer) { active = true } } in
    elim (accept_int s.remote_id (data_to_i2_list 1 bytes)) [
      | none ↦ (false, s1)
      | some v ↦ (true, record s1 { value = v; last_return = true })
    ]

start_int : SensorInt → Timespec → SensorInt
start_int s now = record s {
  peer = stop_peer s.peer now;
  last_read_time = now;
  last_return = false;
}

-- "gi"
abbrev cmd_get_int : List ℕ
cmd_get_int = 103 ∷ 105 ∷ []

module _ {W : Type 0} (wire : Wire W) where
  -- `acp_readSensorInt`, less its `memset` of the item, which clears `sizeof tl` bytes
  unfoldable pub read_sensor_int : SensorInt → W → Option (Bool × SensorInt) × W
  unfolding exchange_i1 finish_int start_int
  read_sensor_int s w =
      let (now, w1) = wire.clock w in
      let s1 = start_int s now in
      let (answer, w2) = exchange_i1 wire cmd_get_int s.remote_id s1.peer w1 in
      elim answer [ none ↦ (none, w2) | some bytes ↦ (some (finish_int s1 bytes), w2) ]
