-- ===== src/Acp/Exchange/Sensor.antt =====
-- lib/acp/main.c: `acp_readSensorFTS` down to its packets, `acp_getFTS`, `acp_setEMFloat` and
-- `acp_setEMInt`; and the interface `Link` over packets.
use regonf.Prelude.{ℕ, Bool, true, false, Option, none, some, List, [], ◌∷◌, ◌++◌, map}
use regonf.Prelude.Int.{ℤ}
use regonf.CString.Decimal.{print_d}
use regonf.Acp.{Peer, Fts, SensorFts, Em, accept_fts, start_read, finish_read}
use regonf.Acp.Packet.{AcpRequest, delimiter_column, delimiter_row}
use regonf.Acp.Packet.Rows.{request_send_rows, request_send_i2_list}
use regonf.Acp.Packet.ReadRows.{FloatText, data_to_fts_list}
use regonf.Acp.Exchange.{Wire, stop_peer, send_request, exchange_i1}

-- "gfts", "sf" and "si"
abbrev pub cmd_get_fts : List ℕ
cmd_get_fts = 103 ∷ 102 ∷ 116 ∷ 115 ∷ []

abbrev pub cmd_set_float : List ℕ
cmd_set_float = 115 ∷ 102 ∷ []

abbrev cmd_set_int : List ℕ
cmd_set_int = 115 ∷ 105 ∷ []

module _ {W : Type 0} (wire : Wire W) where
  -- `acp_requestSendUnrequitedI2List` with one item
  unfoldable pub send_i2 : List ℕ → ℤ × ℤ → Peer → W → Option AcpRequest × W
  unfolding send_request
  send_i2 cmd item peer w =
      let (n, w1) = wire.rand w in
      send_request wire (request_send_i2_list cmd (item ∷ []) n wire.raw_request) peer w1

module _ {F W : Type 0} (wire : Wire W) (text : FloatText F) where
  abbrev pub row_i1f1 : ℤ × F → List ℕ
  row_i1f1 (a, v) = print_d a ++ delimiter_column ∷ (text.print_f v ++ delimiter_row ∷ [])

  abbrev pub request_send_i1f1_list : List ℕ → List (ℤ × F) → ℕ → AcpRequest → Option AcpRequest
  request_send_i1f1_list cmd list = request_send_rows cmd (map row_i1f1 list)

  -- `acp_requestSendUnrequitedI1F1List` with one item
  unfoldable pub send_i1f1 : List ℕ → ℤ × F → Peer → W → Option AcpRequest × W
  unfolding send_request
  send_i1f1 cmd item peer w =
      let (n, w1) = wire.rand w in
      send_request wire (request_send_i1f1_list cmd (item ∷ []) n wire.raw_request) peer w1

  -- `acp_setEMInt`; the last argument is the integer as a `float`
  unfoldable pub set_em_int : Em F → ℤ → F → W → Bool × Em F × W
  unfolding send_i2
  set_em_int em output output_f w =
      let (sent, w1) = send_i2 wire cmd_set_int (em.remote_id, output) em.peer w in
      elim sent [
        | none ↦ (false, em, w1)
        | some request ↦ (true, record em { last_output = output_f }, w1)
      ]

  -- The list of a response with room for one item
  abbrev pub items : Option (List ℕ) → Option (List (Fts F))
  items none = none
  items (some bytes) = some (data_to_fts_list text 1 bytes)

  -- `acp_readSensorFTS`
  unfoldable pub read_sensor_fts_packets : SensorFts F → W → Option (Bool × SensorFts F × W)
  unfolding exchange_i1 start_read finish_read
  read_sensor_fts_packets s w =
      let (now, w1) = wire.clock w in
      let s1 = start_read s now in
      let (answer, w2) = exchange_i1 wire cmd_get_fts s.remote_id s1.peer w1 in
      elim answer [
        | none ↦ none
        | some bytes ↦ let (done, s2) = finish_read s1 (items bytes) in some (done, s2, w2)
      ]

  -- `acp_getFTS`; the value is stored where the result is 1
  unfoldable pub get_fts : Peer → ℤ → W → Option (Option (Fts F) × Peer) × W
  unfolding exchange_i1 accept_fts
  get_fts peer remote_id w =
      let (now, w1) = wire.clock w in
      let stopped = stop_peer peer now in
      let (answer, w2) = exchange_i1 wire cmd_get_fts remote_id stopped w1 in
      elim answer [
        | none ↦ (none, w2)
        | some none ↦ (some (none, stopped), w2)
        | some (some bytes) ↦ (
          some (
            accept_fts remote_id (data_to_fts_list text 1 bytes),
            record stopped { active = true },
          ),
          w2,
        )
      ]
