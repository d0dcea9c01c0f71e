-- ===== src/Acp/Exchange/Answer.antt =====
-- lib/acp/main.c: `acp_readSensorFTS` where the peer answers.
use mathlib.Core.Path.{subst}
use regonf.Prelude.{
  ℕ, ◌^◌, ◌<◌, ◌≡◌, sym, ap, ◌∙◌, Bool, true, Option, none, some, List, [], ◌∷◌, arith, length,
}
use regonf.Prelude.Int.{pos}
use regonf.CString.Buffer.{c_str}
use regonf.Timef.{Timespec}
use regonf.Acp.{Fts, SensorFts, start_read, finish_read, accept_fts}
use regonf.Acp.Packet.{AcpResponse, response_init, response_pack, sent_bytes, data_max_size}
use regonf.Acp.Packet.Check.{IsBlock}
use regonf.Acp.Packet.Rows.{plain-IsBlock}
use regonf.Acp.Packet.ReadRows.{FloatText, data_to_fts_list}
use regonf.Acp.Packet.Response.{response_read}
use regonf.Acp.Packet.ResponseTrip.{Carries, with_data, response_read-response_pack}
use regonf.Acp.Exchange.{Wire, exchange_i1}
use regonf.Acp.Exchange.FtsRow.{
  FloatLaws, row_fts, FtsIsWord, row_fts-IsPlain, row_fts-length, one_item,
}
use regonf.Acp.Exchange.Sensor.{cmd_get_fts, items, read_sensor_fts_packets}
use regonf.Acp.Exchange.Carried.{after_request, Answers, exchange_i1-answer}

module _ {F W : Type 0} (wire : Wire W) (text : FloatText F) where
  -- The sensor after a successful reading
  abbrev pub with_value : SensorFts F → Timespec → Fts F → SensorFts F
  with_value s now v =
      let s1 = start_read s now in
      record s1 { peer = record (s1.peer) { active = true }; value = v; last_return = true }

  finish_read-value :
      (s : SensorFts F) (v : Fts F) (list : List (Fts F))
      → list ≡ v ∷ []
      → v.id ≡ s.remote_id
      → v.state ≡ pos 1
      → finish_read s (some list) ≡ (
        true,
        record s { peer = record (s.peer) { active = true }; value = v; last_return = true },
      )
  unfolding finish_read accept_fts
  finish_read-value s v list e i k = ap (λ t. finish_read s (some t)) e ∙ ground (arith, i, k)

  -- What the sensor makes of the answer
  abbrev concluded :
      SensorFts F → Timespec → Option (Option (List ℕ)) × W → Option (Bool × SensorFts F × W)
  concluded s now answer = elim answer.0 [
    | none ↦ none
    | some given ↦
        let (done, s2) = finish_read (start_read s now) (items wire text given) in
        some (done, s2, answer.1)
  ]

  -- A peer receives the request for a sensor and answers with a response that has the request's id, and
  -- whose data are the row of the sensor's value, of state 1, with integers of 32 bits and a sign. The
  -- reading of the sensor succeeds: the sensor has the value with the rounding of the printed number,
  -- its time and state, its peer is active, and the reading is marked as good.
  pub read_sensor_fts_packets-answer :
      (laws : FloatLaws text) (s : SensorFts F) (w w2 : W) (server : AcpResponse) (v : Fts F)
      (bytes : List ℕ) (seq last : ℕ)
      → (wire.rand (wire.clock w).1).0 < 2 ^ 32
      → seq < 2 ^ 32
      → last < 2 ^ 32
      → FtsIsWord text v
      → v.id ≡ s.remote_id
      → v.state ≡ pos 1
      → c_str bytes ≡ row_fts text v
      → length (row_fts text v) < data_max_size
      → wire.receive
          (start_read s (wire.clock w).0).peer
          (after_request wire s.remote_id (start_read s (wire.clock w).0).peer (wire.clock w).1)
        ≡ (
          some (
              sent_bytes
                (response_pack
                  (with_data server bytes seq last (wire.rand (wire.clock w).1).0)).buf),
          w2,
        )
      → read_sensor_fts_packets wire text s w
        ≡ some (true, with_value s (wire.clock w).0 (record v { value = laws.rounded v.value }), w2)
  unfolding read_sensor_fts_packets
  read_sensor_fts_packets-answer laws s w w2 server v bytes seq last lr ls ll hw hi hs e lb f =
      let w1 = (wire.clock w).1 in
      let s1 = start_read s (wire.clock w).0 in
      let n = (wire.rand w1).0 in
      let plain = row_fts-IsPlain text laws v in
      let room = row_fts-length text v in
      let block : IsBlock (c_str bytes) = subst IsBlock (sym e) (plain-IsBlock _ plain) in
      let size : length (c_str bytes) ≡ length (row_fts text v) = ap length e in
      let carried =
        subst
          (λ t. Carries t seq last n (
            response_read (response_init wire.raw_response)
              (some (sent_bytes (response_pack (with_data server bytes seq last n)).buf))))
          e
          (response_read-response_pack server wire.raw_response bytes seq last n block (omega arith)
            (omega arith) ls ll lr) in
      read (exchange_i1 wire cmd_get_fts s.remote_id s1.peer w1)
        (exchange_i1-answer wire s.remote_id s1.peer w1 w2 _ (row_fts text v) seq last lr f carried)
    where
      read :
          (x : Option (Option (List ℕ)) × W)
          → Answers wire (row_fts text v) w2 x
          → concluded s (wire.clock w).0 x
            ≡ some (
              true,
              with_value s (wire.clock w).0 (record v { value = laws.rounded v.value }),
              w2,
            )
      read (none, w') h = elim h.0 [ ]
      read (some none, w') h = elim h.0 [ ]
      read (some (some b), w') h =
          let u = record v { value = laws.rounded v.value } in
          let s1 = start_read s (wire.clock w).0 in
          let (x, y) = h in
          ap (λ r. some (r.0, r.1, w'))
            (finish_read-value s1 u (data_to_fts_list text 1 b) (one_item text laws v b hw x) hi hs)
          ∙ ap (λ k. some (true, with_value s (wire.clock w).0 u, k)) y
