-- ===== src/Acp/Exchange/Refine.antt =====
-- lib/acp/main.c: the interface `Link`, with which the regulators are verified, implemented by
-- packets.
use regonf.Prelude.{ℕ, ◌≡◌, Bool, true, false, Option, none, some, List, arith}
use regonf.Acp.{SensorFts, Link, read_sensor_fts}
use regonf.Acp.Packet.{AcpRequest, response_check}
use regonf.Acp.Packet.Response.{response_data}
use regonf.Acp.Packet.ReadRows.{FloatText}
use regonf.Acp.Exchange.{Wire, send_i1, read_data, exchange_i1}
use regonf.Acp.Exchange.Sensor.{
  cmd_get_fts, cmd_set_float, send_i1f1, items, read_sensor_fts_packets,
}

abbrev id_of : Option AcpRequest → Option ℕ
id_of none = none
id_of (some request) = some request.id

abbrev was_sent : Option AcpRequest → Bool
was_sent none = false
was_sent (some request) = true

-- An access past an array counts as no response.
abbrev no_fault : Option (Option (List ℕ)) → Option (List ℕ)
no_fault none = none
no_fault (some answer) = answer

module _ {F W : Type 0} (wire : Wire W) (text : FloatText F) where
  -- The interface over packets; of a request only the id is needed to read the response.
  abbrev pub packet_link : Link F W
  packet_link = record {
    clock = wire.clock;
    request_fts = λ remote_id peer w.
        let (sent, w1) = send_i1 wire cmd_get_fts remote_id peer w in (id_of sent, w1);
    response_fts = λ request_id peer w.
        let (answer, w1) = read_data wire (record (wire.raw_request) { id = request_id }) peer w in
        (items wire text (no_fault answer), w1);
    send_float = λ remote_id value peer w.
        let (sent, w1) = send_i1f1 wire text cmd_set_float (remote_id, value) peer w in
        (was_sent sent, w1);
  }

-- The detailed function returns, if it stays within its arrays, what the abstract one does.
abbrev pub Refines : {A : Type 0} → Option A → A → Type 0
Refines none a = Unit
Refines (some b) a = b ≡ a

module _ {F W : Type 0} (wire : Wire W) (text : FloatText F) where
  -- Reading a sensor by packets gives the result, the sensor and the world that reading it over the
  -- interface does with the packets behind the interface, unless a response makes the parser write or
  -- read past an array.
  pub read_sensor_fts_packets-Refines :
      (s : SensorFts F) (w : W)
      → Refines
          (read_sensor_fts_packets wire text s w)
          (read_sensor_fts ⦃link = packet_link wire text⦄ s w)
  unfolding read_sensor_fts_packets read_sensor_fts exchange_i1 read_data response_data
      response_check
  read_sensor_fts_packets-Refines s w = ground arith
