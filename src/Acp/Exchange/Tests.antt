-- ===== src/Acp/Exchange/Tests.antt =====
-- lib/acp/main.c: a sensor that is read over packets, at concrete inputs.
use regonf.Prelude.{
  ℕ, ◌≡◌, refl, Bool, true, false, Option, none, some, List, [], ◌∷◌, ◌++◌, arith, ◌==◌, ap,
  if◌then◌else◌,
}
use regonf.Prelude.Int.{pos}
use regonf.CString.Buffer.{c_str}
use regonf.CString.Decimal.{print_u}
use regonf.CString.Scanf.{
  skip_space, skip_space_idem, scan_d, scan_integer, scan_digits, take_digits,
}
use regonf.Timef.{timespec}
use regonf.Acp.{Peer, Fts, SensorFts}
use regonf.Acp.Packet.{AcpResponse, sent_bytes, response_pack}
use regonf.Acp.Packet.ReadRows.{FloatText, data_to_i2_list, data_to_list, scan_i2, buf_next_row}
use regonf.Acp.Packet.Rows.{IsPlain}
use regonf.Acp.Packet.ResponseTrip.{with_data}
use regonf.Acp.Exchange.{Wire}
use regonf.Acp.Exchange.FtsRow.{FloatLaws, row_fts}
use regonf.Acp.Exchange.Sensor.{read_sensor_fts_packets}
use regonf.Acp.Exchange.Answer.{with_value, read_sensor_fts_packets-answer}

-- The numbers 0 and 1 as floats
abbrev scan_bit : List ℕ → Option (Bool × List ℕ)
scan_bit [] = none
scan_bit (c ∷ cs) = if c == 48 then some (false, cs) else if c == 49 then some (true, cs) else none

abbrev print_bit : Bool → List ℕ
print_bit false = 48 ∷ []
print_bit true = 49 ∷ []

abbrev bit_text : FloatText Bool
bit_text = record { scan_f = λ s. scan_bit (skip_space s); print_f = print_bit }

scan_print :
    (v : Bool) (s : List ℕ) → scan_bit (skip_space (print_bit v ++ 9 ∷ s)) ≡ some (v, 9 ∷ s)
unfolding skip_space
scan_print false s = refl
scan_print true s = refl

print_bit-IsPlain : (v : Bool) → IsPlain (print_bit v)
print_bit-IsPlain false = ((omega arith, omega arith), tt)
print_bit-IsPlain true = ((omega arith, omega arith), tt)

abbrev bit_laws : FloatLaws bit_text
unfolding skip_space
bit_laws = record {
  rounded = λ v. v;
  scan_f-space = λ s. ap scan_bit (skip_space_idem s);
  scan_f-print_f = scan_print;
  print_f-IsPlain = print_bit-IsPlain;
}

abbrev peer : Peer
peer = record {
  id = [];
  addr_str = [];
  port = pos 49161;
  active = true;
  time1 = timespec (pos 0) (pos 0);
}

abbrev fts : Fts Bool
fts = record { id = pos 5; value = true; tm = timespec (pos 70) (pos 8); state = pos 1 }

abbrev sensor : SensorFts Bool
sensor = record {
  id = pos 1;
  remote_id = pos 5;
  peer = peer;
  value = record { id = pos 5; value = false; tm = timespec (pos 60) (pos 0); state = pos 1 };
  last_read_time = timespec (pos 60) (pos 0);
  interval_min = timespec (pos 1) (pos 0);
  last_return = true;
}

abbrev raw_response : AcpResponse
raw_response = record {
  data_buf = [];
  buf = [];
  id = 7;
  seq = 3;
  is_not_last = 1;
  crc = 9;
  last_is_ok = false;
}

-- A network whose peer answers every request with the number 305 with the value above; the world
-- is 1 once a response has been received.
abbrev wire : Wire ℕ
wire = record {
  clock = λ w. (timespec (pos 71) (pos 0), w);
  rand = λ w. (305, w);
  send = λ bytes p w. w;
  receive = λ p w. (
    some (sent_bytes (response_pack (with_data raw_response (row_fts bit_text fts) 0 0 305)).buf),
    1,
  );
  raw_request = record { cmd = []; data_buf = []; buf = []; id = 7; data_rows_count = 0; crc = 9 };
  raw_response = raw_response;
}

read_sensor_fts_packets-answer_example :
    read_sensor_fts_packets wire bit_text sensor 0
    ≡ some (true, with_value wire bit_text sensor (timespec (pos 71) (pos 0)) fts, 1)
unfolding c_str print_u bit_laws
read_sensor_fts_packets-answer_example =
    read_sensor_fts_packets-answer wire bit_text bit_laws sensor 0 1 raw_response fts
      (row_fts bit_text fts) 0 0 (omega arith) (omega arith) (omega arith)
      (omega arith, omega arith, omega arith, omega arith) refl refl refl (omega arith) refl

-- A row that lacks its second number takes it from the next row: "5\n6\n" is read as one pair.
rows_run_together : data_to_i2_list 8 (53 ∷ 10 ∷ 54 ∷ 10 ∷ []) ≡ (pos 5, pos 6) ∷ []
unfolding data_to_list scan_i2 scan_d scan_integer scan_digits take_digits skip_space buf_next_row
    c_str
rows_run_together = refl
