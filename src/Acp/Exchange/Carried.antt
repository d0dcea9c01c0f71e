-- ===== src/Acp/Exchange/Carried.antt =====
-- lib/acp/main.c: a request for one number, and the data of the response that carries its id.
use mathlib.Core.Path.{subst}
use regonf.Prelude.{
  ℕ, suc, ◌^◌, ◌<◌, ◌≤◌, ◌≡◌, refl, sym, ap, Bool, true, false, Option, none, some, List, [], ◌∷◌,
  ◌++◌, arith, ◌==◌, if◌then◌else◌, length, length-append, All-append,
}
use regonf.Prelude.Int.{ℤ, pos, negsuc}
use regonf.CString.Buffer.{c_str}
use regonf.CString.Decimal.{print_d, length-print_u}
use regonf.Acp.{Peer}
use regonf.Acp.Packet.{
  AcpRequest, AcpResponse, request_pack, response_init, response_check, delimiter_row, request_rows,
}
use regonf.Acp.Packet.Request.{concat}
use regonf.Acp.Packet.Rows.{
  IsPlain, plain-IsText, plain-IsBlock, print_d-IsPlain, row_i1, request_send_rows,
  request_send_i1_list, request_send_rows_lem, Delivered,
}
use regonf.Acp.Packet.Response.{response_read, response_data}
use regonf.Acp.Packet.ResponseTrip.{Carries}
use regonf.Acp.Exchange.{Wire, send_request, send_i1, read_data, exchange_i1}
use regonf.Acp.Exchange.Sensor.{cmd_get_fts}

-- The data of a response
abbrev pub Gives : List ℕ → Option (Option (List ℕ)) → Type 0
Gives text none = ⊥
Gives text (some none) = ⊥
Gives text (some (some bytes)) = c_str bytes ≡ text

-- A response that carries the id of the request gives its data.
response_data-carried :
    (raw : AcpResponse) (request : AcpRequest) (bytes : Option (List ℕ)) (text : List ℕ)
    (seq last : ℕ)
    → Carries text seq last request.id (response_read (response_init raw) bytes)
    → Gives text (response_data raw request bytes)
unfolding response_data response_check
response_data-carried raw request bytes text seq last h =
    carried (response_read (response_init raw) bytes) h
  where
    carried :
        (o : Option (Bool × AcpResponse))
        → Carries text seq last request.id o
        → Gives text (elim o [
          | none ↦ none
          | some (false, item) ↦ some none
          | some (true, item) ↦ some (if item.id == request.id then some item.data_buf else none)
        ])
    carried none h = h
    carried (some (false, item)) h = elim h [ ]
    carried (some (true, item)) h = ground (arith, h.0, h.3)

-- A request that has been built, with the number that `rand` has returned
abbrev HasId : ℕ → Option AcpRequest → Type 0
HasId n none = ⊥
HasId n (some request) = request.id ≡ n

length-print_d : (v : ℤ) → length (print_d v) ≤ 11
length-print_d (pos n) = omega (arith, length-print_u n)
length-print_d (negsuc n) = omega (arith, length-print_u (suc n))

row-IsPlain : (v : ℤ) → IsPlain (row_i1 v)
row-IsPlain v = All-append _ (print_d v) _ (print_d-IsPlain v) ((omega arith, omega arith), tt)

i1-HasId :
    (raw : AcpRequest) (remote_id : ℤ) (n : ℕ)
    → n < 2 ^ 32
    → HasId n (request_send_i1_list cmd_get_fts (remote_id ∷ []) n raw)
unfolding request_send_rows request_pack
i1-HasId raw remote_id n l =
    let row = row_i1 remote_id in
    let plain : IsPlain (row ++ []) = All-append _ row _ (row-IsPlain remote_id) tt in
    built (request_rows raw cmd_get_fts (row ∷ [])) (
      request_send_rows_lem raw raw cmd_get_fts (row ∷ []) n (ground arith) (ground arith)
        (omega arith) (omega arith) (plain-IsText row (row-IsPlain remote_id), tt)
        (plain-IsBlock _ plain)
        (omega (
          arith,
          length-append row [],
          length-append (print_d remote_id) (delimiter_row ∷ []),
          length-print_d remote_id,
        ))
        l)
  where
    built :
        (o : Option AcpRequest)
        → Delivered raw cmd_get_fts
            (concat (row_i1 remote_id ∷ []))
            n
            (elim o [ none ↦ none | some item ↦ some (request_pack n item) ])
        → HasId n (elim o [ none ↦ none | some item ↦ some (request_pack n item) ])
    built none h = h
    built (some item) h = refl

module _ {W : Type 0} (wire : Wire W) where
  -- The world after the request for a sensor has been sent
  abbrev pub after_request : ℤ → Peer → W → W
  after_request remote_id peer w = (send_i1 wire cmd_get_fts remote_id peer w).1

  abbrev pub Answers : List ℕ → W → Option (Option (List ℕ)) × W → Type 0
  Answers text w (answer, w') = Gives text answer × (w' ≡ w)

  pub exchange_i1-answer :
      (remote_id : ℤ) (peer : Peer) (w w2 : W) (bytes : Option (List ℕ)) (text : List ℕ)
      (seq last : ℕ)
      → (wire.rand w).0 < 2 ^ 32
      → wire.receive peer (after_request remote_id peer w) ≡ (bytes, w2)
      → Carries text seq last
          (wire.rand w).0
          (response_read (response_init wire.raw_response) bytes)
      → Answers text w2 (exchange_i1 wire cmd_get_fts remote_id peer w)
  unfolding exchange_i1 send_i1 read_data
  exchange_i1-answer remote_id peer w w2 bytes text seq last l e h =
      sent (request_send_i1_list cmd_get_fts (remote_id ∷ []) (wire.rand w).0 wire.raw_request)
        (i1-HasId wire.raw_request remote_id (wire.rand w).0 l) e
    where
      sent :
          (o : Option AcpRequest)
          → HasId (wire.rand w).0 o
          → wire.receive peer (send_request wire o peer (wire.rand w).1).1 ≡ (bytes, w2)
          → Answers text w2 (elim (send_request wire o peer (wire.rand w).1).0 [
            | none ↦ (some none, (send_request wire o peer (wire.rand w).1).1)
            | some request ↦
                read_data wire request peer (send_request wire o peer (wire.rand w).1).1
          ])
      sent none i f = elim i [ ]
      sent (some request) i f = (
        subst (λ r. Gives text (response_data wire.raw_response request r.0)) (sym f)
            (response_data-carried wire.raw_response request bytes text seq last (
              subst
                (λ n.
                  Carries text seq last n (response_read (response_init wire.raw_response) bytes))
                (sym i) h)),
        ap (λ r. r.1) f,
      )
