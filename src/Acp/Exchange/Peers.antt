-- ===== src/Acp/Exchange/Peers.antt =====
-- lib/acp/main.c: `acp_pingPeer`, `acp_peerListIsActive` and `acp_pingPeerList`, and the functions
-- `acp_sendCmdGetInt` and `acp_sendCmdGetFloat`.
use regonf.Prelude.{
  ℕ, suc, ◌≡◌, ◌↔◌, refl, Bool, true, false, ◌&&◌, Option, none, some, List, [], ◌∷◌, arith, ◌==◌,
  if◌then◌else◌, All, length,
}
use regonf.Prelude.Int.{ℤ}
use regonf.CString.Buffer.{c_str}
use regonf.Timef.{Timespec, time_has_passed}
use regonf.Acp.{Peer}
use regonf.Acp.Packet.{AcpRequest, AcpResponse, response_init, response_check}
use regonf.Acp.Packet.Response.{response_read}
use regonf.Acp.Packet.ReadRows.{FloatText, scan_i1, scan_f1}
use regonf.Acp.Exchange.{Wire, stop_peer, send_cmd}

-- "apn"
abbrev cmd_app_ping : List ℕ
cmd_app_ping = 97 ∷ 112 ∷ 110 ∷ []

-- The first byte of the data is that of ACP_RESP_APP_BUSY, "B".
abbrev pub says_busy : List ℕ → Bool
says_busy [] = false
says_busy (b ∷ bs) = b == 66

module _ {W : Type 0} (wire : Wire W) where
  -- `acp_responseRead` into a new response
  unfoldable pub read_response : Peer → W → Option (Bool × AcpResponse) × W
  read_response peer w =
      let (bytes, w1) = wire.receive peer w in
      (response_read (response_init wire.raw_response) bytes, w1)

  -- What follows the response to a ping
  unfoldable pub finish_ping : Peer → AcpRequest → Option (Bool × AcpResponse) → Option Peer
  unfolding response_check
  finish_ping item request none = none
  finish_ping item request (some (false, response)) = some item
  finish_ping item request (some (true, response)) = some (
      if response_check response request && says_busy response.data_buf
      then record item { active = true }
      else item)

  -- `acp_pingPeer`
  unfoldable pub ping_peer : Peer → W → Option Peer × W
  unfolding finish_ping read_response
  ping_peer item w =
      let (now, w1) = wire.clock w in
      let stopped = stop_peer item now in
      let (request, w2) = send_cmd wire cmd_app_ping stopped w1 in
      let (answer, w3) = read_response stopped w2 in (finish_ping stopped request answer, w3)

  -- The loop of `acp_peerListIsActive` after a ping; `rest` is what it does with the other peers.
  unfoldable pub after_ping :
      List Peer → W → Option Peer → Option (Bool × List Peer) × W → Option (Bool × List Peer) × W
  after_ping list w1 none rest = (none, w1)
  after_ping list w1 (some p) (rest, w2) =
      if p.active
      then (elim rest [ none ↦ none | some (active, ps) ↦ some (active, p ∷ ps) ], w2)
      else (some (false, p ∷ list), w1)

  -- `acp_peerListIsActive`: the peers are asked in turn, up to the first that is not active.
  unfoldable pub peer_list_is_active : List Peer → W → Option (Bool × List Peer) × W
  unfolding ping_peer after_ping
  peer_list_is_active [] w = (some (true, []), w)
  peer_list_is_active (item ∷ list) w =
      let (pinged, w1) = ping_peer item w in
      let rest = peer_list_is_active list w1 in after_ping list w1 pinged rest

  -- `acp_pingPeerList`
  unfoldable pub ping_peer_list : List Peer → Timespec → Timespec → W → Option (List Peer) × W
  unfolding ping_peer
  ping_peer_list [] interval now w = (some [], w)
  ping_peer_list (item ∷ list) interval now w =
      let (pinged, w1) =
        if time_has_passed interval item.time1 now then ping_peer item w else (some item, w) in
      let (rest, w2) = ping_peer_list list interval now w1 in
      elim pinged [
        | none ↦ (none, w1)
        | some p ↦ (elim rest [ none ↦ none | some ps ↦ some (p ∷ ps) ], w2)
      ]

  -- What follows the response in `acp_sendCmdGetInt`: the peer is active before the id is compared.
  finish_get_int : Peer → AcpRequest → AcpResponse → Option ℤ × Peer
  unfolding response_check
  finish_get_int peer request response =
      let value =
        if response_check response request then scan_i1 (c_str response.data_buf) else none in
      (value, record peer { active = true })

  -- `acp_sendCmdGetInt`; a failure leaves the output as it was
  unfoldable pub send_cmd_get_int : Peer → List ℕ → W → Option (Option ℤ × Peer) × W
  unfolding finish_get_int read_response
  send_cmd_get_int peer cmd w =
      let (now, w1) = wire.clock w in
      let stopped = stop_peer peer now in
      let (request, w2) = send_cmd wire cmd stopped w1 in
      let (answer, w3) = read_response stopped w2 in
      elim answer [
        | none ↦ (none, w3)
        | some (false, response) ↦ (some (none, stopped), w3)
        | some (true, response) ↦ (some (finish_get_int stopped request response), w3)
      ]

module _ {F W : Type 0} (wire : Wire W) (text : FloatText F) where
  -- What follows the response in `acp_sendCmdGetFloat`: the peer is active after the id is compared.
  finish_get_float : Peer → AcpRequest → AcpResponse → Option F × Peer
  unfolding response_check
  finish_get_float peer request response =
      if response_check response request
      then (scan_f1 text (c_str response.data_buf), record peer { active = true })
      else (none, peer)

  -- `acp_sendCmdGetFloat`
  unfoldable pub send_cmd_get_float : Peer → List ℕ → W → Option (Option F × Peer) × W
  unfolding finish_get_float
  send_cmd_get_float peer cmd w =
      let (now, w1) = wire.clock w in
      let stopped = stop_peer peer now in
      let (request, w2) = send_cmd wire cmd stopped w1 in
      let (answer, w3) = read_response wire stopped w2 in
      elim answer [
        | none ↦ (none, w3)
        | some (false, response) ↦ (some (none, stopped), w3)
        | some (true, response) ↦ (some (finish_get_float stopped request response), w3)
      ]

-- The answer of `acp_peerListIsActive` agrees with the peers that it leaves, and none is lost.
abbrev pub Agrees : ℕ → Option (Bool × List Peer) → Type 0
Agrees n none = Unit
Agrees n (some (active, ps)) = ((active ≡ true) ↔ All (λ p. p.active ≡ true) ps) × (length ps ≡ n)

module _ {W : Type 0} (wire : Wire W) where
  pub peer_list_is_active-Agrees :
      (list : List Peer) (w : W) → Agrees (length list) (peer_list_is_active wire list w).0
  unfolding peer_list_is_active after_ping
  peer_list_is_active-Agrees [] w = ((λ e. tt, λ h. refl), refl)
  peer_list_is_active-Agrees (item ∷ list) w =
      asked (ping_peer wire item w).0 (peer_list_is_active wire list (ping_peer wire item w).1)
        (peer_list_is_active-Agrees list (ping_peer wire item w).1)
    where
      asked :
          (pinged : Option Peer) (rest : Option (Bool × List Peer) × W)
          → Agrees (length list) rest.0
          → Agrees
              (suc (length list))
              (after_ping wire list (ping_peer wire item w).1 pinged rest).0
      asked none rest h = tt
      asked (some p) (none, w2) h = ground arith
      asked (some p) (some (active, ps), w2) h = ground arith
