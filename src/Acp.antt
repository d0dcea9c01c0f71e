-- ===== src/Acp.antt =====
-- lib/acp/main.h: the data that the control code shares, and lib/acp/main.c: `acp_readSensorFTS`
-- and `acp_setEMFloat` over the exchange of requests and responses with a peer.
-- A `Peer` is modelled without its socket address and descriptor, which only the system calls use.
pub mod Exchange
pub mod Packet
use regonf.Prelude.{ℕ, Bool, true, false, Option, none, some, List, [], ◌∷◌, if◌then◌else◌}
use regonf.Prelude.Int.{ℤ, pos, eq_ℤ}
use regonf.Timef.{Timespec, Clock}

pub record Peer : Type 0 where
  pub id : List ℕ
  pub addr_str : List ℕ
  pub port : ℤ
  pub active : Bool
  pub time1 : Timespec

-- a float with its time and state
pub record Fts (F : Type 0) : Type 0 where
  pub id : ℤ
  pub value : F
  pub tm : Timespec
  pub state : ℤ

pub record SensorFts (F : Type 0) : Type 0 where
  pub id : ℤ
  pub remote_id : ℤ
  pub peer : Peer
  pub value : Fts F
  pub last_read_time : Timespec
  pub interval_min : Timespec
  pub last_return : Bool

-- executive mechanism
pub record Em (F : Type 0) : Type 0 where
  pub id : ℤ
  pub remote_id : ℤ
  pub peer : Peer
  pub last_output : F
  pub pwm_rsl : F

-- What the control code uses of the protocol and the clock. `W` is the world outside the program.
pub record Link (F W : Type 0) : Type 0 where
  pub clock : Clock W
  -- `acp_requestSendI1List(ACP_CMD_GET_FTS, …)` with one number: the id of the request, if it fits
  pub request_fts : ℤ → Peer → W → Option ℕ × W
  -- `acp_responseReadFTSList` with room for one item
  pub response_fts : (request_id : ℕ) → Peer → W → Option (List (Fts F)) × W
  -- `acp_requestSendUnrequitedI1F1List(ACP_CMD_SET_FLOAT, …)` with one item
  pub send_float : ℤ → F → Peer → W → Bool × W

module _ {F : Type 0} where
  -- The tests of `acp_readSensorFTS` on a response
  unfoldable pub accept_fts : ℤ → List (Fts F) → Option (Fts F)
  accept_fts remote_id [] = none
  accept_fts remote_id (v ∷ (x ∷ rest)) = none
  accept_fts remote_id (v ∷ []) =
      if eq_ℤ v.id remote_id then if eq_ℤ v.state (pos 1) then some v else none else none

  -- The stores before the request is sent
  unfoldable pub start_read : SensorFts F → Timespec → SensorFts F
  start_read s now = record s {
    peer = record (s.peer) { active = false; time1 = now };
    last_read_time = now;
    last_return = false;
    value = record (s.value) { state = pos 0 };
  }

  -- What follows the response
  unfoldable pub finish_read : SensorFts F → Option (List (Fts F)) → Bool × SensorFts F
  unfolding accept_fts
  finish_read s none = (false, s)
  finish_read s (some items) =
      let s' = record s { peer = record (s.peer) { active = true } } in
      elim (accept_fts s.remote_id items) [
        | none ↦ (false, s')
        | some v ↦ (true, record s' { value = v; last_return = true })
      ]

module _ {F W : Type 0} ⦃link : Link F W⦄ where
  unfoldable pub read_sensor_fts : SensorFts F → W → Bool × SensorFts F × W
  unfolding start_read finish_read
  read_sensor_fts s w =
      let (now, w1) = link.clock w in
      let s1 = start_read s now in
      let (sent, w2) = link.request_fts s.remote_id s1.peer w1 in
      elim sent [
        | none ↦ (false, s1, w2)
        | some request_id ↦
            let (items, w3) = link.response_fts request_id s1.peer w2 in
            let (done, s2) = finish_read s1 items in (done, s2, w3)
      ]

  unfoldable pub set_em_float : Em F → F → W → Bool × Em F × W
  set_em_float em output w =
      let (sent, w1) = link.send_float em.remote_id output em.peer w in
      if sent then (true, record em { last_output = output }, w1) else (false, em, w1)
