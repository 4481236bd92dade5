-- ===== src/Transport/Interface.antt =====
-- src/transport/types.ts: what a session asks of a transport, and the events that it gets from one.
use nettprogg_vsc.Common.{ℕ, String, List, [], ◌∷◌, ◌++◌, Bool, Option, ◌≡◌, cond}
use nettprogg_vsc.Crdt.{CrdtOperation, TextCrdtSnapshot}

-- `TransportMode`
pub data TransportMode : Type 0 where
  relay p2p : TransportMode

-- messages.ts, `PeerInfo`
pub record PeerInfo : Type 0 where
  pub client_id : String
  pub connected_at : ℕ

-- `TransportJoinedEvent`; a log that is left out is `[]`, as `event.opLog ?? []` reads it
pub record JoinedEvent : Type 0 where
  pub room_id : String
  pub client_id : String
  pub peers : List PeerInfo
  pub existing_peer_ids : List String
  pub op_log : List CrdtOperation

-- `TransportOperationEvent`
pub record OperationEvent : Type 0 where
  pub op : CrdtOperation
  pub source_client_id : Option String

-- `TransportSnapshotEvent`
pub record SnapshotEvent : Type 0 where
  pub snapshot : TextCrdtSnapshot
  pub source_client_id : Option String

-- `CollaborationTransport`. A method returns its answer and the transport afterwards; one that a
-- transport leaves out answers false. `connect` makes a transport for a mode, a URL, a room and a
-- client, and connects it.
pub record CollaborationTransport : Type 1 where
  pub State : Type 0
  pub connect : TransportMode → String → String → String → State
  pub close : State → State
  pub send_operation : State → CrdtOperation → Option String → Bool × State
  pub request_snapshot : State → Option String → Bool × State
  pub send_snapshot : State → String → TextCrdtSnapshot → Bool × State

-- What a session relies on: the operations that a transport has accepted are those for which
-- `sendOperation` answered true, in order.
pub record Accepts (net : CollaborationTransport) : Type 0 where
  pub accepted : net.State → List CrdtOperation
  pub accepted-send :
      (t : net.State) (op : CrdtOperation) (except : Option String)
      → accepted (net.send_operation t op except).1
        ≡ cond (net.send_operation t op except).0 (accepted t ++ op ∷ []) (accepted t)

-- What a transport tells its session: a call of one of the `TransportHandlers`
pub data Report : Type 0 where
  on_joined : JoinedEvent → Report
  on_presence : List PeerInfo → Report
  on_operation : OperationEvent → Report
  on_snapshot_request : String → Report
  on_snapshot : SnapshotEvent → Report
  on_peer_channel_open : String → Report
  on_close : Report
  on_error : String → Report
