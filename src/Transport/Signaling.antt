-- ===== src/Transport/Signaling.antt =====
-- src/shared/signalingMessages.ts, its types, and the state of `P2PMeshTransport` in
-- src/transport/p2pMeshTransport.ts.
pub mod Opening
pub mod Handling
pub mod Channels
pub mod Events
pub mod Adapter
use Prim.Native.Nat.{Ordering}
use nettprogg_vsc.Common.{
  String, List, [], ◌∷◌, ◌++◌, Bool, true, false, Option, none, some, if◌then◌else◌,
}
use nettprogg_vsc.Common.Dict.{Dict}
use nettprogg_vsc.Transport.Chunks.{ChunkBuffer}
use nettprogg_vsc.Transport.Interface.{PeerInfo, Report}
use nettprogg_vsc.Transport.Mesh.{Peers}
use nettprogg_vsc.Transport.Peer.{MeshPeer}
use nettprogg_vsc.Transport.Rtc.{Rtc}
use nettprogg_vsc.Transport.Signals.{Signal}
use nettprogg_vsc.Transport.Sockets.{SocketLibrary}

-- `SignalingClientMessage`: the room and the client, and for a signal the target and what is sent
pub data SignalingClientMessage : Type 0 where
  join : String → String → SignalingClientMessage
  signal : String → String → String → Signal → SignalingClientMessage

-- `SignalingServerMessage`, the fields in the source's order
pub data SignalingServerMessage : Type 0 where
  joined : String → String → List PeerInfo → SignalingServerMessage
  peer_joined : String → PeerInfo → List PeerInfo → SignalingServerMessage
  peer_left : String → String → List PeerInfo → SignalingServerMessage
  signal : String → String → String → Signal → SignalingServerMessage
  error : String → SignalingServerMessage

-- `P2PMeshTransportOptions`, less the handlers
pub record P2PMeshTransportOptions : Type 0 where
  pub signaling_url : String
  pub room_id : String
  pub client_id : String
  pub ice_servers : List String

-- `a.localeCompare(b) < 0` and `a.localeCompare(b) > 0`, of a given comparison
abbrev pub is_before : (String → String → Ordering) → String → String → Bool
is_before compare a b = elim (compare a b) [
  | Ordering.lt ↦ true
  | Ordering.eq ↦ false
  | Ordering.gt ↦ false
]

abbrev pub is_after : (String → String → Ordering) → String → String → Bool
is_after compare a b = elim (compare a b) [
  | Ordering.lt ↦ false
  | Ordering.eq ↦ false
  | Ordering.gt ↦ true
]

module _ (rtc : Rtc) (ws : SocketLibrary SignalingClientMessage) where
  -- The fields of `P2PMeshTransport`. `reports` holds the calls of the handlers, `too_large` of a
  -- peer apart, and `closed_peers` the peers whose channel and connection were closed.
  pub record P2PMeshTransport : Type 0 where
    pub options : P2PMeshTransportOptions
    pub signaling_socket : Option ws.Socket
    pub disposed : Bool
    pub room_peers : Dict PeerInfo
    pub mesh_peers : Peers rtc
    pub snapshot_chunks : Dict ChunkBuffer
    pub reports : List Report
    pub closed_peers : List (MeshPeer rtc)

  -- The constructor
  pub create : P2PMeshTransportOptions → P2PMeshTransport
  create options = record {
    options = options;
    signaling_socket = none;
    disposed = false;
    room_peers = [];
    mesh_peers = [];
    snapshot_chunks = [];
    reports = [];
    closed_peers = [];
  }

  -- A call of a handler
  abbrev pub report : Report → P2PMeshTransport → P2PMeshTransport
  report r t = record t { reports = t.reports ++ r ∷ [] }

  -- `sendSignaling`, by the socket
  abbrev send_on :
      Option ws.Socket → SignalingClientMessage → P2PMeshTransport → Bool × P2PMeshTransport
  send_on none message t = (false, t)
  send_on (some socket) message t =
      if ws.is_open socket
      then (true, record t { signaling_socket = some (ws.send_message socket message) })
      else (false, t)

  -- `sendSignaling`
  pub send_signaling : SignalingClientMessage → P2PMeshTransport → Bool × P2PMeshTransport
  send_signaling message t = send_on t.signaling_socket message t

  -- `sendSignal`
  pub send_signal : String → Signal → P2PMeshTransport → Bool × P2PMeshTransport
  unfolding send_signaling
  send_signal target payload t =
      send_signaling
        (SignalingClientMessage.signal t.options.room_id t.options.client_id target payload) t
