-- ===== src/Transport/Signaling/Handling.antt =====
-- src/transport/p2pMeshTransport.ts: `handleSignalingMessage`, and what the signaling socket's
-- message event does before it.
pub mod Growing
pub mod Members
pub mod Keys
use Prim.Native.Nat.{Ordering}
use nettprogg_vsc.Common.{
  ℕ, String, List, [], ◌∷◌, ◌++◌, Bool, true, false, not, Option, none, some, get_or_else,
  if◌then◌else◌, str_eq, map, filter,
}
use nettprogg_vsc.Common.Dict.{Dict, lookup, insert}
use nettprogg_vsc.Common.Sort.{sort}
use nettprogg_vsc.Transport.Interface.{PeerInfo, on_joined, on_presence, on_error}
use nettprogg_vsc.Transport.Peer.{MeshPeer}
use nettprogg_vsc.Transport.Rtc.{Rtc}
use nettprogg_vsc.Transport.Signals.{Signal, apply_signal}
use nettprogg_vsc.Transport.Sockets.{SocketLibrary}
use nettprogg_vsc.Transport.Signaling.{
  SignalingClientMessage, SignalingServerMessage, joined, peer_joined, peer_left, error, is_after,
  report,
}
use nettprogg_vsc.Transport.Signaling.Opening.{Transport, close_mesh_peer, ensure_mesh_peer}

-- What the socket's message event gets: `JSON.parse` throws an error with a text, or its value is one
-- of a relay server, one that `isSignalingServerMessage` refuses, or a message.
pub data Inbound : Type 0 where
  unparsed : String → Inbound
  of_relay : Inbound
  invalid : Inbound
  valid : SignalingServerMessage → Inbound

abbrev wrong_server : String
wrong_server =
    "P2P mode is connected to a relay server endpoint. Start the signaling server and use its URL (default ws://127.0.0.1:7072)."

-- `replaceRoomPeers`, over the peers that the map has by then
pub room_of : List PeerInfo → Dict PeerInfo → Dict PeerInfo
room_of [] room = room
room_of (info ∷ infos) room = room_of infos (insert info.client_id info room)

-- `existingPeerIds`, of a client with the given id
pub existing_peer_ids : (String → String → Ordering) → String → List PeerInfo → List String
existing_peer_ids locale_compare client_id infos =
    sort (is_after locale_compare)
      (filter (λ id. not (str_eq id client_id)) (map (λ p. p.client_id) infos))

-- `this.roomPeers.get(clientId) ?? { clientId, connectedAt: Date.now() }`
abbrev peer_info : ℕ → String → Dict PeerInfo → PeerInfo
peer_info now id room = get_or_else (lookup id room) (record { client_id = id; connected_at = now })

-- `thrown` is the text of an error that node-datachannel throws.
module _ (rtc : Rtc) (ws : SocketLibrary SignalingClientMessage)
    (locale_compare : String → String → Ordering) (thrown : String) where
  pub replace_room_peers : List PeerInfo → Transport rtc ws → Transport rtc ws
  unfolding room_of
  replace_room_peers infos t = record t { room_peers = room_of infos [] }

  abbrev ensure_known : Option PeerInfo → Transport rtc ws → Transport rtc ws
  ensure_known none t = t
  ensure_known (some info) t = ensure_mesh_peer rtc ws locale_compare info t

  -- The loop over `existingPeerIds`
  pub ensure_all : List String → Transport rtc ws → Transport rtc ws
  ensure_all [] t = t
  ensure_all (id ∷ ids) t = ensure_all ids (ensure_known (lookup id t.room_peers) t)

  abbrev apply_found : Option (MeshPeer rtc) → String → Signal → Transport rtc ws → Transport rtc ws
  apply_found none id payload t = t
  apply_found (some peer) id payload t =
      let r = apply_signal rtc payload peer in
      let applied = record t { mesh_peers = insert id r.1 t.mesh_peers } in
      if r.0 then applied else report rtc ws (on_error thrown) applied

  -- `applySignal`, of the peer with the id
  pub apply_to_peer : String → Signal → Transport rtc ws → Transport rtc ws
  apply_to_peer id payload t = apply_found (lookup id t.mesh_peers) id payload t

  -- `handleSignalingMessage` at a time; the session's handlers are done at once.
  pub handle_signaling_message : ℕ → SignalingServerMessage → Transport rtc ws → Transport rtc ws
  unfolding replace_room_peers existing_peer_ids ensure_all apply_to_peer
  handle_signaling_message now (error message) t = report rtc ws (on_error message) t
  handle_signaling_message now (joined room_id client_id infos) t =
      let ids = existing_peer_ids locale_compare t.options.client_id infos in
      let ensured = ensure_all ids (replace_room_peers infos t) in
      let told =
        report rtc ws
          (on_joined (record {
            room_id = room_id;
            client_id = client_id;
            peers = infos;
            existing_peer_ids = ids;
            op_log = [];
          }))
          ensured in
      report rtc ws (on_presence infos) told
  handle_signaling_message now (peer_joined room_id info infos) t =
      report rtc ws (on_presence infos)
        (ensure_mesh_peer rtc ws locale_compare info (replace_room_peers infos t))
  handle_signaling_message now (peer_left room_id id infos) t =
      report rtc ws (on_presence infos) (close_mesh_peer rtc ws id (replace_room_peers infos t))
  handle_signaling_message now (SignalingServerMessage.signal room_id id target payload) t =
      let info = peer_info now id t.room_peers in
      let known = record t { room_peers = insert id info t.room_peers } in
      apply_to_peer info.client_id payload (ensure_mesh_peer rtc ws locale_compare info known)

  -- The socket's event `message`. Where the server is a relay the socket is closed, but not forgotten.
  unfoldable pub socket_message : ℕ → Inbound → Transport rtc ws → Transport rtc ws
  unfolding handle_signaling_message
  socket_message now (unparsed text) t = report rtc ws (on_error text) t
  socket_message now of_relay t = record (report rtc ws (on_error wrong_server) t) {
    signaling_socket = elim t.signaling_socket [
      | none ↦ none
      | some socket ↦ some (ws.close_socket socket)
    ];
  }
  socket_message now invalid t = report rtc ws (on_error "Invalid signaling message.") t
  socket_message now (valid message) t = handle_signaling_message now message t
