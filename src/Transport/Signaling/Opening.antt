-- ===== src/Transport/Signaling/Opening.antt =====
-- src/transport/p2pMeshTransport.ts: `ensureMeshPeer`, `attachDataChannel` and `closeMeshPeer`.
pub mod Framing
pub mod Keys
pub mod Initiating
use Prim.Native.Nat.{Ordering}
use nettprogg_vsc.Common.{
  String, List, [], ◌∷◌, ◌++◌, Bool, true, false, Option, none, some, if◌then◌else◌, map,
}
use nettprogg_vsc.Common.Dict.{lookup, insert, delete, values}
use nettprogg_vsc.Transport.DataMessages.{hello}
use nettprogg_vsc.Transport.Interface.{PeerInfo, on_peer_channel_open}
use nettprogg_vsc.Transport.Mesh.{send_data_message}
use nettprogg_vsc.Transport.Peer.{MeshPeer, flush_peer_queue, clear_peer_flush_timer}
use nettprogg_vsc.Transport.Rtc.{Rtc}
use nettprogg_vsc.Transport.Sockets.{SocketLibrary}
use nettprogg_vsc.Transport.Signaling.{SignalingClientMessage, P2PMeshTransport, is_before, report}

module _ (rtc : Rtc) (ws : SocketLibrary SignalingClientMessage) where
  abbrev pub Transport : Type 0
  Transport = P2PMeshTransport rtc ws

  -- A change of the peer that stands in the map under an id
  abbrev pub change_found :
      Option (MeshPeer rtc) → String → (MeshPeer rtc → MeshPeer rtc) → Transport → Transport
  change_found none id f t = t
  change_found (some peer) id f t = record t { mesh_peers = insert id (f peer) t.mesh_peers }

  unfoldable pub change_peer : String → (MeshPeer rtc → MeshPeer rtc) → Transport → Transport
  change_peer id f t = change_found (lookup id t.mesh_peers) id f t

  -- `markOpen`, of the peer with the id
  pub mark_open : String → Transport → Transport
  unfolding change_peer
  mark_open id t =
      let opened = change_peer id (λ peer. record peer { channel_open = true }) t in
      let greeted = record opened {
        mesh_peers =
            (send_data_message rtc id (hello opened.options.client_id) opened.mesh_peers).1;
      } in
      report rtc ws (on_peer_channel_open id) (change_peer id (flush_peer_queue rtc) greeted)

  -- `attachDataChannel`, of the peer with the id
  pub attach_data_channel : String → rtc.Channel → Transport → Transport
  unfolding mark_open
  attach_data_channel id channel t =
      let attached = change_peer id (λ peer. record peer { data_channel = some channel }) t in
      if rtc.is_open channel then mark_open id attached else attached

  -- The peer that `ensureMeshPeer` makes
  pub new_peer : PeerInfo → Transport → MeshPeer rtc
  new_peer info t = record {
    client_id = info.client_id;
    connected_at = info.connected_at;
    peer_connection = rtc.connect_peer info.client_id t.options.ice_servers;
    data_channel = none;
    channel_open = false;
    flush_timer = false;
    queued_messages = [];
    pending_candidates = [];
    too_large = 0;
  }

  -- `peer.dataChannel?.close(); peer.peerConnection.close()`, the timer cleared before
  unfoldable pub shut_peer : MeshPeer rtc → MeshPeer rtc
  shut_peer peer = record (clear_peer_flush_timer rtc peer) {
    data_channel = elim peer.data_channel [
      | none ↦ none
      | some channel ↦ some (rtc.close_channel channel)
    ];
    peer_connection = rtc.close_connection peer.peer_connection;
  }

  abbrev close_found : Option (MeshPeer rtc) → String → Transport → Transport
  close_found none id t = t
  close_found (some peer) id t = record t {
    mesh_peers = delete id t.mesh_peers;
    closed_peers = t.closed_peers ++ shut_peer peer ∷ [];
  }

  -- `closeMeshPeer`
  pub close_mesh_peer : String → Transport → Transport
  unfolding shut_peer
  close_mesh_peer id t = close_found (lookup id t.mesh_peers) id t

  -- `close`; the socket is closed and forgotten.
  unfoldable pub close : Transport → Transport
  unfolding shut_peer
  close t = record t {
    disposed = true;
    signaling_socket = none;
    mesh_peers = [];
    room_peers = [];
    snapshot_chunks = [];
    closed_peers = t.closed_peers ++ map shut_peer (values t.mesh_peers);
  }

  -- `connect`
  unfoldable pub connect : Transport → Transport
  connect t = record t {
    disposed = false;
    signaling_socket = some (ws.open_socket t.options.signaling_url);
  }

  module _ (locale_compare : String → String → Ordering) where
    abbrev ensure_found : Option (MeshPeer rtc) → PeerInfo → Transport → Transport
    ensure_found (some existing) info t = t
    ensure_found none info t =
        let peer = new_peer info t in
        let added = record t { mesh_peers = insert info.client_id peer t.mesh_peers } in
        if is_before locale_compare t.options.client_id info.client_id
        then attach_data_channel info.client_id
            (rtc.create_data_channel peer.peer_connection "liveshare-lite") added
        else added

    -- `ensureMeshPeer`; the peer that it returns is the one that then stands in the map.
    pub ensure_mesh_peer : PeerInfo → Transport → Transport
    unfolding new_peer attach_data_channel
    ensure_mesh_peer info t = ensure_found (lookup info.client_id t.mesh_peers) info t
