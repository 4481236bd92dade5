-- ===== src/Transport/Signaling/Handling/Keys.antt =====
-- src/transport/p2pMeshTransport.ts, `handleSignalingMessage`: the mesh stays keyed by names.
use Prim.Native.Nat.{Ordering}
use nettprogg_vsc.Common.{
  ℕ, String, List, [], ◌∷◌, Option, none, some, ◌≡◌, refl, ◌∙◌, Bool-cases, inl, inr,
}
use nettprogg_vsc.Common.Dict.{lookup, insert}
use nettprogg_vsc.Transport.Interface.{PeerInfo}
use nettprogg_vsc.Transport.Mesh.Keys.{insert-IsKeyed, found-client_id}
use nettprogg_vsc.Transport.Peer.{MeshPeer}
use nettprogg_vsc.Transport.Rtc.{Rtc}
use nettprogg_vsc.Transport.Signals.{Signal, apply_signal}
use nettprogg_vsc.Transport.Signals.Naming.{apply_signal-client_id}
use nettprogg_vsc.Transport.Sockets.{SocketLibrary}
use nettprogg_vsc.Transport.Signaling.{
  SignalingClientMessage, SignalingServerMessage, joined, peer_joined, peer_left, error,
}
use nettprogg_vsc.Transport.Signaling.Opening.{Transport, ensure_mesh_peer}
use nettprogg_vsc.Transport.Signaling.Opening.Keys.{
  MeshKeyed, ensure_mesh_peer-IsKeyed, close_mesh_peer-IsKeyed,
}
use nettprogg_vsc.Transport.Signaling.Handling.{
  Inbound, unparsed, of_relay, invalid, valid, existing_peer_ids, peer_info, replace_room_peers,
  ensure_known, ensure_all, apply_found, apply_to_peer, handle_signaling_message, socket_message,
}
use nettprogg_vsc.Transport.Signaling.Handling.Growing.{IsNamed}
use nettprogg_vsc.Transport.Signaling.Handling.Members.{handle_signaling_message-Follows}

module _ (rtc : Rtc) (ws : SocketLibrary SignalingClientMessage)
    (compare : String → String → Ordering) (thrown : String) where
  ensure_known-IsKeyed :
      (o : Option PeerInfo) (t : Transport rtc ws)
      → MeshKeyed rtc ws t
      → MeshKeyed rtc ws (ensure_known rtc ws compare thrown o t)
  ensure_known-IsKeyed none t h = h
  ensure_known-IsKeyed (some info) t h = ensure_mesh_peer-IsKeyed rtc ws compare info t h

  ensure_all-IsKeyed :
      (ids : List String) (t : Transport rtc ws)
      → MeshKeyed rtc ws t
      → MeshKeyed rtc ws (ensure_all rtc ws compare thrown ids t)
  unfolding ensure_all
  ensure_all-IsKeyed [] t h = h
  ensure_all-IsKeyed (id ∷ ids) t h =
      ensure_all-IsKeyed ids (ensure_known rtc ws compare thrown (lookup id t.room_peers) t)
        (ensure_known-IsKeyed (lookup id t.room_peers) t h)

  apply_found-IsKeyed :
      (o : Option (MeshPeer rtc)) (id : String) (payload : Signal) (t : Transport rtc ws)
      → lookup id t.mesh_peers ≡ o
      → MeshKeyed rtc ws t
      → MeshKeyed rtc ws (apply_found rtc ws compare thrown o id payload t)
  apply_found-IsKeyed none id payload t e h = h
  apply_found-IsKeyed (some peer) id payload t e h =
      let r = apply_signal rtc payload peer in
      let h' =
        insert-IsKeyed rtc id r.1 t.mesh_peers
          (apply_signal-client_id rtc payload peer ∙ found-client_id rtc id peer t.mesh_peers h e)
          h in
      elim (Bool-cases r.0) [ inl fine ↦ rw fine h' | inr failed ↦ rw failed h' ]

  handle_signaling_message-IsKeyed :
      (now : ℕ) (message : SignalingServerMessage) (t : Transport rtc ws)
      → MeshKeyed rtc ws t
      → MeshKeyed rtc ws (handle_signaling_message rtc ws compare thrown now message t)
  unfolding handle_signaling_message replace_room_peers apply_to_peer
  handle_signaling_message-IsKeyed now (error text) t h = h
  handle_signaling_message-IsKeyed now (joined room_id client_id infos) t h =
      ensure_all-IsKeyed (existing_peer_ids compare t.options.client_id infos)
        (replace_room_peers rtc ws compare thrown infos t) h
  handle_signaling_message-IsKeyed now (peer_joined room_id info infos) t h =
      ensure_mesh_peer-IsKeyed rtc ws compare info
        (replace_room_peers rtc ws compare thrown infos t) h
  handle_signaling_message-IsKeyed now (peer_left room_id id infos) t h =
      close_mesh_peer-IsKeyed rtc ws id (replace_room_peers rtc ws compare thrown infos t) h
  handle_signaling_message-IsKeyed now (SignalingServerMessage.signal room_id id target payload) t
        h =
      let info = peer_info now id t.room_peers in
      let known = record t { room_peers = insert id info t.room_peers } in
      let ensured = ensure_mesh_peer rtc ws compare info known in
      apply_found-IsKeyed (lookup info.client_id ensured.mesh_peers) info.client_id payload ensured
        refl (ensure_mesh_peer-IsKeyed rtc ws compare info known h)

  pub socket_message-IsKeyed :
      (now : ℕ) (inbound : Inbound) (t : Transport rtc ws)
      → MeshKeyed rtc ws t
      → MeshKeyed rtc ws (socket_message rtc ws compare thrown now inbound t)
  unfolding socket_message
  socket_message-IsKeyed now (unparsed text) t h = h
  socket_message-IsKeyed now of_relay t h = h
  socket_message-IsKeyed now invalid t h = h
  socket_message-IsKeyed now (valid message) t h = handle_signaling_message-IsKeyed now message t h

  pub socket_message-IsNamed :
      (now : ℕ) (inbound : Inbound) (t : Transport rtc ws)
      → IsNamed t.room_peers
      → IsNamed (socket_message rtc ws compare thrown now inbound t).room_peers
  unfolding socket_message
  socket_message-IsNamed now (unparsed text) t h = h
  socket_message-IsNamed now of_relay t h = h
  socket_message-IsNamed now invalid t h = h
  socket_message-IsNamed now (valid message) t h =
      (handle_signaling_message-Follows rtc ws compare thrown now message t h).named
