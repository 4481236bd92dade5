-- ===== src/Transport/Signaling/Opening/Keys.antt =====
-- src/transport/p2pMeshTransport.ts: opening and closing a peer keeps the mesh keyed by names.
use Prim.Native.Nat.{Ordering}
use nettprogg_vsc.Common.{String, true, Option, none, some, ◌≡◌, refl, ◌∙◌, Bool-cases, inl, inr}
use nettprogg_vsc.Common.Dict.{lookup, insert}
use nettprogg_vsc.Transport.DataMessages.{hello}
use nettprogg_vsc.Transport.Interface.{PeerInfo}
use nettprogg_vsc.Transport.Mesh.{send_data_message}
use nettprogg_vsc.Transport.Mesh.Keys.{
  IsKeyed, insert-IsKeyed, delete-IsKeyed, found-client_id, send_data_message-IsKeyed,
}
use nettprogg_vsc.Transport.Peer.{MeshPeer, flush_peer_queue}
use nettprogg_vsc.Transport.Peer.Naming.{flush_peer_queue-client_id}
use nettprogg_vsc.Transport.Rtc.{Rtc}
use nettprogg_vsc.Transport.Sockets.{SocketLibrary}
use nettprogg_vsc.Transport.Signaling.{SignalingClientMessage, is_before}
use nettprogg_vsc.Transport.Signaling.Opening.{
  Transport, change_found, change_peer, mark_open, attach_data_channel, new_peer, ensure_found,
  ensure_mesh_peer, close_found, close_mesh_peer,
}

module _ (rtc : Rtc) (ws : SocketLibrary SignalingClientMessage) where
  abbrev pub MeshKeyed : Transport rtc ws → Type 0
  MeshKeyed t = IsKeyed rtc t.mesh_peers

  change_found-IsKeyed :
      (o : Option (MeshPeer rtc)) (id : String) (f : MeshPeer rtc → MeshPeer rtc)
      (t : Transport rtc ws)
      → ((peer : MeshPeer rtc) → (f peer).client_id ≡ peer.client_id)
      → lookup id t.mesh_peers ≡ o
      → MeshKeyed t
      → MeshKeyed (change_found rtc ws o id f t)
  change_found-IsKeyed none id f t same e h = h
  change_found-IsKeyed (some peer) id f t same e h =
      insert-IsKeyed rtc id (f peer) t.mesh_peers
        (same peer ∙ found-client_id rtc id peer t.mesh_peers h e) h

  pub change_peer-IsKeyed :
      (id : String) (f : MeshPeer rtc → MeshPeer rtc) (t : Transport rtc ws)
      → ((peer : MeshPeer rtc) → (f peer).client_id ≡ peer.client_id)
      → MeshKeyed t
      → MeshKeyed (change_peer rtc ws id f t)
  unfolding change_peer
  change_peer-IsKeyed id f t same h =
      change_found-IsKeyed (lookup id t.mesh_peers) id f t same refl h

  pub mark_open-IsKeyed :
      (id : String) (t : Transport rtc ws) → MeshKeyed t → MeshKeyed (mark_open rtc ws id t)
  unfolding mark_open
  mark_open-IsKeyed id t h =
      let opened = change_peer rtc ws id (λ peer. record peer { channel_open = true }) t in
      let message = hello opened.options.client_id in
      let greeted = record opened {
        mesh_peers = (send_data_message rtc id message opened.mesh_peers).1;
      } in
      change_peer-IsKeyed id (flush_peer_queue rtc) greeted (flush_peer_queue-client_id rtc) (
        send_data_message-IsKeyed rtc id message opened.mesh_peers
          (change_peer-IsKeyed id _ t (λ peer. refl) h))

  pub attach_data_channel-IsKeyed :
      (id : String) (channel : rtc.Channel) (t : Transport rtc ws)
      → MeshKeyed t
      → MeshKeyed (attach_data_channel rtc ws id channel t)
  unfolding attach_data_channel
  attach_data_channel-IsKeyed id channel t h =
      let attached =
        change_peer rtc ws id (λ peer. record peer { data_channel = some channel }) t in
      let h' : MeshKeyed attached = change_peer-IsKeyed id _ t (λ peer. refl) h in
      elim (Bool-cases (rtc.is_open channel)) [
        | inl e ↦ rw e (mark_open-IsKeyed id attached h')
        | inr e ↦ rw e h'
      ]

  close_found-IsKeyed :
      (o : Option (MeshPeer rtc)) (id : String) (t : Transport rtc ws)
      → MeshKeyed t
      → MeshKeyed (close_found rtc ws o id t)
  close_found-IsKeyed none id t h = h
  close_found-IsKeyed (some peer) id t h = delete-IsKeyed rtc id t.mesh_peers h

  pub close_mesh_peer-IsKeyed :
      (id : String) (t : Transport rtc ws) → MeshKeyed t → MeshKeyed (close_mesh_peer rtc ws id t)
  unfolding close_mesh_peer
  close_mesh_peer-IsKeyed id t h = close_found-IsKeyed (lookup id t.mesh_peers) id t h

  ensure_found-IsKeyed :
      (compare : String → String → Ordering) (o : Option (MeshPeer rtc)) (info : PeerInfo)
      (t : Transport rtc ws)
      → MeshKeyed t
      → MeshKeyed (ensure_found rtc ws compare o info t)
  unfolding new_peer
  ensure_found-IsKeyed compare (some existing) info t h = h
  ensure_found-IsKeyed compare none info t h =
      let peer = new_peer rtc ws info t in
      let added = record t { mesh_peers = insert info.client_id peer t.mesh_peers } in
      let h' : MeshKeyed added = insert-IsKeyed rtc info.client_id peer t.mesh_peers refl h in
      elim (Bool-cases (is_before compare t.options.client_id info.client_id)) [
        | inl b ↦ rw b (
            attach_data_channel-IsKeyed info.client_id
              (rtc.create_data_channel peer.peer_connection "liveshare-lite") added h')
        | inr b ↦ rw b h'
      ]

  pub ensure_mesh_peer-IsKeyed :
      (compare : String → String → Ordering) (info : PeerInfo) (t : Transport rtc ws)
      → MeshKeyed t
      → MeshKeyed (ensure_mesh_peer rtc ws compare info t)
  unfolding ensure_mesh_peer
  ensure_mesh_peer-IsKeyed compare info t h =
      ensure_found-IsKeyed compare (lookup info.client_id t.mesh_peers) info t h
