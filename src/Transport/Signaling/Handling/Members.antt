-- ===== src/Transport/Signaling/Handling/Members.antt =====
-- src/transport/p2pMeshTransport.ts, `handleSignalingMessage`: which peers the mesh has afterwards.
use Prim.Native.Nat.{Ordering}
use nettprogg_vsc.Common.{
  ℕ, String, [], Bool, false, not, ◌&&◌, ◌||◌, some, is_some, str_eq, ◌≡◌, refl, sym, ap, ◌∙◌,
  subst, Option-cases, inl, inr, arith,
}
use nettprogg_vsc.Common.Dict.{Dict, lookup, insert}
use nettprogg_vsc.Transport.Interface.{PeerInfo}
use nettprogg_vsc.Transport.Mesh.Broadcast.{occurs}
use nettprogg_vsc.Transport.Peer.{MeshPeer}
use nettprogg_vsc.Transport.Rtc.{Rtc}
use nettprogg_vsc.Transport.Signals.{Signal}
use nettprogg_vsc.Transport.Sockets.{SocketLibrary}
use nettprogg_vsc.Transport.Signaling.{
  SignalingClientMessage, SignalingServerMessage, joined, peer_joined, peer_left, error,
}
use nettprogg_vsc.Transport.Signaling.Opening.{Transport, ensure_mesh_peer}
use nettprogg_vsc.Transport.Signaling.Opening.Framing.{
  has, ensure_mesh_peer-Opens, lookup-close_mesh_peer, close_mesh_peer-room,
}
use nettprogg_vsc.Transport.Signaling.Handling.{
  existing_peer_ids, peer_info, replace_room_peers, ensure_all, apply_to_peer,
  handle_signaling_message,
}
use nettprogg_vsc.Transport.Signaling.Handling.Growing.{
  IsNamed, listed, insert-IsNamed, room_of-IsNamed, is_some-room_of, occurs-existing_peer_ids,
  Grows, ensure_all-Grows, apply_found-Grows,
}

module _ (rtc : Rtc) (ws : SocketLibrary SignalingClientMessage)
    (compare : String → String → Ordering) (thrown : String) where
  -- Which peers the mesh has after a message
  abbrev pub expected : SignalingServerMessage → String → Transport rtc ws → Bool
  expected (error text) k t = has rtc ws k t
  expected (joined room_id client_id infos) k t =
      has rtc ws k t || (listed k infos && not (str_eq k t.options.client_id))
  expected (peer_joined room_id info infos) k t = has rtc ws k t || str_eq info.client_id k
  expected (peer_left room_id id infos) k t = has rtc ws k t && not (str_eq id k)
  expected (SignalingServerMessage.signal room_id id target payload) k t =
      has rtc ws k t || str_eq id k

  -- The message closes or changes the peer of that name.
  abbrev pub touches : SignalingServerMessage → String → Bool
  touches (peer_left room_id id infos) k = str_eq id k
  touches (SignalingServerMessage.signal room_id id target payload) k = str_eq id k
  touches _ k = false

  pub record Follows (message : SignalingServerMessage) (t u : Transport rtc ws) : Type 0 where
    pub named : IsNamed u.room_peers
    pub member : (k : String) → has rtc ws k u ≡ expected message k t
    pub kept :
        (k : String) (peer : MeshPeer rtc)
        → touches message k ≡ false
        → lookup k t.mesh_peers ≡ some peer
        → lookup k u.mesh_peers ≡ some peer

  no_room : IsNamed []
  no_room k info there = absurd (cc)

  IsNamed-peer_info :
      (now : ℕ) (id : String) (room : Dict PeerInfo)
      → IsNamed room
      → (peer_info now id room).client_id ≡ id
  IsNamed-peer_info now id room h = elim (Option-cases (lookup id room)) [
    | inl e ↦ rw e
    | inr (info, e) ↦ rw e (h id info e)
  ]

  follow_signal :
      (room_id id target : String) (payload : Signal) (info : PeerInfo) (t : Transport rtc ws)
      → info.client_id ≡ id
      → IsNamed t.room_peers
      → Follows (SignalingServerMessage.signal room_id id target payload) t (
          apply_to_peer rtc ws compare thrown info.client_id payload (
            ensure_mesh_peer rtc ws compare info
              (record t { room_peers = insert id info t.room_peers })))
  unfolding apply_to_peer
  follow_signal room_id id target payload info t e h =
      let known = record t { room_peers = insert id info t.room_peers } in
      let ensured = ensure_mesh_peer rtc ws compare info known in
      let g = ensure_mesh_peer-Opens rtc ws compare info known in
      let (others, member, room) =
        apply_found-Grows rtc ws compare thrown (lookup info.client_id ensured.mesh_peers)
          info.client_id payload ensured refl in
      record {
        named = subst IsNamed (sym (room ∙ g.room_same)) (insert-IsNamed id info t.room_peers e h);
        member = λ k. member k ∙ g.member k ∙ rw e;
        kept = λ k peer un there. others k (rw e un) ∙ g.kept k peer there;
      }

  -- After a signaling message the mesh has just the peers that it should: after `joined` those that
  -- it had and every other client that is listed, after `peerJoined` and `signal` also the client
  -- named, after `peerLeft` all but the one named, and after `error` those that it had. A peer that
  -- was there is as before, but for the one that leaves or gets a signal.
  pub handle_signaling_message-Follows :
      (now : ℕ) (message : SignalingServerMessage) (t : Transport rtc ws)
      → IsNamed t.room_peers
      → Follows message t (handle_signaling_message rtc ws compare thrown now message t)
  unfolding handle_signaling_message replace_room_peers apply_to_peer
  handle_signaling_message-Follows now (error text) t h = record {
    named = h;
    member = λ k. refl;
    kept = λ k peer un there. there;
  }
  handle_signaling_message-Follows now (joined room_id client_id infos) t h =
      let room = replace_room_peers rtc ws compare thrown infos t in
      let ids = existing_peer_ids compare t.options.client_id infos in
      let fresh = room_of-IsNamed infos [] no_room in
      let g : Grows rtc ws compare thrown (λ k. occurs k ids && is_some (lookup k room.room_peers))
          room (ensure_all rtc ws compare thrown ids room) =
        ensure_all-Grows rtc ws compare thrown ids room fresh in
      record {
        named = subst IsNamed (sym g.room_same) fresh;
        member = λ k.
            g.member k
            ∙ ground (
              arith,
              occurs-existing_peer_ids compare k t.options.client_id infos,
              is_some-room_of k infos [],
            );
        kept = λ k peer un there. g.kept k peer there;
      }
  handle_signaling_message-Follows now (peer_joined room_id info infos) t h =
      let g =
        ensure_mesh_peer-Opens rtc ws compare info
          (replace_room_peers rtc ws compare thrown infos t) in
      record {
        named = subst IsNamed (sym g.room_same) (room_of-IsNamed infos [] no_room);
        member = g.member;
        kept = λ k peer un there. g.kept k peer there;
      }
  handle_signaling_message-Follows now (peer_left room_id id infos) t h =
      let room = replace_room_peers rtc ws compare thrown infos t in
      let law = λ (k : String). lookup-close_mesh_peer rtc ws id k room in
      record {
        named =
            subst IsNamed (sym (close_mesh_peer-room rtc ws id room))
              (room_of-IsNamed infos [] no_room);
        member = λ k. ap is_some (law k) ∙ ground arith;
        kept = λ k peer un there. law k ∙ rw un there;
      }
  handle_signaling_message-Follows now (SignalingServerMessage.signal room_id id target payload) t
        h =
      follow_signal room_id id target payload (peer_info now id t.room_peers) t
        (IsNamed-peer_info now id t.room_peers h) h
