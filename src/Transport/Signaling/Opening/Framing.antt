-- ===== src/Transport/Signaling/Opening/Framing.antt =====
-- src/transport/p2pMeshTransport.ts: what opening a peer leaves alone.
use Prim.Native.Nat.{Ordering}
use nettprogg_vsc.Common.{
  String, Bool, true, false, ◌||◌, Option, none, some, is_some, if◌then◌else◌, str_eq, eq_iff, ◌≡◌,
  refl, ap, ◌∙◌, Bool-cases, inl, inr, arith,
}
use nettprogg_vsc.Common.Dict.{lookup, insert, lookup-insert, lookup-delete}
use nettprogg_vsc.Transport.DataMessages.{P2PDataMessage, hello}
use nettprogg_vsc.Transport.Interface.{PeerInfo}
use nettprogg_vsc.Transport.Mesh.{send_data_message}
use nettprogg_vsc.Transport.Mesh.Broadcast.{told, send_data_message_lem}
use nettprogg_vsc.Transport.Peer.{MeshPeer, flush_peer_queue}
use nettprogg_vsc.Transport.Rtc.{Rtc}
use nettprogg_vsc.Transport.Sockets.{SocketLibrary}
use nettprogg_vsc.Transport.Signaling.{SignalingClientMessage, is_before}
use nettprogg_vsc.Transport.Signaling.Opening.{
  Transport, change_found, change_peer, mark_open, attach_data_channel, new_peer, ensure_found,
  ensure_mesh_peer, close_found, close_mesh_peer,
}

module _ (rtc : Rtc) (ws : SocketLibrary SignalingClientMessage) where
  -- The mesh has a peer of that name.
  abbrev pub has : String → Transport rtc ws → Bool
  has k t = is_some (lookup k t.mesh_peers)

  -- The options and the room are as before, and so is the mesh but for what the peer with the id is.
  pub record Frame (id : String) (t u : Transport rtc ws) : Type 0 where
    pub options_same : u.options ≡ t.options
    pub room_same : u.room_peers ≡ t.room_peers
    pub others : (k : String) → str_eq id k ≡ false → lookup k u.mesh_peers ≡ lookup k t.mesh_peers
    pub member : (k : String) → has k u ≡ has k t

  Frame-trans :
      (id : String) (t u v : Transport rtc ws) → Frame id t u → Frame id u v → Frame id t v
  Frame-trans id t u v g h = record {
    options_same = h.options_same ∙ g.options_same;
    room_same = h.room_same ∙ g.room_same;
    others = λ k e. h.others k e ∙ g.others k e;
    member = λ k. h.member k ∙ g.member k;
  }

  change_found-member :
      (o : Option (MeshPeer rtc)) (id k : String) (f : MeshPeer rtc → MeshPeer rtc)
      (t : Transport rtc ws)
      → lookup id t.mesh_peers ≡ o
      → has k (change_found rtc ws o id f t) ≡ has k t
  change_found-member none id k f t e = refl
  change_found-member (some peer) id k f t e =
      ground (arith, lookup-insert id k (f peer) t.mesh_peers, eq_iff id k)

  change_found-Frame :
      (o : Option (MeshPeer rtc)) (id : String) (f : MeshPeer rtc → MeshPeer rtc)
      (t : Transport rtc ws)
      → lookup id t.mesh_peers ≡ o
      → Frame id t (change_found rtc ws o id f t)
  change_found-Frame none id f t e = record {
    options_same = refl;
    room_same = refl;
    others = λ k ne. refl;
    member = λ k. refl;
  }
  change_found-Frame (some peer) id f t e = record {
    options_same = refl;
    room_same = refl;
    others = λ k ne. lookup-insert id k (f peer) t.mesh_peers ∙ rw ne;
    member = λ k. change_found-member (some peer) id k f t e;
  }

  pub change_peer-Frame :
      (id : String) (f : MeshPeer rtc → MeshPeer rtc) (t : Transport rtc ws)
      → Frame id t (change_peer rtc ws id f t)
  unfolding change_peer
  change_peer-Frame id f t = change_found-Frame (lookup id t.mesh_peers) id f t refl

  is_some-told :
      (message : P2PDataMessage) (o : Option (MeshPeer rtc))
      → is_some (told rtc message o) ≡ is_some o
  is_some-told message none = refl
  is_some-told message (some peer) = refl

  greet : String → P2PDataMessage → Transport rtc ws → Transport rtc ws
  greet id message t = record t { mesh_peers = (send_data_message rtc id message t.mesh_peers).1 }

  greet-Frame :
      (id : String) (message : P2PDataMessage) (t : Transport rtc ws)
      → Frame id t (greet id message t)
  unfolding greet
  greet-Frame id message t = record {
    options_same = refl;
    room_same = refl;
    others = λ k ne. send_data_message_lem rtc message id k t.mesh_peers ∙ rw ne;
    member = λ k.
        ap is_some (send_data_message_lem rtc message id k t.mesh_peers)
        ∙ ground (arith, is_some-told message (lookup k t.mesh_peers));
  }

  pub mark_open-Frame : (id : String) (t : Transport rtc ws) → Frame id t (mark_open rtc ws id t)
  unfolding mark_open greet
  mark_open-Frame id t =
      let opened = change_peer rtc ws id (λ peer. record peer { channel_open = true }) t in
      let greeted = greet id (hello opened.options.client_id) opened in
      let flushed = change_peer rtc ws id (flush_peer_queue rtc) greeted in
      let h = Frame-trans id t opened flushed (change_peer-Frame id _ t) (
        Frame-trans id opened greeted flushed (greet-Frame id _ opened)
          (change_peer-Frame id _ greeted)) in
      record {
        options_same = h.options_same;
        room_same = h.room_same;
        others = h.others;
        member = h.member;
      }

  pub attach_data_channel-Frame :
      (id : String) (channel : rtc.Channel) (t : Transport rtc ws)
      → Frame id t (attach_data_channel rtc ws id channel t)
  unfolding attach_data_channel
  attach_data_channel-Frame id channel t =
      let attached =
        change_peer rtc ws id (λ peer. record peer { data_channel = some channel }) t in
      let h : Frame id t attached = change_peer-Frame id _ t in
      elim (Bool-cases (rtc.is_open channel)) [
        | inl e ↦ rw e (Frame-trans id t attached _ h (mark_open-Frame id attached))
        | inr e ↦ rw e h
      ]

  -- What a call that opens a peer gives: no peer that there was is changed, and the peer is there.
  pub record Opens (id : String) (t u : Transport rtc ws) : Type 0 where
    pub options_same : u.options ≡ t.options
    pub room_same : u.room_peers ≡ t.room_peers
    pub kept :
        (k : String) (peer : MeshPeer rtc)
        → lookup k t.mesh_peers ≡ some peer
        → lookup k u.mesh_peers ≡ some peer
    pub member : (k : String) → has k u ≡ (has k t || str_eq id k)

  Opens-Frame :
      (id : String) (t u v : Transport rtc ws)
      → Opens id t u
      → Frame id u v
      → lookup id t.mesh_peers ≡ none
      → Opens id t v
  Opens-Frame id t u v g h absent = record {
    options_same = h.options_same ∙ g.options_same;
    room_same = h.room_same ∙ g.room_same;
    kept = λ k peer e. elim (Bool-cases (str_eq id k)) [
      | inl same ↦ absurd (ground (arith, absent, e, (eq_iff id k).0 same))
      | inr other ↦ h.others k other ∙ g.kept k peer e
    ];
    member = λ k. h.member k ∙ g.member k;
  }

  add_peer : PeerInfo → Transport rtc ws → Transport rtc ws
  add_peer info t = record t {
    mesh_peers = insert info.client_id (new_peer rtc ws info t) t.mesh_peers;
  }

  add_peer-Opens :
      (info : PeerInfo) (t : Transport rtc ws)
      → lookup info.client_id t.mesh_peers ≡ none
      → Opens info.client_id t (add_peer info t)
  unfolding add_peer
  add_peer-Opens info t absent =
      let law =
        λ (k : String). lookup-insert info.client_id k (new_peer rtc ws info t) t.mesh_peers in
      record {
        options_same = refl;
        room_same = refl;
        kept = λ k peer e. ground (arith, law k, eq_iff info.client_id k, absent, e);
        member = λ k. ground (arith, law k, eq_iff info.client_id k, absent);
      }

  ensure_found-Opens :
      (compare : String → String → Ordering) (o : Option (MeshPeer rtc)) (info : PeerInfo)
      (t : Transport rtc ws)
      → lookup info.client_id t.mesh_peers ≡ o
      → Opens info.client_id t (ensure_found rtc ws compare o info t)
  unfolding add_peer
  ensure_found-Opens compare (some existing) info t e = record {
    options_same = refl;
    room_same = refl;
    kept = λ k peer there. there;
    member = λ k. ground (arith, e, eq_iff info.client_id k);
  }
  ensure_found-Opens compare none info t e =
      let peer = new_peer rtc ws info t in
      let added = add_peer info t in
      let h : Opens info.client_id t added = add_peer-Opens info t e in
      elim (Bool-cases (is_before compare t.options.client_id info.client_id)) [
        | inl b ↦ rw b (
            Opens-Frame info.client_id t added _ h
              (attach_data_channel-Frame info.client_id
                (rtc.create_data_channel peer.peer_connection "liveshare-lite") added)
              e)
        | inr b ↦ rw b h
      ]

  pub ensure_mesh_peer-Opens :
      (compare : String → String → Ordering) (info : PeerInfo) (t : Transport rtc ws)
      → Opens info.client_id t (ensure_mesh_peer rtc ws compare info t)
  unfolding ensure_mesh_peer
  ensure_mesh_peer-Opens compare info t =
      ensure_found-Opens compare (lookup info.client_id t.mesh_peers) info t refl

  lookup-close_found :
      (o : Option (MeshPeer rtc)) (id k : String) (t : Transport rtc ws)
      → lookup id t.mesh_peers ≡ o
      → lookup k (close_found rtc ws o id t).mesh_peers
        ≡ (if str_eq id k then none else lookup k t.mesh_peers)
  lookup-close_found none id k t e = ground (arith, eq_iff id k, e)
  lookup-close_found (some peer) id k t e = lookup-delete id k t.mesh_peers

  pub lookup-close_mesh_peer :
      (id k : String) (t : Transport rtc ws)
      → lookup k (close_mesh_peer rtc ws id t).mesh_peers
        ≡ (if str_eq id k then none else lookup k t.mesh_peers)
  unfolding close_mesh_peer
  lookup-close_mesh_peer id k t = lookup-close_found (lookup id t.mesh_peers) id k t refl

  close_found-room :
      (o : Option (MeshPeer rtc)) (id : String) (t : Transport rtc ws)
      → (close_found rtc ws o id t).room_peers ≡ t.room_peers
  close_found-room none id t = refl
  close_found-room (some peer) id t = refl

  pub close_mesh_peer-room :
      (id : String) (t : Transport rtc ws) → (close_mesh_peer rtc ws id t).room_peers ≡ t.room_peers
  unfolding close_mesh_peer
  close_mesh_peer-room id t = close_found-room (lookup id t.mesh_peers) id t
