-- ===== src/Transport/Signaling/Opening/Initiating.antt =====
-- src/transport/p2pMeshTransport.ts, `ensureMeshPeer`: which of two clients creates their channel.
use Prim.Native.Nat.{Ordering}
use nettprogg_vsc.Common.{
  String, Bool, true, false, not, Option, none, some, is_some, ◌≡◌, ◌≢◌, refl, sym, ap, ◌∙◌,
  Bool-cases, inl, inr,
}
use nettprogg_vsc.Common.Dict.{lookup, insert, lookup-insert_self}
use nettprogg_vsc.Transport.Interface.{PeerInfo}
use nettprogg_vsc.Transport.Peer.{MeshPeer}
use nettprogg_vsc.Transport.Rtc.{Rtc}
use nettprogg_vsc.Transport.Sockets.{SocketLibrary}
use nettprogg_vsc.Transport.Signaling.{SignalingClientMessage, is_before}
use nettprogg_vsc.Transport.Signaling.Opening.{
  Transport, change_peer, attach_data_channel, new_peer, ensure_mesh_peer,
}

-- What the program relies on: a channel is not open yet where it is created, and comparing two texts
-- the other way round gives the opposite.
pub record OpensLater (rtc : Rtc) : Type 0 where
  pub is_open-create :
      (connection : rtc.Connection) (label : String)
      → rtc.is_open (rtc.create_data_channel connection label) ≡ false

abbrev pub flip : Ordering → Ordering
flip Ordering.lt = Ordering.gt
flip Ordering.eq = Ordering.eq
flip Ordering.gt = Ordering.lt

pub record IsSymmetric (compare : String → String → Ordering) : Type 0 where
  pub flipped : (a b : String) → compare b a ≡ flip (compare a b)

before_cases :
    (o p : Ordering)
    → p ≡ flip o
    → o ≢ Ordering.eq
    → ◌≡◌ {A = Bool}
        (elim o [ Ordering.lt ↦ true | Ordering.eq ↦ false | Ordering.gt ↦ false ])
        (not (elim p [ Ordering.lt ↦ true | Ordering.eq ↦ false | Ordering.gt ↦ false ]))
before_cases Ordering.lt p e ne = rw e
before_cases Ordering.eq p e ne = absurd (ne refl)
before_cases Ordering.gt p e ne = rw e

module _ (rtc : Rtc) (ws : SocketLibrary SignalingClientMessage)
    (compare : String → String → Ordering) where
  abbrev with_channel : Option (MeshPeer rtc) → Bool
  with_channel none = false
  with_channel (some peer) = is_some peer.data_channel

  -- The peer of that name is in the mesh and has a channel.
  abbrev pub has_channel : String → Transport rtc ws → Bool
  has_channel id t = with_channel (lookup id t.mesh_peers)

  has_channel-attach :
      (id : String) (channel : rtc.Channel) (peer : MeshPeer rtc) (t : Transport rtc ws)
      → rtc.is_open channel ≡ false
      → lookup id t.mesh_peers ≡ some peer
      → has_channel id (attach_data_channel rtc ws id channel t) ≡ true
  unfolding attach_data_channel change_peer
  has_channel-attach id channel peer t shut there = rw (
    there,
    shut,
    lookup-insert_self id (record peer { data_channel = some channel }) t.mesh_peers,
  )

  has_channel-ensure :
      (law : OpensLater rtc) (info : PeerInfo) (t : Transport rtc ws)
      → lookup info.client_id t.mesh_peers ≡ none
      → has_channel info.client_id (ensure_mesh_peer rtc ws compare info t)
        ≡ is_before compare t.options.client_id info.client_id
  unfolding ensure_mesh_peer new_peer
  has_channel-ensure law info t absent =
      let peer = new_peer rtc ws info t in
      let added = record t { mesh_peers = insert info.client_id peer t.mesh_peers } in
      let there : lookup info.client_id added.mesh_peers ≡ some peer =
        lookup-insert_self info.client_id peer t.mesh_peers in
      elim (Bool-cases (is_before compare t.options.client_id info.client_id)) [
        | inl b ↦
            rw (absent, b)
              (has_channel-attach info.client_id
                (rtc.create_data_channel peer.peer_connection "liveshare-lite") peer added
                (law.is_open-create peer.peer_connection "liveshare-lite") there)
        | inr b ↦ rw (absent, b) (ap with_channel there)
      ]

module _ (rtc : Rtc) (ws : SocketLibrary SignalingClientMessage) where
  -- Of two clients that learn of each other, each with a comparison of names of its own, exactly one
  -- creates the channel between them, if the two comparisons agree on their names and do not
  -- hold them for equal.
  pub has_channel-ensure_mesh_peer :
      (compare_a compare_b : String → String → Ordering) (later : OpensLater rtc)
      (symmetric : IsSymmetric compare_a) (at_a at_b : PeerInfo) (a b : Transport rtc ws)
      → a.options.client_id ≡ at_a.client_id
      → b.options.client_id ≡ at_b.client_id
      → lookup at_b.client_id a.mesh_peers ≡ none
      → lookup at_a.client_id b.mesh_peers ≡ none
      → compare_a at_a.client_id at_b.client_id ≢ Ordering.eq
      → compare_b at_b.client_id at_a.client_id ≡ compare_a at_b.client_id at_a.client_id
      → has_channel rtc ws compare_a at_b.client_id (ensure_mesh_peer rtc ws compare_a at_b a)
        ≡ not
            (has_channel rtc ws compare_b at_a.client_id (ensure_mesh_peer rtc ws compare_b at_a b))
  has_channel-ensure_mesh_peer compare_a compare_b later symmetric at_a at_b a b named_a named_b
        new_a new_b ne agreed =
      has_channel-ensure rtc ws compare_a later at_b a new_a
      ∙ ap (λ own. is_before compare_a own at_b.client_id) named_a
      ∙ before_cases (compare_a at_a.client_id at_b.client_id)
          (compare_b at_b.client_id at_a.client_id)
          (agreed ∙ symmetric.flipped at_a.client_id at_b.client_id) ne
      ∙ ap not (
          sym (
            has_channel-ensure rtc ws compare_b later at_a b new_b
            ∙ ap (λ own. is_before compare_b own at_a.client_id) named_b))
