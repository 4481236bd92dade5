-- ===== src/Transport/Signaling/Handling/Growing.antt =====
-- src/transport/p2pMeshTransport.ts, `handleSignalingMessage`: the room, and the loop that opens peers.
use Prim.Native.Nat.{Ordering}
use nettprogg_vsc.Common.{
  String, List, [], ◌∷◌, Bool, false, not, ◌&&◌, ◌||◌, Option, none, some, is_some, str_eq, eq_iff,
  ◌≡◌, refl, sym, ◌∙◌, subst, Bool-cases, inl, inr, arith, map, filter,
}
use nettprogg_vsc.Common.Dict.{Dict, lookup, insert, lookup-insert}
use nettprogg_vsc.Transport.Interface.{PeerInfo}
use nettprogg_vsc.Transport.Mesh.Broadcast.{occurs, occurs-sort}
use nettprogg_vsc.Transport.Peer.{MeshPeer}
use nettprogg_vsc.Transport.Rtc.{Rtc}
use nettprogg_vsc.Transport.Signals.{Signal, apply_signal}
use nettprogg_vsc.Transport.Sockets.{SocketLibrary}
use nettprogg_vsc.Transport.Signaling.{SignalingClientMessage, is_after}
use nettprogg_vsc.Transport.Signaling.Opening.{Transport}
use nettprogg_vsc.Transport.Signaling.Opening.Framing.{has, ensure_mesh_peer-Opens}
use nettprogg_vsc.Transport.Signaling.Handling.{
  room_of, existing_peer_ids, ensure_known, ensure_all, apply_found,
}

-- Every peer of a room stands under its own name.
abbrev pub IsNamed : Dict PeerInfo → Type 0
IsNamed room = (k : String) (info : PeerInfo) → lookup k room ≡ some info → info.client_id ≡ k

-- `peers.some((peer) => peer.clientId === k)`
abbrev pub listed : String → List PeerInfo → Bool
listed k infos = occurs k (map (λ p. p.client_id) infos)

pub insert-IsNamed :
    (id : String) (info : PeerInfo) (room : Dict PeerInfo)
    → info.client_id ≡ id
    → IsNamed room
    → IsNamed (insert id info room)
insert-IsNamed id info room e h k found there =
    ground (arith, lookup-insert id k info room, eq_iff id k, h k found)

pub room_of-IsNamed :
    (infos : List PeerInfo) (room : Dict PeerInfo) → IsNamed room → IsNamed (room_of infos room)
unfolding room_of
room_of-IsNamed [] room h = h
room_of-IsNamed (info ∷ infos) room h =
    room_of-IsNamed infos (insert info.client_id info room)
      (insert-IsNamed info.client_id info room refl h)

pub is_some-room_of :
    (k : String) (infos : List PeerInfo) (room : Dict PeerInfo)
    → is_some (lookup k (room_of infos room)) ≡ (is_some (lookup k room) || listed k infos)
unfolding room_of
is_some-room_of k [] room = ground arith
is_some-room_of k (info ∷ infos) room =
    is_some-room_of k infos (insert info.client_id info room)
    ∙ ground (arith, lookup-insert info.client_id k info room)

occurs-filter :
    (k own : String) (ids : List String)
    → occurs k (filter (λ id. not (str_eq id own)) ids) ≡ (occurs k ids && not (str_eq k own))
occurs-filter k own [] = refl
occurs-filter k own (id ∷ ids) =
    ground (arith, eq_iff id k, eq_iff id own, eq_iff k own, occurs-filter k own ids)

pub occurs-existing_peer_ids :
    (compare : String → String → Ordering) (k own : String) (infos : List PeerInfo)
    → occurs k (existing_peer_ids compare own infos) ≡ (listed k infos && not (str_eq k own))
unfolding existing_peer_ids
occurs-existing_peer_ids compare k own infos =
    occurs-sort (is_after compare) k
      (filter (λ id. not (str_eq id own)) (map (λ p. p.client_id) infos))
    ∙ occurs-filter k own (map (λ p. p.client_id) infos)

module _ (rtc : Rtc) (ws : SocketLibrary SignalingClientMessage)
    (compare : String → String → Ordering) (thrown : String) where
  -- What a run of `ensureMeshPeer` calls gives: no peer that there was is changed.
  pub record Grows (added : String → Bool) (t u : Transport rtc ws) : Type 0 where
    pub kept :
        (k : String) (peer : MeshPeer rtc)
        → lookup k t.mesh_peers ≡ some peer
        → lookup k u.mesh_peers ≡ some peer
    pub member : (k : String) → has rtc ws k u ≡ (has rtc ws k t || added k)
    pub room_same : u.room_peers ≡ t.room_peers

  ensure_known-Grows :
      (o : Option PeerInfo) (id : String) (t : Transport rtc ws)
      → lookup id t.room_peers ≡ o
      → IsNamed t.room_peers
      → Grows (λ k. is_some o && str_eq id k) t (ensure_known rtc ws compare thrown o t)
  ensure_known-Grows none id t e h = record {
    kept = λ k peer there. there;
    member = λ k. ground arith;
    room_same = refl;
  }
  ensure_known-Grows (some info) id t e h =
      let o = ensure_mesh_peer-Opens rtc ws compare info t in
      record { kept = o.kept; member = λ k. o.member k ∙ rw (h id info e); room_same = o.room_same }

  pub ensure_all-Grows :
      (ids : List String) (t : Transport rtc ws)
      → IsNamed t.room_peers
      → Grows
          (λ k. occurs k ids && is_some (lookup k t.room_peers))
          t
          (ensure_all rtc ws compare thrown ids t)
  unfolding ensure_all
  ensure_all-Grows [] t h = record {
    kept = λ k peer there. there;
    member = λ k. ground arith;
    room_same = refl;
  }
  ensure_all-Grows (id ∷ ids) t h =
      let next = ensure_known rtc ws compare thrown (lookup id t.room_peers) t in
      let first = ensure_known-Grows (lookup id t.room_peers) id t refl h in
      let same = first.room_same in
      let rest : Grows (λ k. occurs k ids && is_some (lookup k next.room_peers)) next
          (ensure_all rtc ws compare thrown ids next) =
        ensure_all-Grows ids next (subst IsNamed (sym same) h) in
      record {
        kept = λ k peer there. rest.kept k peer (first.kept k peer there);
        member = λ k. rest.member k ∙ ground (arith, first.member k, same, eq_iff id k);
        room_same = rest.room_same ∙ same;
      }

  pub apply_found-Grows :
      (o : Option (MeshPeer rtc)) (id : String) (payload : Signal) (t : Transport rtc ws)
      → lookup id t.mesh_peers ≡ o
      → let u = apply_found rtc ws compare thrown o id payload t in
        ((k : String) → str_eq id k ≡ false → lookup k u.mesh_peers ≡ lookup k t.mesh_peers)
        × ((k : String) → has rtc ws k u ≡ has rtc ws k t)
        × (u.room_peers ≡ t.room_peers)
  apply_found-Grows none id payload t e = (λ k ne. refl, λ k. refl, refl)
  apply_found-Grows (some peer) id payload t e =
      let r = apply_signal rtc payload peer in
      let law = λ (k : String). lookup-insert id k r.1 t.mesh_peers in
      elim (Bool-cases r.0) [
        | inl fine ↦ rw fine (λ k ne. law k ∙ rw ne, λ k. ground (arith, law k, eq_iff id k), refl)
        | inr failed ↦
            rw failed (λ k ne. law k ∙ rw ne, λ k. ground (arith, law k, eq_iff id k), refl)
      ]
