-- ===== src/Transport/Mesh/Keys.antt =====
-- src/transport/p2pMeshTransport.ts: the map `meshPeers` has every peer once, under its own name.
use nettprogg_vsc.Common.{
  String, List, [], ◌∷◌, Bool, false, ◌||◌, Option, none, some, str_eq, eq_iff, ◌≡◌, refl, sym, ◌∙◌,
  arith, All, Bool-cases, inl, inr,
}
use nettprogg_vsc.Common.Dict.{lookup, insert, delete, keys}
use nettprogg_vsc.Crdt.{CrdtOperation}
use nettprogg_vsc.Transport.Rtc.{Rtc}
use nettprogg_vsc.Transport.DataMessages.{P2PDataMessage, snapshot_request, operation}
use nettprogg_vsc.Common.Sort.{sort}
use nettprogg_vsc.Transport.Peer.Naming.{send_to_peer-client_id}
use nettprogg_vsc.Transport.Peer.{MeshPeer, send_to_peer}
use nettprogg_vsc.Transport.Mesh.{
  Peers, is_excepted, send_found, send_data_message, broadcast_loop, broadcast_data_message,
  send_operation, ask_first, request_snapshot, connected_peer_ids,
}
use nettprogg_vsc.Transport.Mesh.Broadcast.{occurs, AllOnce}

module _ (rtc : Rtc) where
  -- Every peer once, under its own name
  pub record IsKeyed (peers : Peers rtc) : Type 0 where
    pub once : AllOnce (keys peers)
    pub named : All (λ e. e.1.client_id ≡ e.0) peers

  occurs-insert :
      (a k : String) (peer : MeshPeer rtc) (peers : Peers rtc)
      → occurs a (keys (insert k peer peers)) ≡ (occurs a (keys peers) || str_eq k a)
  occurs-insert a k peer [] = ground arith
  occurs-insert a k peer ((j, q) ∷ peers) =
      ground (arith, eq_iff j k, eq_iff j a, eq_iff k a, occurs-insert a k peer peers)

  occurs-delete :
      (a k : String) (peers : Peers rtc)
      → occurs a (keys peers) ≡ false
      → occurs a (keys (delete k peers)) ≡ false
  occurs-delete a k [] e = refl
  occurs-delete a k ((j, q) ∷ peers) e = ground (arith, occurs-delete a k peers)

  AllOnce-insert :
      (k : String) (peer : MeshPeer rtc) (peers : Peers rtc)
      → AllOnce (keys peers)
      → AllOnce (keys (insert k peer peers))
  AllOnce-insert k peer [] h = (refl, tt)
  AllOnce-insert k peer ((j, q) ∷ peers) (e, h) = elim (Bool-cases (str_eq j k)) [
    | inl same ↦ rw same (e, h)
    | inr other ↦ rw other (
      occurs-insert j k peer peers ∙ ground (arith, eq_iff j k, eq_iff k j),
      AllOnce-insert k peer peers h,
    )
  ]

  AllOnce-delete :
      (k : String) (peers : Peers rtc) → AllOnce (keys peers) → AllOnce (keys (delete k peers))
  AllOnce-delete k [] h = tt
  AllOnce-delete k ((j, q) ∷ peers) (e, h) = elim (Bool-cases (str_eq j k)) [
    | inl same ↦ rw same (AllOnce-delete k peers h)
    | inr other ↦ rw other (occurs-delete j k peers e, AllOnce-delete k peers h)
  ]

  abbrev AllNamed : Peers rtc → Type 0
  AllNamed peers = All (λ e. e.1.client_id ≡ e.0) peers

  AllNamed-insert :
      (k : String) (peer : MeshPeer rtc) (peers : Peers rtc)
      → peer.client_id ≡ k
      → AllNamed peers
      → AllNamed (insert k peer peers)
  AllNamed-insert k peer [] e h = (e, tt)
  AllNamed-insert k peer ((j, q) ∷ peers) e (f, h) = elim (Bool-cases (str_eq j k)) [
    | inl same ↦ rw same (e ∙ sym ((eq_iff j k).0 same), h)
    | inr other ↦ rw other (f, AllNamed-insert k peer peers e h)
  ]

  AllNamed-delete : (k : String) (peers : Peers rtc) → AllNamed peers → AllNamed (delete k peers)
  AllNamed-delete k [] h = tt
  AllNamed-delete k ((j, q) ∷ peers) (f, h) = elim (Bool-cases (str_eq j k)) [
    | inl same ↦ rw same (AllNamed-delete k peers h)
    | inr other ↦ rw other (f, AllNamed-delete k peers h)
  ]

  pub insert-IsKeyed :
      (k : String) (peer : MeshPeer rtc) (peers : Peers rtc)
      → peer.client_id ≡ k
      → IsKeyed peers
      → IsKeyed (insert k peer peers)
  insert-IsKeyed k peer peers e h = record {
    once = AllOnce-insert k peer peers h.once;
    named = AllNamed-insert k peer peers e h.named;
  }

  pub delete-IsKeyed : (k : String) (peers : Peers rtc) → IsKeyed peers → IsKeyed (delete k peers)
  delete-IsKeyed k peers h = record {
    once = AllOnce-delete k peers h.once;
    named = AllNamed-delete k peers h.named;
  }

  found_name :
      (k : String) (peer : MeshPeer rtc) (peers : Peers rtc)
      → AllNamed peers
      → lookup k peers ≡ some peer
      → peer.client_id ≡ k
  found_name k peer [] h e = absurd (cc)
  found_name k peer ((j, q) ∷ peers) (f, h) e =
      ground (arith, eq_iff j k, found_name k peer peers h)

  pub found-client_id :
      (k : String) (peer : MeshPeer rtc) (peers : Peers rtc)
      → IsKeyed peers
      → lookup k peers ≡ some peer
      → peer.client_id ≡ k
  found-client_id k peer peers h e = found_name k peer peers h.named e

  send_found-IsKeyed :
      (o : Option (MeshPeer rtc)) (id : String) (message : P2PDataMessage) (peers : Peers rtc)
      → lookup id peers ≡ o
      → IsKeyed peers
      → IsKeyed (send_found rtc o id message peers).1
  send_found-IsKeyed none id message peers e h = h
  send_found-IsKeyed (some peer) id message peers e h =
      insert-IsKeyed id (send_to_peer rtc peer message).1 peers
        (send_to_peer-client_id rtc peer message ∙ found-client_id id peer peers h e) h

  pub send_data_message-IsKeyed :
      (id : String) (message : P2PDataMessage) (peers : Peers rtc)
      → IsKeyed peers
      → IsKeyed (send_data_message rtc id message peers).1
  unfolding send_data_message
  send_data_message-IsKeyed id message peers h =
      send_found-IsKeyed (lookup id peers) id message peers refl h

  broadcast_loop-IsKeyed :
      (ids : List String) (message : P2PDataMessage) (except : Option String) (sent : Bool)
      (peers : Peers rtc)
      → IsKeyed peers
      → IsKeyed (broadcast_loop rtc ids message except sent peers).1
  unfolding broadcast_loop
  broadcast_loop-IsKeyed [] message except sent peers h = h
  broadcast_loop-IsKeyed (id ∷ ids) message except sent peers h =
      let r = send_data_message rtc id message peers in
      elim (Bool-cases (is_excepted except id)) [
        | inl e ↦ rw e (broadcast_loop-IsKeyed ids message except sent peers h)
        | inr e ↦ rw e (
            broadcast_loop-IsKeyed ids message except (r.0 || sent) r.1
              (send_data_message-IsKeyed id message peers h))
      ]

  module _ (after : String → String → Bool) where
    pub send_operation-IsKeyed :
        (client_id : String) (op : CrdtOperation) (except : Option String) (peers : Peers rtc)
        → IsKeyed peers
        → IsKeyed (send_operation rtc after client_id op except peers).1
    unfolding send_operation broadcast_data_message
    send_operation-IsKeyed client_id op except peers h =
        broadcast_loop-IsKeyed (sort after (keys peers)) (operation client_id op) except false peers
          h

    ask_first-IsKeyed :
        (ids : List String) (message : P2PDataMessage) (peers : Peers rtc)
        → IsKeyed peers
        → IsKeyed (ask_first rtc after ids message peers).1
    ask_first-IsKeyed [] message peers h = h
    ask_first-IsKeyed (id ∷ ids) message peers h = send_data_message-IsKeyed id message peers h

    pub request_snapshot-IsKeyed :
        (client_id : String) (provider : Option String) (peers : Peers rtc)
        → IsKeyed peers
        → IsKeyed (request_snapshot rtc after client_id provider peers).1
    unfolding request_snapshot
    request_snapshot-IsKeyed client_id none peers h =
        ask_first-IsKeyed (connected_peer_ids rtc after peers) (snapshot_request client_id) peers h
    request_snapshot-IsKeyed client_id (some id) peers h = elim (Bool-cases (str_eq id "")) [
      | inl e ↦ rw e (
          ask_first-IsKeyed (connected_peer_ids rtc after peers) (snapshot_request client_id) peers
            h)
      | inr e ↦ rw e (send_data_message-IsKeyed id (snapshot_request client_id) peers h)
    ]
