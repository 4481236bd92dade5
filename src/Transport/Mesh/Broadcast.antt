-- ===== src/Transport/Mesh/Broadcast.antt =====
-- src/transport/p2pMeshTransport.ts: whom a broadcast reaches.
use nettprogg_vsc.Common.{
  String, List, [], ◌∷◌, Bool, true, false, not, ◌&&◌, ◌||◌, Option, none, some, if◌then◌else◌,
  str_eq, eq_iff, ◌≡◌, refl, sym, ap, ◌∙◌, Bool-cases, branches, inl, inr, arith,
}
use nettprogg_vsc.Common.Dict.{lookup, keys, lookup-insert}
use nettprogg_vsc.Common.Sort.{sort, sort_insert}
use nettprogg_vsc.Transport.Rtc.{Rtc}
use nettprogg_vsc.Crdt.{CrdtOperation}
use nettprogg_vsc.Transport.DataMessages.{P2PDataMessage, operation}
use nettprogg_vsc.Transport.Peer.{MeshPeer, send_to_peer}
use nettprogg_vsc.Transport.Mesh.{
  Peers, is_excepted, send_found, send_data_message, broadcast_loop, broadcast_data_message,
  send_operation,
}

abbrev pub occurs : String → List String → Bool
occurs a [] = false
occurs a (b ∷ bs) = str_eq b a || occurs a bs

-- No text twice
abbrev pub AllOnce : List String → Type 0
AllOnce [] = Unit
AllOnce (a ∷ as_) = (occurs a as_ ≡ false) × AllOnce as_

module _ (after : String → String → Bool) where
  occurs-sort_insert :
      (a b : String) (bs : List String) → occurs a (sort_insert after b bs) ≡ occurs a (b ∷ bs)
  occurs-sort_insert a b [] = refl
  occurs-sort_insert a b (c ∷ bs) = ground (arith, occurs-sort_insert a b bs)

  pub occurs-sort : (a : String) (bs : List String) → occurs a (sort after bs) ≡ occurs a bs
  occurs-sort a [] = refl
  occurs-sort a (b ∷ bs) =
      occurs-sort_insert a b (sort after bs) ∙ ap (λ rest. str_eq b a || rest) (occurs-sort a bs)

  sort_insert-AllOnce :
      (b : String) (bs : List String)
      → occurs b bs ≡ false
      → AllOnce bs
      → AllOnce (sort_insert after b bs)
  sort_insert-AllOnce b [] e h = (refl, tt)
  sort_insert-AllOnce b (c ∷ bs) e (f, h) = elim (Bool-cases (after b c)) [
    | inl moved ↦ rw moved (
      occurs-sort_insert c b bs ∙ ground (arith, eq_iff b c, eq_iff c b),
      sort_insert-AllOnce b bs (ground arith) h,
    )
    | inr kept ↦ rw kept (e, (f, h))
  ]

  sort-AllOnce : (bs : List String) → AllOnce bs → AllOnce (sort after bs)
  sort-AllOnce [] h = tt
  sort-AllOnce (b ∷ bs) (e, h) =
      sort_insert-AllOnce b (sort after bs) (occurs-sort b bs ∙ e) (sort-AllOnce bs h)

module _ (rtc : Rtc) (message : P2PDataMessage) where
  -- A peer after the message was sent to it, if there is one.
  abbrev pub told : Option (MeshPeer rtc) → Option (MeshPeer rtc)
  told none = none
  told (some peer) = some (send_to_peer rtc peer message).1

  send_found_lem :
      (o : Option (MeshPeer rtc)) (id k : String) (peers : Peers rtc)
      → lookup id peers ≡ o
      → lookup k (send_found rtc o id message peers).1
        ≡ (if str_eq id k then told o else lookup k peers)
  send_found_lem none id k peers e = elim (Bool-cases (str_eq id k)) [
    | inl same ↦ rw same (ap (λ i. lookup i peers) (sym ((eq_iff id k).0 same)) ∙ e)
    | inr other ↦ rw other
  ]
  send_found_lem (some peer) id k peers e =
      lookup-insert id k (send_to_peer rtc peer message).1 peers

  pub send_data_message_lem :
      (id k : String) (peers : Peers rtc)
      → lookup k (send_data_message rtc id message peers).1
        ≡ (if str_eq id k then told (lookup k peers) else lookup k peers)
  unfolding send_data_message
  send_data_message_lem id k peers = elim (Bool-cases (str_eq id k)) [
    | inl same ↦
        send_found_lem (lookup id peers) id k peers refl
        ∙ rw same (ap (λ i. told (lookup i peers)) ((eq_iff id k).0 same))
    | inr other ↦ send_found_lem (lookup id peers) id k peers refl ∙ rw other
  ]

  skip_lem :
      (same rest out : Bool) (v w : Option (MeshPeer rtc))
      → (same ≡ true → out ≡ true)
      → (if rest && not out then v else w) ≡ (if (same || rest) && not out then v else w)
  skip_lem true rest out v w h = rw (h refl) (ground arith)
  skip_lem false rest out v w h = refl

  tell_lem :
      (same rest out : Bool) (v : Option (MeshPeer rtc))
      → (same ≡ true → out ≡ false)
      → (same ≡ true → rest ≡ false)
      → (let w = if same then told v else v in if rest && not out then told w else w)
        ≡ (if (same || rest) && not out then told v else v)
  tell_lem true rest out v h g = rw (h refl, g refl)
  tell_lem false rest out v h g = refl

  -- A name that is no key has no peer.
  lookup_lem :
      (k : String) (peers : Peers rtc) → occurs k (keys peers) ≡ false → lookup k peers ≡ none
  lookup_lem k [] e = refl
  lookup_lem k ((i, peer) ∷ peers) e = ground (arith, lookup_lem k peers)

  present_lem :
      (out : Bool) (k : String) (peers : Peers rtc)
      → (if occurs k (keys peers) && not out then told (lookup k peers) else lookup k peers)
        ≡ (if out then lookup k peers else told (lookup k peers))
  present_lem out k peers = elim (Bool-cases (occurs k (keys peers))) [
    | inl there ↦ rw there (ground arith)
    | inr absent ↦ rw (absent, lookup_lem k peers absent) (ground arith)
  ]

  broadcast_loop_lem :
      (ids : List String) (except : Option String) (sent : Bool) (peers : Peers rtc) (k : String)
      → AllOnce ids
      → lookup k (broadcast_loop rtc ids message except sent peers).1 ≡ (
          if occurs k ids && not (is_excepted except k)
          then told (lookup k peers)
          else lookup k peers)
  unfolding broadcast_loop
  broadcast_loop_lem [] except sent peers k h = refl
  broadcast_loop_lem (id ∷ ids) except sent peers k (e, h) =
      let r = send_data_message rtc id message peers in
      let rest = occurs k ids in
      let same = str_eq id k in
      let moved : same ≡ true → is_excepted except id ≡ is_excepted except k =
        λ s. ap (is_excepted except) ((eq_iff id k).0 s) in
      let alone : same ≡ true → rest ≡ false =
        λ s. ap (λ i. occurs i ids) (sym ((eq_iff id k).0 s)) ∙ e in
      branches
        (λ (q : Bool × Peers rtc). lookup k q.1 ≡ (
          if (same || rest) && not (is_excepted except k)
          then told (lookup k peers)
          else lookup k peers))
        (is_excepted except id)
        (λ out.
          broadcast_loop_lem ids except sent peers k h
          ∙ skip_lem same rest (is_excepted except k) (told (lookup k peers)) (lookup k peers)
              (λ s. sym (moved s) ∙ out))
        (λ kept.
          broadcast_loop_lem ids except (r.0 || sent) r.1 k h
          ∙ ap (λ v. if rest && not (is_excepted except k) then told v else v)
              (send_data_message_lem id k peers)
          ∙ tell_lem same rest (is_excepted except k) (lookup k peers) (λ s. sym (moved s) ∙ kept)
              alone)

  -- With no two peers of one name, a broadcast sends the message to every peer but the excepted
  -- one, to each exactly once, and changes nothing else.
  pub broadcast_data_message_lem :
      (locale_after : String → String → Bool) (except : Option String) (peers : Peers rtc)
      (k : String)
      → AllOnce (keys peers)
      → lookup k (broadcast_data_message rtc locale_after message except peers).1
        ≡ (if is_excepted except k then lookup k peers else told (lookup k peers))
  unfolding broadcast_data_message
  broadcast_data_message_lem locale_after except peers k once =
      broadcast_loop_lem (sort locale_after (keys peers)) except false peers k
        (sort-AllOnce locale_after (keys peers) once)
      ∙ ap (λ o. if o && not (is_excepted except k) then told (lookup k peers) else lookup k peers)
          (occurs-sort locale_after k (keys peers))
      ∙ present_lem (is_excepted except k) k peers

module _ (rtc : Rtc) (locale_after : String → String → Bool) where
  -- What `sendOperation` makes of each peer
  pub lookup-send_operation :
      (client_id : String) (op : CrdtOperation) (peers : Peers rtc) (k : String)
      → AllOnce (keys peers)
      → lookup k (send_operation rtc locale_after client_id op none peers).1
        ≡ told rtc (operation client_id op) (lookup k peers)
  unfolding send_operation
  lookup-send_operation client_id op peers k once =
      broadcast_data_message_lem rtc (operation client_id op) locale_after none peers k once
