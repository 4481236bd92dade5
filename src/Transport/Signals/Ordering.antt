-- ===== src/Transport/Signals/Ordering.antt =====
-- src/transport/p2pMeshTransport.ts: the candidates of a peer, added and waiting.
use nettprogg_vsc.Common.{
  String, Text, List, [], ◌∷◌, ◌++◌, Bool, true, false, ◌&&◌, some, ◌≡◌, refl, sym, ap, ◌∙◌,
  append_assoc, append-nil, Bool-cases, Option-cases, inl, inr,
}
use nettprogg_vsc.Transport.Rtc.{Rtc}
use nettprogg_vsc.Transport.Peer.{RemoteCandidate, MeshPeer}
use nettprogg_vsc.Transport.Signals.{
  Signal, description, candidate, add_all, flush_remote_candidates, apply_signal, apply_signals,
}

-- What is relied on: a connection that takes a candidate, or a description, without an error has the
-- candidates that it had, and with a candidate that one behind them.
pub record TakesSignals (rtc : Rtc) : Type 0 where
  pub candidates : rtc.Connection → List RemoteCandidate
  pub add-candidates :
      (connection next : rtc.Connection) (c : RemoteCandidate)
      → rtc.add_remote_candidate connection c.candidate c.mid ≡ some next
      → candidates next ≡ candidates connection ++ c ∷ []
  pub set-candidates :
      (connection next : rtc.Connection) (sdp : Text) (kind : String)
      → rtc.set_remote_description connection sdp kind ≡ some next
      → candidates next ≡ candidates connection

-- The candidates among some signals
unfoldable pub candidates_of : List Signal → List RemoteCandidate
candidates_of [] = []
candidates_of (description sdp kind ∷ signals) = candidates_of signals
candidates_of (candidate c ∷ signals) = c ∷ candidates_of signals

&&-left : (a b : Bool) → (a && b) ≡ true → a ≡ true
&&-left true b e = refl
&&-left false b e = e

&&-right : (a b : Bool) → (a && b) ≡ true → b ≡ true
&&-right true b e = e
&&-right false b e = cc

module _ (rtc : Rtc) (law : TakesSignals rtc) where
  open law use {candidates, add-candidates, set-candidates}

  -- A peer whose description is there has no candidate waiting.
  abbrev pub IsFlushed : MeshPeer rtc → Type 0
  IsFlushed peer =
      rtc.has_remote_description peer.peer_connection ≡ true → peer.pending_candidates ≡ []

  -- The candidates of a peer that its connection has, and those that wait
  abbrev pub known : MeshPeer rtc → List RemoteCandidate
  known peer = candidates peer.peer_connection ++ peer.pending_candidates

  add_all-candidates :
      (cs : List RemoteCandidate) (connection : rtc.Connection)
      → (add_all rtc cs connection).0 ≡ true
      → candidates (add_all rtc cs connection).1 ≡ candidates connection ++ cs
  unfolding add_all
  add_all-candidates [] connection ok = sym (append-nil (candidates connection))
  add_all-candidates (c ∷ rest) connection ok =
      elim (Option-cases (rtc.add_remote_candidate connection c.candidate c.mid)) [
        | inl bad ↦ let no_ : false ≡ true = rw (bad, add_all) at ok in cc
        | inr (next, added) ↦
            rw (added, add_all)
              (add_all-candidates rest next (rw (added, add_all) at ok)
                ∙ (ap (λ known. known ++ rest) (add-candidates connection next c added)
                    ∙ append_assoc (candidates connection) (c ∷ []) rest))
      ]

  described-known :
      (connection : rtc.Connection) (peer : MeshPeer rtc)
      → let r = flush_remote_candidates rtc (record peer { peer_connection = connection }) in
        r.0 ≡ true
        → candidates connection ≡ candidates peer.peer_connection
        → (known r.1 ≡ known peer) × (r.1.pending_candidates ≡ [])
  unfolding flush_remote_candidates
  described-known connection peer ok e = (
    append-nil (candidates (add_all rtc peer.pending_candidates connection).1)
        ∙ (add_all-candidates peer.pending_candidates connection ok
            ∙ ap (λ known. known ++ peer.pending_candidates) e),
    refl,
  )

  apply_signal-known :
      (signal : Signal) (peer : MeshPeer rtc)
      → IsFlushed peer
      → let r = apply_signal rtc signal peer in
        r.0 ≡ true → (known r.1 ≡ known peer ++ candidates_of (signal ∷ [])) × IsFlushed r.1
  unfolding apply_signal candidates_of
  apply_signal-known (description sdp kind) peer flushed ok =
      elim (Option-cases (rtc.set_remote_description peer.peer_connection sdp kind)) [
        | inl bad ↦ let no_ : false ≡ true = rw (bad, apply_signal) at ok in cc
        | inr (next, set) ↦
            let (all, none_left) =
              described-known next peer (rw (set, apply_signal) at ok)
                (set-candidates peer.peer_connection next sdp kind set) in
            rw (set, apply_signal) (all ∙ sym (append-nil (known peer)), λ h. none_left)
      ]
  apply_signal-known (candidate c) peer flushed ok =
      elim (Bool-cases (rtc.has_remote_description peer.peer_connection)) [
        | inl ready ↦
            elim (Option-cases (rtc.add_remote_candidate peer.peer_connection c.candidate c.mid)) [
              | inl bad ↦ let no_ : false ≡ true = rw (ready, bad, apply_signal) at ok in cc
              | inr (next, added) ↦
                  rw (ready, added, apply_signal)
                    (
                      ap (λ waiting. candidates next ++ waiting) (flushed ready)
                          ∙ (append-nil (candidates next)
                              ∙ (add-candidates peer.peer_connection next c added
                                  ∙ ap (λ known. known ++ c ∷ [])
                                      (sym (
                                        ap (λ waiting. candidates peer.peer_connection ++ waiting)
                                          (flushed ready)
                                        ∙ append-nil (candidates peer.peer_connection))))),
                      λ h. flushed ready,
                    )
            ]
        | inr unready ↦
            rw (unready, apply_signal)
              (
                sym (
                    append_assoc (candidates peer.peer_connection) peer.pending_candidates
                      (c ∷ [])),
                λ h. cc,
              )
      ]

  candidates_of-cons :
      (signal : Signal) (signals : List Signal)
      → candidates_of (signal ∷ signals) ≡ candidates_of (signal ∷ []) ++ candidates_of signals
  unfolding candidates_of
  candidates_of-cons (description sdp kind) signals = refl
  candidates_of-cons (candidate c) signals = refl

  -- No call on the connection throws while the signals are applied.
  unfoldable pub succeeds : List Signal → MeshPeer rtc → Bool
  succeeds [] peer = true
  succeeds (signal ∷ signals) peer =
      let r = apply_signal rtc signal peer in r.0 && succeeds signals r.1

  -- Whatever signals come from a peer of which no candidate waits beside a description, and whenever
  -- its description comes among them, if no call on its connection throws: the candidates that its
  -- connection has and those that wait are those from before and the new ones, once each and in
  -- order, and none waits once there is a description.
  pub apply_signals-known :
      (signals : List Signal) (peer : MeshPeer rtc)
      → IsFlushed peer
      → succeeds signals peer ≡ true
      → let peer' = apply_signals rtc signals peer in
        (known peer' ≡ known peer ++ candidates_of signals) × IsFlushed peer'
  unfolding apply_signals candidates_of succeeds
  apply_signals-known [] peer flushed ok = (sym (append-nil (known peer)), flushed)
  apply_signals-known (signal ∷ signals) peer flushed ok =
      let r = apply_signal rtc signal peer in
      let (now, still) = apply_signal-known signal peer flushed (&&-left r.0 _ ok) in
      let (all, at_end) = apply_signals-known signals r.1 still (&&-right r.0 _ ok) in
      (
        all
            ∙ (ap (λ before. before ++ candidates_of signals) now
                ∙ (append_assoc (known peer) (candidates_of (signal ∷ [])) (candidates_of signals)
                    ∙ ap (λ new. known peer ++ new) (sym (candidates_of-cons signal signals)))),
        at_end,
      )
