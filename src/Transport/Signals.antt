-- ===== src/Transport/Signals.antt =====
-- src/transport/p2pMeshTransport.ts, `applySignal` and `flushRemoteCandidates`: the candidates that
-- a peer sends may come before its description, and wait for it.
pub mod Ordering
pub mod Naming
use nettprogg_vsc.Common.{
  ℕ, ◌+◌, String, Text, List, [], ◌∷◌, ◌++◌, Bool, true, false, Option, none, some, if◌then◌else◌,
}
use nettprogg_vsc.Transport.Rtc.{Rtc}
use nettprogg_vsc.Transport.Peer.{RemoteCandidate, MeshPeer}

-- signalingMessages.ts, `SignalingSignalPayload`
pub data Signal : Type 0 where
  description : Text → String → Signal
  candidate : RemoteCandidate → Signal

module _ (rtc : Rtc) where
  abbrev add_candidate : rtc.Connection → RemoteCandidate → Option rtc.Connection
  add_candidate connection c = rtc.add_remote_candidate connection c.candidate c.mid

  -- The loop of `flushRemoteCandidates`. An error ends it; the Boolean says whether there was none.
  unfoldable pub add_all : List RemoteCandidate → rtc.Connection → Bool × rtc.Connection
  add_all [] connection = (true, connection)
  add_all (c ∷ rest) connection = elim (add_candidate connection c) [
    | none ↦ (false, connection)
    | some next ↦ add_all rest next
  ]

  -- `flushRemoteCandidates`
  unfoldable pub flush_remote_candidates : MeshPeer rtc → Bool × MeshPeer rtc
  unfolding add_all
  flush_remote_candidates peer =
      let r = add_all peer.pending_candidates peer.peer_connection in
      (r.0, record peer { pending_candidates = []; peer_connection = r.1 })

  -- What follows a call on the connection that may throw
  abbrev set_connection : Option rtc.Connection → MeshPeer rtc → Bool × MeshPeer rtc
  set_connection none peer = (false, peer)
  set_connection (some connection) peer = (true, record peer { peer_connection = connection })

  abbrev described : Option rtc.Connection → MeshPeer rtc → Bool × MeshPeer rtc
  described none peer = (false, peer)
  described (some connection) peer =
      flush_remote_candidates (record peer { peer_connection = connection })

  -- `applySignal`. The Boolean is false where `onError` is called.
  unfoldable pub apply_signal : Signal → MeshPeer rtc → Bool × MeshPeer rtc
  unfolding flush_remote_candidates
  apply_signal (description sdp kind) peer =
      described (rtc.set_remote_description peer.peer_connection sdp kind) peer
  apply_signal (candidate c) peer =
      if rtc.has_remote_description peer.peer_connection
      then set_connection (add_candidate peer.peer_connection c) peer
      else (true, record peer { pending_candidates = peer.pending_candidates ++ c ∷ [] })

  -- The signals from one peer, in order
  pub apply_signals : List Signal → MeshPeer rtc → MeshPeer rtc
  unfolding apply_signal
  apply_signals [] peer = peer
  apply_signals (signal ∷ signals) peer = apply_signals signals (apply_signal signal peer).1
