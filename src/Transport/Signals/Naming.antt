-- ===== src/Transport/Signals/Naming.antt =====
-- src/transport/p2pMeshTransport.ts, `applySignal`: a peer keeps its name.
use nettprogg_vsc.Common.{Option, none, some, ◌≡◌, refl, Bool-cases, inl, inr}
use nettprogg_vsc.Transport.Rtc.{Rtc}
use nettprogg_vsc.Transport.Peer.{MeshPeer}
use nettprogg_vsc.Transport.Signals.{
  Signal, description, candidate, add_candidate, flush_remote_candidates, set_connection, described,
  apply_signal,
}

module _ (rtc : Rtc) where
  described-client_id :
      (o : Option rtc.Connection) (peer : MeshPeer rtc)
      → (described rtc o peer).1.client_id ≡ peer.client_id
  unfolding flush_remote_candidates
  described-client_id none peer = refl
  described-client_id (some connection) peer = refl

  set_connection-client_id :
      (o : Option rtc.Connection) (peer : MeshPeer rtc)
      → (set_connection rtc o peer).1.client_id ≡ peer.client_id
  set_connection-client_id none peer = refl
  set_connection-client_id (some connection) peer = refl

  pub apply_signal-client_id :
      (signal : Signal) (peer : MeshPeer rtc)
      → (apply_signal rtc signal peer).1.client_id ≡ peer.client_id
  unfolding apply_signal
  apply_signal-client_id (description sdp kind) peer =
      described-client_id (rtc.set_remote_description peer.peer_connection sdp kind) peer
  apply_signal-client_id (candidate c) peer =
      elim (Bool-cases (rtc.has_remote_description peer.peer_connection)) [
        | inl e ↦ rw e (set_connection-client_id (add_candidate rtc peer.peer_connection c) peer)
        | inr e ↦ rw e
      ]
