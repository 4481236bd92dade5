-- ===== src/Transport/Snapshots/Sending.antt =====
-- src/transport/p2pMeshTransport.ts, `sendSnapshot`: what a peer gets.
use nettprogg_vsc.Common.{List, ◌++◌, Option, some, ◌≡◌}
use nettprogg_vsc.Transport.DataMessages.{P2PDataMessage}
use nettprogg_vsc.Common.Repeats.{Repeats}
use nettprogg_vsc.Transport.Rtc.{Rtc, TakesMessages}
use nettprogg_vsc.Transport.Peer.{MeshPeer}
use nettprogg_vsc.Transport.Peer.Queue.{stream}

module _ (rtc : Rtc) where
  module _ (law : TakesMessages rtc) where
    -- A peer's stream has got some messages behind what it had, perhaps with messages repeated.
    abbrev pub HasGot : MeshPeer rtc → List P2PDataMessage → Option (MeshPeer rtc) → Type 0
    HasGot peer messages found =
        (after : MeshPeer rtc) × (found ≡ some after)
        × Repeats (stream rtc law peer.data_channel (peer.queued_messages ++ messages))
            (stream rtc law after.data_channel after.queued_messages)
