-- ===== src/Transport/Signaling/Events/Disposal.antt =====
-- src/transport/p2pMeshTransport.ts, `close`: a socket that is closing still hands messages on, and
-- the handler of messages does not look whether the transport is disposed.
use Prim.Native.Nat.{Ordering}
use nettprogg_vsc.Transport.Signaling.Channels.{Errors}
use nettprogg_vsc.Common.{ℕ, String, Text, List, [], not, ◌&&◌, str_eq, Option, ◌≡◌}
use nettprogg_vsc.Crdt.{TextCrdtSnapshot}
use nettprogg_vsc.Transport.Interface.{PeerInfo}
use nettprogg_vsc.Transport.Rtc.{Rtc}
use nettprogg_vsc.Transport.Sockets.{SocketLibrary}
use nettprogg_vsc.Transport.Signaling.{SignalingClientMessage, joined}
use nettprogg_vsc.Transport.Signaling.Opening.{Transport, close}
use nettprogg_vsc.Transport.Signaling.Opening.Framing.{has}
use nettprogg_vsc.Transport.Signaling.Handling.{valid, socket_message}
use nettprogg_vsc.Transport.Signaling.Handling.Growing.{IsNamed, listed}
use nettprogg_vsc.Transport.Signaling.Handling.Members.{handle_signaling_message-Follows}
use nettprogg_vsc.Transport.Signaling.Events.{closing, socket_receives, step}

no_room : IsNamed []
no_room k info there = absurd (cc)

module _ (rtc : Rtc) (ws : SocketLibrary SignalingClientMessage)
    (compare : String → String → Ordering) (to_json : TextCrdtSnapshot → Text)
    (base64 : Text → Text) (decode : Text → Option TextCrdtSnapshot) (thrown : String)
    (errors : Errors) where
  -- A `joined` message that comes after `close` opens a connection to every other client that it
  -- lists, and to no one else, as if the transport were not disposed.
  pub has-closed :
      (now : ℕ) (room_id client_id k : String) (infos : List PeerInfo) (t : Transport rtc ws)
      → let run = step rtc ws compare to_json base64 decode thrown errors in
        has rtc ws k
          (run (socket_receives now (valid (joined room_id client_id infos))) (run closing t))
        ≡ (listed k infos && not (str_eq k t.options.client_id))
  unfolding step close socket_message
  has-closed now room_id client_id k infos t =
      (handle_signaling_message-Follows rtc ws compare thrown now (joined room_id client_id infos)
          (close rtc ws t) no_room).member
        k
