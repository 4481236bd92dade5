-- ===== src/Transport/Signaling/Events.antt =====
-- src/transport/p2pMeshTransport.ts: the events of the signaling socket and of a peer's objects that
-- the handlers do not cover, and everything that may happen to a transport, as one step function.
-- A peer's callbacks end with the peer.
pub mod Consistency
pub mod Disposal
use Prim.Native.Nat.{Ordering}
use nettprogg_vsc.Common.{
  ℕ, String, Text, List, [], ◌∷◌, Bool, true, false, not, Option, none, some, is_some,
  if◌then◌else◌,
}
use nettprogg_vsc.Common.Dict.{lookup}
use nettprogg_vsc.Crdt.{CrdtOperation, TextCrdtSnapshot}
use nettprogg_vsc.Transport.Interface.{on_close, on_error}
use nettprogg_vsc.Transport.Mesh.{Peers, send_operation, request_snapshot}
use nettprogg_vsc.Transport.Peer.{MeshPeer, RemoteCandidate}
use nettprogg_vsc.Transport.Rtc.{Rtc}
use nettprogg_vsc.Transport.Signals.{description, candidate}
use nettprogg_vsc.Transport.Snapshots.{send_snapshot}
use nettprogg_vsc.Transport.Sockets.{SocketLibrary}
use nettprogg_vsc.Transport.Signaling.{
  SignalingClientMessage, join, is_after, report, send_signaling, send_signal,
}
use nettprogg_vsc.Transport.Signaling.Opening.{
  Transport, change_peer, mark_open, attach_data_channel, close, connect,
}
use nettprogg_vsc.Transport.Signaling.Handling
use nettprogg_vsc.Transport.Signaling.Handling.{socket_message}
use nettprogg_vsc.Transport.Signaling.Channels
use nettprogg_vsc.Transport.Signaling.Channels.{
  Errors, handle_data_message, channel_closed, channel_error, flush_peer, state_change,
}

module _ (rtc : Rtc) (ws : SocketLibrary SignalingClientMessage) where
  -- The session's calls, the events of the signaling socket and those of the peer with an id. With
  -- `socket_change` and `objects_change` the libraries change the objects that the transport holds.
  pub data Event : Type 0 where
    connecting : Event
    closing : Event
    sending_operation : CrdtOperation → Option String → Event
    requesting_snapshot : Option String → Event
    sending_snapshot : String → TextCrdtSnapshot → String → Event
    socket_open : Event
    socket_receives : ℕ → Handling.Inbound → Event
    socket_close : Event
    socket_error : String → Event
    socket_change : ws.Socket → Event
    local_description : String → Text → String → Event
    local_candidate : String → RemoteCandidate → Event
    data_channel : String → rtc.Channel → Event
    connection_state : String → String → Event
    channel_opens : String → Event
    channel_closes : String → Event
    channel_fails : String → String → Event
    buffered_amount_low : String → Event
    channel_receives : ℕ → String → Channels.Inbound → Event
    timer_fires : String → Event
    objects_change : String → rtc.Connection → Option rtc.Channel → Event

  -- The socket's event `open`
  pub socket_opened : Transport rtc ws → Transport rtc ws
  socket_opened t = (send_signaling rtc ws (join t.options.room_id t.options.client_id) t).1

  -- The socket's event `close`
  pub socket_closed : Transport rtc ws → Transport rtc ws
  socket_closed t = if not t.disposed then report rtc ws on_close t else t

  abbrev with_mesh : Bool × Peers rtc → Transport rtc ws → Transport rtc ws
  with_mesh r t = record t { mesh_peers = r.1 }

  -- The peer's callbacks are set once there is a peer.
  abbrev at_peer : String → Transport rtc ws → Transport rtc ws → Transport rtc ws
  at_peer id changed t = if is_some (lookup id t.mesh_peers) then changed else t

  abbrev timer_of : Option (MeshPeer rtc) → Bool
  timer_of none = false
  timer_of (some peer) = peer.flush_timer

module _ (rtc : Rtc) (ws : SocketLibrary SignalingClientMessage)
    (compare : String → String → Ordering) (to_json : TextCrdtSnapshot → Text)
    (base64 : Text → Text) (decode : Text → Option TextCrdtSnapshot) (thrown : String)
    (errors : Errors) where
  pub step : Event rtc ws → Transport rtc ws → Transport rtc ws
  unfolding socket_opened socket_closed
  step connecting t = connect rtc ws t
  step closing t = close rtc ws t
  step (sending_operation op except) t =
      with_mesh rtc ws
        (send_operation rtc (is_after compare) t.options.client_id op except t.mesh_peers) t
  step (requesting_snapshot provider) t =
      with_mesh rtc ws
        (request_snapshot rtc (is_after compare) t.options.client_id provider t.mesh_peers) t
  step (sending_snapshot id state snapshot_id) t =
      with_mesh rtc ws
        (send_snapshot rtc to_json base64 t.options.client_id id state snapshot_id t.mesh_peers) t
  step socket_open t = socket_opened rtc ws t
  step (socket_receives now inbound) t = socket_message rtc ws compare thrown now inbound t
  step socket_close t = socket_closed rtc ws t
  step (socket_error text) t = report rtc ws (on_error text) t
  step (socket_change socket) t = record t {
    signaling_socket = if is_some t.signaling_socket then some socket else none;
  }
  step (local_description id sdp kind) t =
      at_peer rtc ws id ((send_signal rtc ws id (description sdp kind) t).1) t
  step (local_candidate id c) t = at_peer rtc ws id ((send_signal rtc ws id (candidate c) t).1) t
  step (data_channel id channel) t = at_peer rtc ws id (attach_data_channel rtc ws id channel t) t
  step (connection_state id state) t = at_peer rtc ws id (state_change rtc ws id state t) t
  step (channel_opens id) t = at_peer rtc ws id (mark_open rtc ws id t) t
  step (channel_closes id) t = at_peer rtc ws id (channel_closed rtc ws id t) t
  step (channel_fails id text) t = at_peer rtc ws id (channel_error rtc ws id text t) t
  step (buffered_amount_low id) t = at_peer rtc ws id (flush_peer rtc ws id t) t
  step (channel_receives now id inbound) t =
      at_peer rtc ws id (handle_data_message rtc ws decode errors now id inbound t) t
  step (timer_fires id) t =
      if timer_of rtc ws (lookup id t.mesh_peers) then flush_peer rtc ws id t else t
  step (objects_change id connection channel) t =
      change_peer rtc ws id
        (λ peer. record peer { peer_connection = connection; data_channel = channel }) t

  pub run : List (Event rtc ws) → Transport rtc ws → Transport rtc ws
  unfolding step
  run [] t = t
  run (event ∷ events) t = run events (step event t)
