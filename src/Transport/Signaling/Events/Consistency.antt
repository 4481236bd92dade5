-- ===== src/Transport/Signaling/Events/Consistency.antt =====
-- src/transport/p2pMeshTransport.ts: whatever happens to a transport, its maps stay keyed by the
-- names of what they hold.
use Prim.Native.Nat.{Ordering}
use nettprogg_vsc.Common.{
  String, Text, List, [], ◌∷◌, not, ◌||◌, Option, none, some, is_some, str_eq, ◌≡◌, refl, sym,
  Bool-cases, inl, inr, subst, branches,
}
use nettprogg_vsc.Common.Dict.{lookup}
use nettprogg_vsc.Crdt.{TextCrdtSnapshot}
use nettprogg_vsc.Transport.Mesh.Keys.{IsKeyed, send_operation-IsKeyed, request_snapshot-IsKeyed}
use nettprogg_vsc.Transport.Peer.{MeshPeer, flush_peer_queue}
use nettprogg_vsc.Transport.Peer.Naming.{flush_peer_queue-client_id}
use nettprogg_vsc.Transport.Rtc.{Rtc}
use nettprogg_vsc.Transport.Signals.{Signal, description, candidate}
use nettprogg_vsc.Transport.Snapshots.Keys.{send_snapshot-IsKeyed}
use nettprogg_vsc.Transport.Sockets.{SocketLibrary}
use nettprogg_vsc.Transport.Signaling.{
  SignalingClientMessage, P2PMeshTransportOptions, is_after, create, send_on, send_signaling,
  send_signal,
}
use nettprogg_vsc.Transport.Signaling.Opening.{
  Transport, change_peer, mark_open, attach_data_channel, connect, close,
}
use nettprogg_vsc.Transport.Signaling.Opening.Framing.{
  change_peer-Frame, mark_open-Frame, attach_data_channel-Frame, Frame,
}
use nettprogg_vsc.Transport.Signaling.Opening.Keys.{
  MeshKeyed, change_peer-IsKeyed, mark_open-IsKeyed, attach_data_channel-IsKeyed,
}
use nettprogg_vsc.Transport.Signaling.Handling.Growing.{IsNamed}
use nettprogg_vsc.Transport.Signaling.Handling.Keys.{socket_message-IsKeyed, socket_message-IsNamed}
use nettprogg_vsc.Transport.Signaling.Channels.{
  Errors, handle_data_message, channel_closed, channel_error, flush_peer, state_change,
}
use nettprogg_vsc.Transport.Signaling.Channels.Sources.{handle_data_message-Reports}
use nettprogg_vsc.Transport.Signaling.Events.{
  Event, connecting, closing, sending_operation, requesting_snapshot, sending_snapshot, socket_open,
  socket_receives, socket_close, socket_error, socket_change, local_description, local_candidate,
  data_channel, connection_state, channel_opens, channel_closes, channel_fails, buffered_amount_low,
  channel_receives, timer_fires, objects_change, socket_opened, socket_closed, at_peer, timer_of,
  step, run,
}

module _ (rtc : Rtc) (ws : SocketLibrary SignalingClientMessage) where
  -- The mesh has every peer once, under its own name, and the room has every client under its name.
  pub record IsWellKeyed (t : Transport rtc ws) : Type 0 where
    pub mesh : MeshKeyed rtc ws t
    pub room : IsNamed t.room_peers

  Frame-IsWellKeyed :
      (id : String) (t u : Transport rtc ws)
      → Frame rtc ws id t u
      → MeshKeyed rtc ws u
      → IsWellKeyed t
      → IsWellKeyed u
  Frame-IsWellKeyed id t u g m h = record {
    mesh = m;
    room = subst IsNamed (sym g.room_same) h.room;
  }

  change_peer-IsWellKeyed :
      (id : String) (f : MeshPeer rtc → MeshPeer rtc) (t : Transport rtc ws)
      → ((peer : MeshPeer rtc) → (f peer).client_id ≡ peer.client_id)
      → IsWellKeyed t
      → IsWellKeyed (change_peer rtc ws id f t)
  change_peer-IsWellKeyed id f t same h =
      Frame-IsWellKeyed id t (change_peer rtc ws id f t) (change_peer-Frame rtc ws id f t)
        (change_peer-IsKeyed rtc ws id f t same h.mesh) h

  send_on-IsWellKeyed :
      (o : Option ws.Socket) (message : SignalingClientMessage) (t : Transport rtc ws)
      → IsWellKeyed t
      → IsWellKeyed (send_on rtc ws o message t).1
  send_on-IsWellKeyed none message t h = h
  send_on-IsWellKeyed (some socket) message t h = elim (Bool-cases (ws.is_open socket)) [
    | inl e ↦ rw e (record { mesh = h.mesh; room = h.room })
    | inr e ↦ rw e h
  ]

  at_peer-IsWellKeyed :
      (id : String) (u t : Transport rtc ws)
      → IsWellKeyed u
      → IsWellKeyed t
      → IsWellKeyed (at_peer rtc ws id u t)
  at_peer-IsWellKeyed id u t g h =
      branches IsWellKeyed (is_some (lookup id t.mesh_peers)) (λ e. g) (λ e. h)

  send_signal-IsWellKeyed :
      (id : String) (payload : Signal) (t : Transport rtc ws)
      → IsWellKeyed t
      → IsWellKeyed (send_signal rtc ws id payload t).1
  unfolding send_signal send_signaling
  send_signal-IsWellKeyed id payload t =
      send_on-IsWellKeyed t.signaling_socket
        (SignalingClientMessage.signal t.options.room_id t.options.client_id id payload) t

  mark_open-IsWellKeyed :
      (id : String) (t : Transport rtc ws) → IsWellKeyed t → IsWellKeyed (mark_open rtc ws id t)
  mark_open-IsWellKeyed id t h =
      Frame-IsWellKeyed id t (mark_open rtc ws id t) (mark_open-Frame rtc ws id t)
        (mark_open-IsKeyed rtc ws id t h.mesh) h

  attach_data_channel-IsWellKeyed :
      (id : String) (channel : rtc.Channel) (t : Transport rtc ws)
      → IsWellKeyed t
      → IsWellKeyed (attach_data_channel rtc ws id channel t)
  attach_data_channel-IsWellKeyed id channel t h =
      Frame-IsWellKeyed id t (attach_data_channel rtc ws id channel t)
        (attach_data_channel-Frame rtc ws id channel t)
        (attach_data_channel-IsKeyed rtc ws id channel t h.mesh) h

  flush_peer-IsWellKeyed :
      (id : String) (t : Transport rtc ws) → IsWellKeyed t → IsWellKeyed (flush_peer rtc ws id t)
  unfolding flush_peer
  flush_peer-IsWellKeyed id t =
      change_peer-IsWellKeyed id (flush_peer_queue rtc) t (flush_peer_queue-client_id rtc)

  state_change-IsWellKeyed :
      (id state : String) (t : Transport rtc ws)
      → IsWellKeyed t
      → IsWellKeyed (state_change rtc ws id state t)
  unfolding state_change
  state_change-IsWellKeyed id state t h =
      elim (Bool-cases (str_eq state "closed" || str_eq state "failed")) [
        | inl e ↦ rw e (change_peer-IsWellKeyed id _ t (λ peer. refl) h)
        | inr e ↦ rw e h
      ]

  socket_closed-IsWellKeyed :
      (t : Transport rtc ws) → IsWellKeyed t → IsWellKeyed (socket_closed rtc ws t)
  unfolding socket_closed
  socket_closed-IsWellKeyed t h =
      branches IsWellKeyed (not t.disposed) (λ e. record { mesh = h.mesh; room = h.room }) (λ e. h)

  no_room : IsNamed []
  no_room k info there = absurd (cc)

module _ (rtc : Rtc) (ws : SocketLibrary SignalingClientMessage)
    (compare : String → String → Ordering) (to_json : TextCrdtSnapshot → Text)
    (base64 : Text → Text) (decode : Text → Option TextCrdtSnapshot) (thrown : String)
    (errors : Errors) where
  pub step-IsWellKeyed :
      (event : Event rtc ws) (t : Transport rtc ws)
      → IsWellKeyed rtc ws t
      → IsWellKeyed rtc ws (step rtc ws compare to_json base64 decode thrown errors event t)
  unfolding step socket_opened send_signal send_signaling connect close channel_closed channel_error
  step-IsWellKeyed connecting t h = record { mesh = h.mesh; room = h.room }
  step-IsWellKeyed closing t h = record {
    mesh = record { once = tt; named = tt };
    room = no_room rtc ws;
  }
  step-IsWellKeyed (sending_operation op except) t h = record {
    mesh =
        send_operation-IsKeyed rtc (is_after compare) t.options.client_id op except t.mesh_peers
          h.mesh;
    room = h.room;
  }
  step-IsWellKeyed (requesting_snapshot provider) t h = record {
    mesh =
        request_snapshot-IsKeyed rtc (is_after compare) t.options.client_id provider t.mesh_peers
          h.mesh;
    room = h.room;
  }
  step-IsWellKeyed (sending_snapshot id state snapshot_id) t h = record {
    mesh =
        send_snapshot-IsKeyed rtc to_json base64 t.options.client_id id snapshot_id state
          t.mesh_peers h.mesh;
    room = h.room;
  }
  step-IsWellKeyed socket_open t h = send_on-IsWellKeyed rtc ws t.signaling_socket _ t h
  step-IsWellKeyed (socket_receives now inbound) t h = record {
    mesh = socket_message-IsKeyed rtc ws compare thrown now inbound t h.mesh;
    room = socket_message-IsNamed rtc ws compare thrown now inbound t h.room;
  }
  step-IsWellKeyed socket_close t h = socket_closed-IsWellKeyed rtc ws t h
  step-IsWellKeyed (socket_error text) t h = record { mesh = h.mesh; room = h.room }
  step-IsWellKeyed (socket_change socket) t h = record { mesh = h.mesh; room = h.room }
  step-IsWellKeyed (local_description id sdp kind) t h =
      at_peer-IsWellKeyed rtc ws id (send_signal rtc ws id (description sdp kind) t).1 t
        (send_signal-IsWellKeyed rtc ws id (description sdp kind) t h) h
  step-IsWellKeyed (local_candidate id c) t h =
      at_peer-IsWellKeyed rtc ws id (send_signal rtc ws id (candidate c) t).1 t
        (send_signal-IsWellKeyed rtc ws id (candidate c) t h) h
  step-IsWellKeyed (data_channel id channel) t h =
      at_peer-IsWellKeyed rtc ws id (attach_data_channel rtc ws id channel t) t
        (attach_data_channel-IsWellKeyed rtc ws id channel t h) h
  step-IsWellKeyed (connection_state id state) t h =
      at_peer-IsWellKeyed rtc ws id (state_change rtc ws id state t) t
        (state_change-IsWellKeyed rtc ws id state t h) h
  step-IsWellKeyed (channel_opens id) t h =
      at_peer-IsWellKeyed rtc ws id (mark_open rtc ws id t) t (mark_open-IsWellKeyed rtc ws id t h)
        h
  step-IsWellKeyed (channel_closes id) t h =
      at_peer-IsWellKeyed rtc ws id (channel_closed rtc ws id t) t
        (change_peer-IsWellKeyed rtc ws id _ t (λ peer. refl) h) h
  step-IsWellKeyed (channel_fails id text) t h =
      at_peer-IsWellKeyed rtc ws id (channel_error rtc ws id text t) t
        (record { mesh = h.mesh; room = h.room }) h
  step-IsWellKeyed (buffered_amount_low id) t h =
      at_peer-IsWellKeyed rtc ws id (flush_peer rtc ws id t) t
        (flush_peer-IsWellKeyed rtc ws id t h) h
  step-IsWellKeyed (channel_receives now id inbound) t h =
      let r = handle_data_message-Reports rtc ws decode errors id now inbound t in
      at_peer-IsWellKeyed rtc ws id (handle_data_message rtc ws decode errors now id inbound t) t
        (record {
          mesh = subst (IsKeyed rtc) (sym r.mesh_same) h.mesh;
          room = subst IsNamed (sym r.room_same) h.room;
        })
        h
  step-IsWellKeyed (timer_fires id) t h =
      elim (Bool-cases (timer_of rtc ws (lookup id t.mesh_peers))) [
        | inl e ↦ rw e (flush_peer-IsWellKeyed rtc ws id t h)
        | inr e ↦ rw e h
      ]
  step-IsWellKeyed (objects_change id connection channel) t h =
      change_peer-IsWellKeyed rtc ws id _ t (λ peer. refl) h

  run-keeps :
      (events : List (Event rtc ws)) (t : Transport rtc ws)
      → IsWellKeyed rtc ws t
      → IsWellKeyed rtc ws (run rtc ws compare to_json base64 decode thrown errors events t)
  unfolding run
  run-keeps [] t h = h
  run-keeps (event ∷ events) t h =
      run-keeps events (step rtc ws compare to_json base64 decode thrown errors event t)
        (step-IsWellKeyed event t h)

  -- After any sequence of events, calls and changes of the libraries' objects, from a new transport
  -- on, the mesh has every peer once and under its own name, and the room every client under its
  -- name.
  pub run-IsWellKeyed :
      (events : List (Event rtc ws)) (options : P2PMeshTransportOptions)
      → IsWellKeyed rtc ws
          (run rtc ws compare to_json base64 decode thrown errors events (create rtc ws options))
  unfolding create
  run-IsWellKeyed events options =
      run-keeps events (create rtc ws options)
        (record { mesh = record { once = tt; named = tt }; room = no_room rtc ws })
