-- ===== src/Extension/Session/Events.antt =====
-- src/extension/sessionManager.ts: everything that happens to a manager, one event at a time. The
-- transport's events are those that `createTransport` wires up. A transport, a timer or a render
-- may report at any time, also to a manager that has left the session it began in.
use nettprogg_vsc.Common.{
  String, Text, List, [], ◌∷◌, Bool, false, Option, none, some, if◌then◌else◌, str_eq,
}
use nettprogg_vsc.Crdt.Replica.{WasmModule}
use nettprogg_vsc.Transport.Interface.{
  CollaborationTransport, PeerInfo, JoinedEvent, OperationEvent, SnapshotEvent,
}
use nettprogg_vsc.Extension.Session.{
  idle, SessionConfig, finish, RenderTask, Manager, after, request_p2p_snapshot_if_needed,
}
use nettprogg_vsc.Extension.Session.Handlers.{handle_transport_operation}
use nettprogg_vsc.Extension.Session.Handlers.Joining.{
  handle_transport_joined, handle_presence, handle_snapshot_request, handle_snapshot,
  handle_transport_close, reconnect, leave_session, connect,
}
use nettprogg_vsc.Extension.Session.Handlers.Editing.{
  ChangeEvent, handle_local_document_change, RenderStart, over, editing, begin_render, end_render,
}

-- `render_started` starts the head of the render queue, and `render_answered` is the editor's answer
-- to the edit of a render.
pub data Event : Type 0 where
  room_joined : JoinedEvent → Event
  presence_changed : List PeerInfo → Event
  operation_received : OperationEvent → Event
  snapshot_asked : String → Event
  snapshot_received : SnapshotEvent → Event
  channel_opened : Event
  transport_closed : Event
  timer_fired : Event
  document_edited : ChangeEvent → Event
  render_started : Event
  render_answered : RenderTask → Text → Bool → Event
  session_left : Event
  session_opened : SessionConfig → Text → Event

module _ (wasm : WasmModule) (net : CollaborationTransport) where
  abbrev M : Type 0
  M = Manager wasm net

  -- A new manager
  abbrev pub initial : String → M
  initial client_id = record {
    client_id = client_id;
    session = none;
    crdt = none;
    transport = none;
    connected = false;
    sync_ready = false;
    seed_sent = false;
    reconnect_timer = false;
    local_subscription = false;
    applying_remote_change_depth = 0;
    document_shadow_text = [];
    session_version = 0;
    offline_queue = [];
    pending_remote_operations = [];
    pending_snapshot_requests = [];
    peer_count = 0;
    snapshot_provider = none;
    snapshot_requested = false;
    sync_pending_warning_shown = false;
    status = idle;
    render_queue = [];
    document_text = [];
  }

  -- The manager while a queued render has been started
  abbrev pub started : RenderStart wasm net → M
  started (over r) = after wasm net r
  started (editing next_text m) = m

  -- The editor changes its text, and then tells whoever has subscribed.
  abbrev pub edited : Option SessionConfig → ChangeEvent → M → M
  edited none event m = m
  edited (some session) event m =
      if str_eq event.document_uri session.document_uri
      then record m { document_text = event.new_text }
      else m

  abbrev pub notify : ChangeEvent → M → M
  notify event m =
      if m.local_subscription
      then handle_local_document_change wasm net m.session m.crdt event m
      else m

  module _ (locale_after : String → String → Bool) where
    -- What one event makes of a manager. An error that leaves a handler is dropped with its promise.
    unfoldable pub step : Event → M → M
    step (room_joined event) m =
        after wasm net (handle_transport_joined wasm net m.session m.crdt event m)
    step (presence_changed peers) m = handle_presence wasm net locale_after m.session peers m
    step (operation_received event) m =
        after wasm net (handle_transport_operation wasm net m.session m.crdt event finish m).0
    step (snapshot_asked client_id) m = handle_snapshot_request wasm net m.crdt client_id m
    step (snapshot_received event) m = after wasm net (handle_snapshot wasm net m.session event m)
    step channel_opened m = request_p2p_snapshot_if_needed wasm net m.session m
    step transport_closed m = handle_transport_close wasm net m.session m
    step timer_fired m = if m.reconnect_timer then reconnect wasm net m else m
    step (document_edited event) m = notify event (edited m.session event m)
    step render_started m = started (begin_render wasm net m.render_queue m)
    step (render_answered task next_text accepted) m =
        after wasm net (end_render wasm net task next_text accepted m)
    step session_left m = leave_session wasm net m
    step (session_opened config text) m = connect wasm net config text m

    -- Events in order
    unfoldable pub run : List Event → M → M
    unfolding step
    run [] m = m
    run (event ∷ events) m = run events (step event m)
