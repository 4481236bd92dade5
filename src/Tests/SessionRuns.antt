-- ===== src/Tests/SessionRuns.antt =====
-- Runs of the session manager.
use mathlib.Core.List.{Perm}
use nettprogg_vsc.Common.{
  arith, Text, List, [], ◌∷◌, ◌++◌, Bool, true, false, some, none, ◌≡◌, refl,
}
use nettprogg_vsc.Common.Int.{pos}
use nettprogg_vsc.Crdt.{CrdtOperation}
use nettprogg_vsc.Crdt.Replica.{WasmModule, returned}
use nettprogg_vsc.Transport.Interface.{
  CollaborationTransport, TransportMode, relay, p2p, OperationEvent, SnapshotEvent,
}
use nettprogg_vsc.Transport.Relay
use nettprogg_vsc.Transport.Relay.{RelayTransport, ClientMessage, join, relay_transport}
use nettprogg_vsc.Transport.Sockets.{SocketLibrary}
use nettprogg_vsc.Transport.Relay.Delivery.{operations_of, accepted_on}
use nettprogg_vsc.Extension.Session.Flushing.{HasSent, flush_offline_queue-delivers}
use nettprogg_vsc.Extension.DocumentAdapter.{
  TextChange, apply_change, apply_sorted, apply_text_changes, changes_to_operations,
}
use nettprogg_vsc.Extension.Session.{
  ConnectionState, SessionConfig, Manager, raised, ran, after, send_all, flush_offline_queue,
}
use nettprogg_vsc.Extension.Session.Outbox.{
  outgoing, send_all-conserves, flush_offline_queue_rejected,
}
use nettprogg_vsc.Extension.Session.Handlers.{resume_joined, replay_operations}
use nettprogg_vsc.Extension.Session.Handlers.Joining.{leave_session, connect, handle_snapshot}
use nettprogg_vsc.Extension.Session.Handlers.Editing.{handle_local_document_change}
use nettprogg_vsc.Extension.Session.Sharing.{Shared, handle_local_document_change-shares}
use nettprogg_vsc.Extension.Session.Events.{
  Event, room_joined, operation_received, transport_closed, timer_fired, session_opened, initial,
  run,
}
use nettprogg_vsc.Extension.Session.Consistency.{IsConsistent, Fits}
use nettprogg_vsc.Extension.Session.Consistency.Steps.{run-IsConsistent, run-leave_session}
use nettprogg_vsc.Extension.Session.Races.{
  resume_joined-leave_session, resume_joined-connect, replay_operations_refused,
}
use nettprogg_vsc.Tests.Doubles.{
  text_module, text_module-EditsText, one_answer, one_answer-Accepts, insertion, deletion,
  list_socket, list_socket-IsOrdered,
}

abbrev pub room : TransportMode → SessionConfig
room mode = record {
  room_id = "r";
  transport_mode = mode;
  connection_url = "ws://localhost";
  document_uri = "file:///a";
  seed_text = [];
}

abbrev pub text : Text
text = 97 ∷ 98 ∷ []

abbrev pub op : CrdtOperation
op = CrdtOperation.insert (insertion (99 ∷ []))

-- In a room, ready, with one operation queued
abbrev on_module :
    (wasm : WasmModule)
    → wasm.Instance
    → (net : CollaborationTransport) → net.State
    → TransportMode
    → Manager wasm net
on_module wasm i net t mode = record {
  client_id = "a";
  session = some (room mode);
  crdt = some i;
  transport = some t;
  connected = true;
  sync_ready = true;
  seed_sent = true;
  reconnect_timer = false;
  local_subscription = true;
  applying_remote_change_depth = 0;
  document_shadow_text = text;
  session_version = 2;
  offline_queue = op ∷ [];
  pending_remote_operations = [];
  pending_snapshot_requests = [];
  peer_count = 1;
  snapshot_provider = none;
  snapshot_requested = false;
  sync_pending_warning_shown = false;
  status = ConnectionState.connected;
  render_queue = [];
  document_text = text;
}

abbrev pub on : (net : CollaborationTransport) → net.State → TransportMode → Manager text_module net
on net t mode = on_module text_module text net t mode

-- The same over a transport that gives one answer
abbrev manager : (answer : Bool) → TransportMode → Manager text_module (one_answer answer)
manager answer mode = on (one_answer answer) [] mode

send_all-conserves_example :
    Perm
      (outgoing text_module
        (one_answer true)
        (one_answer-Accepts true)
        (send_all text_module (one_answer true) (op ∷ op ∷ []) (manager true relay)))
      (op ∷ op ∷ op ∷ [])
send_all-conserves_example =
    send_all-conserves text_module (one_answer true) (one_answer-Accepts true) (room relay)
      (op ∷ op ∷ []) (manager true relay) refl refl

-- A relay transport whose socket is not open
abbrev shut_socket : SocketLibrary ClientMessage
shut_socket = record list_socket { is_open = λ s. false }

abbrev offline : Manager text_module (relay_transport shut_socket)
offline =
    on (relay_transport shut_socket)
      (Relay.connect shut_socket (Relay.create shut_socket "ws://localhost" "r" "a")) relay

flush_offline_queue_rejected_example :
    (flush_offline_queue text_module
      (relay_transport shut_socket)
      (some (room relay))
      offline).offline_queue
    ≡ op ∷ []
unfolding Relay.send_operation Relay.send_raw Relay.connect
flush_offline_queue_rejected_example =
    flush_offline_queue_rejected text_module (relay_transport shut_socket) (room relay) offline refl
      refl (λ o except. refl)

-- "x" is typed behind "a".
abbrev pub typed : TextChange
typed = record { range_offset = pos 1; range_length = pos 0; text = 120 ∷ [] }

handle_local_document_change-shares_example :
    (ops : List CrdtOperation) × (i' : Text) × (changes_to_operations text_module (typed ∷ []) text
      ≡ returned ops i')
    × Shared text_module
        (one_answer true)
        (manager true relay)
        (handle_local_document_change text_module
          (one_answer true)
          (some (room relay))
          (some text)
          (record {
            document_uri = "file:///a";
            changes = typed ∷ [];
            new_text = 97 ∷ 120 ∷ 98 ∷ [];
          })
          (manager true relay))
        (97 ∷ 120 ∷ 98 ∷ [])
        i'
        ops
unfolding apply_text_changes apply_sorted apply_change
handle_local_document_change-shares_example =
    handle_local_document_change-shares text_module (one_answer true) text_module-EditsText
      (manager true relay) (room relay) text (typed ∷ []) (97 ∷ 120 ∷ 98 ∷ [])
      (record { in_session = refl; has_crdt = refl; ready = refl; quiet = refl; in_step = refl })
      (omega arith, tt) (refl, (refl, tt)) ((refl, tt), tt) refl

-- A replica that puts what is inserted at the end, as one does that is not current
abbrev lagging_module : WasmModule
lagging_module = record text_module {
  insert = λ i index new. some (CrdtOperation.insert (insertion new) ∷ [], i ++ new);
}

abbrev lagging : Manager lagging_module (one_answer true)
lagging = on_module lagging_module text (one_answer true) [] relay

resume_joined-leave_session_example :
    let r =
      resume_joined text_module
        (one_answer true)
        (leave_session text_module (one_answer true) (manager true relay)) in
    (r ≡ raised (after text_module (one_answer true) r))
    × ((after text_module (one_answer true) r).session ≡ none)
    × ((after text_module (one_answer true) r).sync_ready ≡ true)
    × ((after text_module (one_answer true) r).connected ≡ true)
resume_joined-leave_session_example =
    resume_joined-leave_session text_module (one_answer true) (manager true relay)

abbrev snapshot : SnapshotEvent
snapshot = record { snapshot = text_module.snapshot text; source_client_id = none }

resume_joined-connect_example :
    let m' = after text_module (one_answer true) (
      resume_joined text_module
        (one_answer true)
        (connect text_module (one_answer true) (room p2p) text (manager true relay))) in
    (m'.sync_ready ≡ true)
    × (m'.crdt ≡ some [])
    × (handle_snapshot text_module (one_answer true) m'.session snapshot m' ≡ ran m')
resume_joined-connect_example =
    resume_joined-connect text_module (one_answer true) (manager true relay) (room p2p) text
      snapshot refl

-- A deletion is refused; the operation behind it is not applied.
abbrev refused : OperationEvent
refused = record { op = CrdtOperation.delete deletion; source_client_id = none }

abbrev behind : OperationEvent
behind = record { op = op; source_client_id = none }

replay_operations_refused_example :
    replay_operations text_module (one_answer true) (refused ∷ behind ∷ []) (manager true p2p)
    ≡ raised (manager true p2p)
replay_operations_refused_example =
    replay_operations_refused text_module (one_answer true) (manager true p2p) (room p2p) text
      refused (behind ∷ []) refl refl refl refl

-- Joining a room that is empty, an operation, and a lost connection
abbrev events : List Event
events =
    session_opened (room relay) text
    ∷ room_joined
        (record { room_id = "r"; client_id = "a"; peers = []; existing_peer_ids = []; op_log = [] })
    ∷ operation_received behind
    ∷ transport_closed
    ∷ []

run-IsConsistent_example : IsConsistent text_module (one_answer true) (
    run text_module
      (one_answer true)
      (λ a b. false)
      events
      (initial text_module (one_answer true) "a"))
run-IsConsistent_example = run-IsConsistent text_module (one_answer true) (λ a b. false) events "a"

run-leave_session_example :
    let m' =
      run text_module
        (one_answer true)
        (λ a b. false)
        (operation_received behind ∷ transport_closed ∷ timer_fired ∷ [])
        (leave_session text_module (one_answer true) (manager true relay)) in
    (m'.session ≡ none) × Fits text_module (one_answer true) none m'
run-leave_session_example =
    run-leave_session text_module (one_answer true) (λ a b. false)
      (operation_received behind ∷ transport_closed ∷ timer_fired ∷ []) (manager true relay)
      (refl, (refl, (refl, tt)))

-- A relay transport with an open socket, on which the room was joined
abbrev open_relay : RelayTransport list_socket
open_relay = record {
  server_url = "ws://localhost";
  room_id = "r";
  client_id = "a";
  socket = some (join "r" "a" ∷ []);
  disposed = false;
  closed_sockets = [];
}

flush_offline_queue-delivers_example :
    HasSent text_module list_socket list_socket-IsOrdered
      (flush_offline_queue text_module
        (relay_transport list_socket)
        (some (room relay))
        (on (relay_transport list_socket) open_relay relay))
      (op ∷ [])
unfolding operations_of accepted_on
flush_offline_queue-delivers_example =
    flush_offline_queue-delivers text_module list_socket list_socket-IsOrdered
      (on (relay_transport list_socket) open_relay relay) (room relay) open_relay refl refl refl
      refl
