-- ===== src/Extension/Session/Handlers/Joining.antt =====
-- src/extension/sessionManager.ts: joining, snapshots, presence, leaving and reconnecting.
use nettprogg_vsc.Common.{
  ◌+◌, String, Text, List, [], ◌∷◌, Bool, true, false, not, ◌&&◌, ◌||◌, Option, none, some,
  if◌then◌else◌, str_eq, ltb, length, map, filter, is_some,
}
use nettprogg_vsc.Common.Sort.{sort}
use nettprogg_vsc.Crdt.{CrdtOperation}
use nettprogg_vsc.Crdt.Replica.{WasmModule, Outcome, returned, threw}
use nettprogg_vsc.Transport.Interface.{CollaborationTransport, PeerInfo, JoinedEvent, SnapshotEvent}
use nettprogg_vsc.Extension.Session.{
  idle, syncing, connected, disconnected, SessionConfig, joined_rest, snapshot_rest, is_relay,
  Manager, Run, ran, raised, then_run, seed_crdt_from_document, flush_pending_snapshot_requests,
  request_p2p_snapshot_if_needed, transport_snapshot,
}
use nettprogg_vsc.Extension.Session.Handlers.{
  text_eq, is_applied, contains, first, add, set_state, resume_joined, render_crdt_to_document,
}

module _ (wasm : WasmModule) (net : CollaborationTransport) where
  abbrev M : Type 0
  M = Manager wasm net

  abbrev R : Type 0
  R = Run wasm net

  -- The first peer of a room: the branch of `handleTransportJoined` with no existing peer
  unfoldable pub found_room : M → R
  found_room m = then_run wasm net (seed_crdt_from_document wasm net m.session m.crdt m) λ m1. ran (
      set_state wasm net connected (
        flush_pending_snapshot_requests wasm net m1.crdt
          (record m1 { sync_ready = true; connected = true })))

  -- The branch with existing peers: the first of them is asked for a snapshot.
  unfoldable pub ask_room : String → M → R
  ask_room provider m = ran (
      set_state wasm net syncing (
        request_p2p_snapshot_if_needed wasm net m.session
          (record m { snapshot_provider = some provider; snapshot_requested = false })))

  unfoldable pub join_p2p : List String → M → R
  unfolding found_room ask_room
  join_p2p [] m = found_room m
  join_p2p (provider ∷ rest) m = ask_room provider m

  -- The loop over the operation log, which finds out whether anything changed.
  unfoldable pub apply_log : wasm.Instance → List CrdtOperation → Bool → Outcome wasm.Instance Bool
  apply_log i [] changed = returned changed i
  apply_log i (op ∷ ops) changed = elim (wasm.apply_operation i op) [
    | none ↦ threw i
    | some (result, i') ↦ apply_log i' ops (
        changed
        || (is_applied result.status
            || (ltb 0 result.drained || not (text_eq (wasm.to_string i) (wasm.to_string i')))))
  ]

  -- After the log: seed the room, render, or go on at once.
  unfoldable pub after_log : SessionConfig → List CrdtOperation → Bool → M → R
  after_log session [] changed m =
      if not m.seed_sent
      then then_run wasm net (seed_crdt_from_document wasm net m.session m.crdt m)
          (resume_joined wasm net)
      else if changed
      then render_crdt_to_document wasm net m.session m.crdt joined_rest m
      else resume_joined wasm net m
  after_log session (op ∷ ops) changed m =
      render_crdt_to_document wasm net m.session m.crdt joined_rest m

  unfoldable pub join_relay :
      SessionConfig → List CrdtOperation → Outcome wasm.Instance Bool → M → R
  unfolding after_log
  join_relay session log (threw i) m = raised (record m { crdt = some i })
  join_relay session log (returned changed i) m =
      after_log session log changed (record m { crdt = some i })

  -- `handleTransportJoined`
  unfoldable pub handle_transport_joined :
      Option SessionConfig → Option wasm.Instance → JoinedEvent → M → R
  unfolding join_p2p join_relay apply_log
  handle_transport_joined (some session) (some i) event m =
      let m1 = record m { peer_count = length event.peers } in
      if is_relay session.transport_mode
      then join_relay session event.op_log (apply_log i event.op_log false) m1
      else join_p2p event.existing_peer_ids m1
  handle_transport_joined _ _ event m = ran m

  -- `handleSnapshotRequest`
  unfoldable pub handle_snapshot_request : Option wasm.Instance → String → M → M
  handle_snapshot_request none client_id m = m
  handle_snapshot_request (some i) client_id m =
      if not m.sync_ready
      then record m { pending_snapshot_requests = add client_id m.pending_snapshot_requests }
      else record m {
        transport = transport_snapshot wasm net m.transport client_id (wasm.snapshot i);
      }

  -- `handleSnapshot` with the replica that the snapshot gives, up to its first `await`
  unfoldable pub adopt_snapshot : Option wasm.Instance → M → R
  adopt_snapshot none m = raised m
  adopt_snapshot (some i) m =
      let m1 = record m { crdt = some i; sync_ready = true; connected = true; seed_sent = true } in
      let m2 = flush_pending_snapshot_requests wasm net m1.crdt m1 in
      render_crdt_to_document wasm net m2.session m2.crdt snapshot_rest m2

  -- `handleSnapshot`
  unfoldable pub handle_snapshot : Option SessionConfig → SnapshotEvent → M → R
  unfolding adopt_snapshot
  handle_snapshot none event m = ran m
  handle_snapshot (some session) event m =
      if is_relay session.transport_mode || m.sync_ready
      then ran m
      else adopt_snapshot (wasm.from_snapshot event.snapshot m.client_id) m

  -- `scheduleReconnect`
  unfoldable pub schedule_reconnect : M → M
  schedule_reconnect m = if is_some m.session then record m { reconnect_timer = true } else m

  -- `handleTransportClose`
  unfoldable pub handle_transport_close : Option SessionConfig → M → M
  unfolding schedule_reconnect
  handle_transport_close none m = m
  handle_transport_close (some session) m =
      if is_relay session.transport_mode
      then schedule_reconnect (record m { connected = false; status = disconnected })
      else record m { status = if m.sync_ready then connected else disconnected }

  -- `openTransport`, with the transport that `createTransport` makes. The transport before it is
  -- closed and forgotten, and nothing of it is left in the state.
  unfoldable pub open_transport : Option SessionConfig → M → M
  open_transport none m = m
  open_transport (some session) m = record m {
    reconnect_timer = false;
    transport =
        some
          (net.connect session.transport_mode session.connection_url session.room_id m.client_id);
    status = syncing;
  }

  -- The reconnect timer
  unfoldable pub reconnect : M → M
  unfolding open_transport
  reconnect m = open_transport m.session (record m { reconnect_timer = false })

  -- `leaveSession`, which closes the transport and forgets it. The promise chain starts anew, but
  -- renders that wait in the old one still run, and find that the version is another.
  unfoldable pub leave_session : M → M
  leave_session m = record m {
    reconnect_timer = false;
    session_version = m.session_version + 1;
    local_subscription = false;
    transport = none;
    connected = false;
    sync_ready = false;
    session = none;
    crdt = none;
    applying_remote_change_depth = 0;
    document_shadow_text = [];
    offline_queue = [];
    pending_remote_operations = [];
    pending_snapshot_requests = [];
    seed_sent = false;
    peer_count = 0;
    snapshot_provider = none;
    snapshot_requested = false;
    sync_pending_warning_shown = false;
    status = idle;
  }

  -- `connect`, for a document with the given text
  unfoldable pub connect : SessionConfig → Text → M → M
  unfolding leave_session open_transport
  connect config text m =
      let m1 = leave_session m in
      open_transport (some config) (record m1 {
        session_version = m1.session_version + 1;
        session = some config;
        crdt = some (wasm.create m1.client_id);
        document_shadow_text = text;
        document_text = text;
        local_subscription = true;
        status = syncing;
      })

module _ (wasm : WasmModule) (net : CollaborationTransport)
    (locale_after : String → String → Bool) where
  -- The peers that may give a snapshot, in order: `candidates` of `handlePresence`
  unfoldable pub snapshot_candidates : String → List PeerInfo → List String
  snapshot_candidates client_id peers =
      sort locale_after (filter (λ id. not (str_eq id client_id)) (map (λ p. p.client_id) peers))

  abbrev pub is_candidate : Option String → List String → Bool
  is_candidate none ids = false
  is_candidate (some id) ids = not (str_eq id "") && contains id ids

  -- The choice of another provider where the present one is gone
  unfoldable pub choose_provider : List String → Manager wasm net → Manager wasm net
  choose_provider candidates m =
      if is_candidate m.snapshot_provider candidates
      then m
      else request_p2p_snapshot_if_needed wasm net m.session
          (record m { snapshot_provider = first candidates; snapshot_requested = false })

  -- `handlePresence`
  unfoldable pub handle_presence :
      Option SessionConfig → List PeerInfo → Manager wasm net → Manager wasm net
  unfolding choose_provider
  handle_presence none peers m = m
  handle_presence (some session) peers m =
      let m1 = record m { peer_count = length peers } in
      let m2 =
        if not (is_relay session.transport_mode) && not m.sync_ready
        then choose_provider (snapshot_candidates m.client_id peers) m1
        else m1 in
      record m2 { status = if m2.connected || m2.sync_ready then connected else syncing }
