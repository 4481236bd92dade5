-- ===== src/Extension/Session.antt =====
-- src/extension/sessionManager.ts: the state of a `SessionManager` and its small operations.
-- Log lines, notifications and the local server's process are left out. What a handler does up
-- to an `await` is one function; what follows the `await` of a render is a `Continuation` in the
-- render's task.
pub mod Handlers
pub mod Events
pub mod Outbox
pub mod Flushing
pub mod Sharing
pub mod Diverging
pub mod Races
pub mod Consistency
pub mod Opening
pub mod Spreading
use nettprogg_vsc.Common.{
  ℕ, suc, String, Text, List, [], ◌∷◌, ◌++◌, Bool, true, false, not, ◌&&◌, Option, none, some,
  if◌then◌else◌, str_eq,
}
use nettprogg_vsc.Common.Int.{pos}
use nettprogg_vsc.Crdt.{CrdtOperation, TextCrdtSnapshot}
use nettprogg_vsc.Crdt.Replica.{WasmModule, Outcome, returned, threw, insert_text}
use nettprogg_vsc.Extension.DocumentAdapter.{wrapped}
use nettprogg_vsc.Transport.Interface.{
  CollaborationTransport, TransportMode, relay, p2p, OperationEvent,
}

-- statusBar.ts, `ConnectionState`
pub data ConnectionState : Type 0 where
  idle syncing connected disconnected : ConnectionState

-- `SessionConfig`; a document is named by its URI
pub record SessionConfig : Type 0 where
  pub room_id : String
  pub transport_mode : TransportMode
  pub connection_url : String
  pub document_uri : String
  pub seed_text : Text

-- What a handler still does once the render that it awaits is over: nothing, the end of
-- `handleTransportJoined`, the end of `handleSnapshot`, or the rest of that one's loop.
pub data Continuation : Type 0 where
  finish : Continuation
  joined_rest : Continuation
  snapshot_rest : Continuation
  replay : List OperationEvent → Continuation

-- A render that waits in `renderQueue`
pub record RenderTask : Type 0 where
  pub version : ℕ
  pub document_uri : String
  pub next : Continuation

abbrev pub is_relay : TransportMode → Bool
is_relay relay = true
is_relay p2p = false

module _ (wasm : WasmModule) (net : CollaborationTransport) where
  pub record Manager : Type 0 where
    pub client_id : String
    pub session : Option SessionConfig
    pub crdt : Option wasm.Instance
    pub transport : Option net.State
    pub connected : Bool
    pub sync_ready : Bool
    pub seed_sent : Bool
    pub reconnect_timer : Bool
    pub local_subscription : Bool
    pub applying_remote_change_depth : ℕ
    pub document_shadow_text : Text
    pub session_version : ℕ
    pub offline_queue : List CrdtOperation
    pub pending_remote_operations : List OperationEvent
    pub pending_snapshot_requests : List String
    pub peer_count : ℕ
    pub snapshot_provider : Option String
    pub snapshot_requested : Bool
    pub sync_pending_warning_shown : Bool
    pub status : ConnectionState
    pub render_queue : List RenderTask
    -- the text of the session's document in the editor
    pub document_text : Text

  -- A handler returns, or an error leaves it and the state stays as it was then.
  pub data Run : Type 0 where
    ran : Manager → Run
    raised : Manager → Run

  abbrev pub after : Run → Manager
  after (ran m) = m
  after (raised m) = m

  -- What follows a call that may throw
  abbrev pub then_run : Run → (Manager → Run) → Run
  then_run (ran m) f = f m
  then_run (raised m) f = raised m

  -- `this.transport?.sendOperation(op, except) ?? false`, and so for the two below
  abbrev pub transport_send :
      Option net.State → CrdtOperation → Option String → Bool × Option net.State
  transport_send none op except = (false, none)
  transport_send (some t) op except = let r = net.send_operation t op except in (r.0, some r.1)

  abbrev pub transport_request : Option net.State → Option String → Bool × Option net.State
  transport_request none provider = (false, none)
  transport_request (some t) provider = let r = net.request_snapshot t provider in (r.0, some r.1)

  abbrev pub transport_snapshot : Option net.State → String → TextCrdtSnapshot → Option net.State
  transport_snapshot none client_id snapshot = none
  transport_snapshot (some t) client_id snapshot = some (net.send_snapshot t client_id snapshot).1

  -- `sendOperation` in a session
  pub send_in : SessionConfig → CrdtOperation → Manager → Manager
  send_in session op m =
      let r = transport_send m.transport op none in
      if not r.0 && is_relay session.transport_mode
      then record m {
        transport = r.1;
        offline_queue = m.offline_queue ++ op ∷ [];
        status = disconnected;
      }
      else record m { transport = r.1 }

  -- `sendOperation`
  pub send_operation : Option SessionConfig → CrdtOperation → Manager → Manager
  unfolding send_in
  send_operation none op m = m
  send_operation (some session) op m = send_in session op m

  -- `for (const op of ops) this.sendOperation(op)`
  pub send_all : List CrdtOperation → Manager → Manager
  unfolding send_operation
  send_all [] m = m
  send_all (op ∷ ops) m = send_all ops (send_operation m.session op m)

  -- `flushOfflineQueue`
  pub flush_offline_queue : Option SessionConfig → Manager → Manager
  unfolding send_all
  flush_offline_queue none m = m
  flush_offline_queue (some session) m =
      if is_relay session.transport_mode
      then send_all m.offline_queue (record m { offline_queue = [] })
      else m

  -- The end of `seedCrdtFromDocument`: the insertion of the document's text.
  pub seed_with : Outcome wasm.Instance (List CrdtOperation) → Manager → Run
  unfolding send_all
  seed_with (threw i) m = raised (record m { crdt = some i })
  seed_with (returned ops i) m = ran (send_all ops (record m { crdt = some i }))

  pub seed_text : Text → wasm.Instance → Manager → Run
  unfolding seed_with
  seed_text [] i m = ran m
  seed_text (c ∷ text) i m =
      seed_with (wrapped CrdtOperation.insert (insert_text wasm i (pos 0) (c ∷ text))) m

  -- `seedCrdtFromDocument`
  pub seed_crdt_from_document : Option SessionConfig → Option wasm.Instance → Manager → Run
  unfolding seed_text
  seed_crdt_from_document (some session) (some i) m =
      if m.seed_sent then ran m else seed_text session.seed_text i (record m { seed_sent = true })
  seed_crdt_from_document _ _ m = ran m

  -- The loop of `flushPendingSnapshotRequests`
  pub send_snapshots : wasm.Instance → List String → Manager → Manager
  send_snapshots i [] m = m
  send_snapshots i (client_id ∷ ids) m =
      send_snapshots i ids
        (record m { transport = transport_snapshot m.transport client_id (wasm.snapshot i) })

  -- `flushPendingSnapshotRequests`
  pub flush_pending_snapshot_requests : Option wasm.Instance → Manager → Manager
  unfolding send_snapshots
  flush_pending_snapshot_requests none m = m
  flush_pending_snapshot_requests (some i) m =
      if m.sync_ready
      then send_snapshots i m.pending_snapshot_requests
          (record m { pending_snapshot_requests = [] })
      else m

  -- `requestP2PSnapshotIfNeeded`
  pub request_p2p_snapshot_if_needed : Option SessionConfig → Manager → Manager
  request_p2p_snapshot_if_needed none m = m
  request_p2p_snapshot_if_needed (some session) m =
      if is_relay session.transport_mode
      then m
      else if m.sync_ready
      then m
      else if m.snapshot_requested
      then m
      else (let r = transport_request m.transport m.snapshot_provider in
          record m { transport = r.1; snapshot_requested = r.0 })
