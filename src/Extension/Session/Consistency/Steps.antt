-- ===== src/Extension/Session/Consistency/Steps.antt =====
-- src/extension/sessionManager.ts: consistency under events and sequences of them.
use nettprogg_vsc.Common.{
  String, Text, List, [], ◌∷◌, Bool, true, false, none, ◌≡◌, refl, ◌∙◌, branches, All, subst,
}
use nettprogg_vsc.Crdt.Replica.{WasmModule}
use nettprogg_vsc.Transport.Interface.{CollaborationTransport, TransportMode, relay, p2p}
use nettprogg_vsc.Extension.Session.{SessionConfig, finish, Manager}
use nettprogg_vsc.Extension.Session.Consistency.{
  IsConsistent, Fits, FitsMode, Keeps, Keeps-refl, Keeps-IsConsistent,
}
use nettprogg_vsc.Extension.Session.Consistency.Helpers.{request-Keeps}
use nettprogg_vsc.Extension.Session.Consistency.Resuming.{handle_operation-Keeps}
use nettprogg_vsc.Extension.Session.Consistency.Joining.{
  joined-Keeps, snapshot_request-Keeps, snapshot-Keeps, close-Keeps, reconnect-Keeps,
  presence-Keeps,
}
use nettprogg_vsc.Extension.Session.Consistency.Editing.{
  document_edited-Keeps, begin_render-Keeps, end_render-Keeps,
}
use nettprogg_vsc.Extension.Session.Handlers.Joining.{leave_session, connect, open_transport}
use nettprogg_vsc.Extension.Session.Events.{
  Event, room_joined, presence_changed, operation_received, snapshot_asked, snapshot_received,
  channel_opened, transport_closed, timer_fired, document_edited, render_started, render_answered,
  session_left, session_opened, initial, step, run,
}

-- Leaving a session and opening one
abbrev pub ends_session : Event → Bool
ends_session session_left = true
ends_session (session_opened config text) = true
ends_session _ = false

abbrev pub opens_session : Event → Bool
opens_session (session_opened config text) = true
opens_session _ = false

module _ (wasm : WasmModule) (net : CollaborationTransport)
    (locale_after : String → String → Bool) where
  abbrev M : Type 0
  M = Manager wasm net

  step-Keeps :
      (event : Event) (m : M)
      → ends_session event ≡ false
      → Keeps wasm net m (step wasm net locale_after event m)
  unfolding step
  step-Keeps (room_joined event) m h = joined-Keeps wasm net m.session m.crdt event m refl
  step-Keeps (presence_changed peers) m h = presence-Keeps wasm net locale_after m.session peers m
  step-Keeps (operation_received event) m h =
      handle_operation-Keeps wasm net m.session m.crdt event finish m refl
  step-Keeps (snapshot_asked client_id) m h = snapshot_request-Keeps wasm net m.crdt client_id m
  step-Keeps (snapshot_received event) m h = snapshot-Keeps wasm net m.session event m refl
  step-Keeps channel_opened m h = request-Keeps wasm net m.session m
  step-Keeps transport_closed m h = close-Keeps wasm net m.session m refl
  step-Keeps timer_fired m h =
      branches (Keeps wasm net m) m.reconnect_timer (λ _. reconnect-Keeps wasm net m)
        (λ _. Keeps-refl wasm net m)
  step-Keeps (document_edited event) m h = document_edited-Keeps wasm net event m
  step-Keeps render_started m h = begin_render-Keeps wasm net m.render_queue m
  step-Keeps (render_answered task next_text accepted) m h =
      end_render-Keeps wasm net task next_text accepted m
  step-Keeps session_left m h = cc
  step-Keeps (session_opened config text) m h = cc

  leave-IsConsistent : (m : M) → IsConsistent wasm net (leave_session wasm net m)
  unfolding leave_session
  leave-IsConsistent m = (refl, refl, refl, refl, refl)

  fits_anew :
      (mode : TransportMode) (m : M)
      → m.offline_queue ≡ []
      → m.pending_remote_operations ≡ []
      → m.reconnect_timer ≡ false
      → FitsMode wasm net mode m
  fits_anew relay m q p t = p
  fits_anew p2p m q p t = (q, t)

  connect-IsConsistent :
      (config : SessionConfig) (text : Text) (m : M)
      → IsConsistent wasm net (connect wasm net config text m)
  unfolding connect leave_session open_transport
  connect-IsConsistent config text m = (refl, fits_anew config.transport_mode _ refl refl refl)

  -- Whatever happens to a consistent manager, it is consistent afterwards.
  pub step-IsConsistent :
      (event : Event) (m : M)
      → IsConsistent wasm net m
      → IsConsistent wasm net (step wasm net locale_after event m)
  unfolding step
  step-IsConsistent session_left m h = leave-IsConsistent m
  step-IsConsistent (session_opened config text) m h = connect-IsConsistent config text m
  step-IsConsistent event m h = Keeps-IsConsistent wasm net (step-Keeps event m refl) h

  keeps_IsConsistent :
      (events : List Event) (m : M)
      → IsConsistent wasm net m
      → IsConsistent wasm net (run wasm net locale_after events m)
  unfolding run
  keeps_IsConsistent [] m h = h
  keeps_IsConsistent (event ∷ events) m h =
      keeps_IsConsistent events (step wasm net locale_after event m) (step-IsConsistent event m h)

  -- Whatever events come, in whatever order, a manager that began as a new one is consistent:
  -- without a session it has no replica, no transport, nothing queued or held back and no
  -- reconnection scheduled; in a session it has a replica, a relay session holds no operation
  -- back, and a peer-to-peer session queues none and schedules no reconnection.
  pub run-IsConsistent :
      (events : List Event) (client_id : String)
      → IsConsistent wasm net (run wasm net locale_after events (initial wasm net client_id))
  run-IsConsistent events client_id =
      keeps_IsConsistent events (initial wasm net client_id) (refl, refl, refl, refl, refl)

  step-session :
      (event : Event) (m : M)
      → opens_session event ≡ false
      → m.session ≡ none
      → (step wasm net locale_after event m).session ≡ none
  unfolding step leave_session
  step-session session_left m h e = refl
  step-session (session_opened config text) m h e = cc
  step-session event m h e = (step-Keeps event m refl).session ∙ e

  run-session :
      (events : List Event) (m : M)
      → All (λ event. opens_session event ≡ false) events
      → m.session ≡ none
      → (run wasm net locale_after events m).session ≡ none
  unfolding run
  run-session [] m h e = e
  run-session (event ∷ events) m (h, hs) e =
      run-session events (step wasm net locale_after event m) hs (step-session event m h e)

  -- After a session is left, whatever still arrives for it, and from however many earlier
  -- sessions, leaves the manager without session, replica and transport, with nothing queued or
  -- held back and no reconnection scheduled, until another session is opened.
  pub run-leave_session :
      (events : List Event) (m : M)
      → All (λ event. opens_session event ≡ false) events
      → let m' = run wasm net locale_after events (leave_session wasm net m) in
        (m'.session ≡ none) × Fits wasm net none m'
  unfolding leave_session
  run-leave_session events m h =
      let m' : M = run wasm net locale_after events (leave_session wasm net m) in
      let e : m'.session ≡ none = run-session events (leave_session wasm net m) h refl in
      (
        e,
        subst (λ o. Fits wasm net o m') e
            (keeps_IsConsistent events (leave_session wasm net m) (leave-IsConsistent m)),
      )
