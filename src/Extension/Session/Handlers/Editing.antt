-- ===== src/Extension/Session/Handlers/Editing.antt =====
-- src/extension/sessionManager.ts: local edits, and rendering remote ones.
use nettprogg_vsc.Common.{
  ◌+◌, ◌-◌, String, Text, List, [], ◌∷◌, Bool, true, not, ◌&&◌, Option, none, some, if◌then◌else◌,
  str_eq, ltb, ◌==◌,
}
use nettprogg_vsc.Crdt.{CrdtOperation}
use nettprogg_vsc.Crdt.Replica.{WasmModule, Outcome, returned, threw}
use nettprogg_vsc.Extension.DocumentAdapter.{TextChange, apply_text_changes, changes_to_operations}
use nettprogg_vsc.Transport.Interface.{CollaborationTransport}
use nettprogg_vsc.Extension.Session.{
  SessionConfig, finish, RenderTask, Manager, Run, ran, send_all, after,
}
use nettprogg_vsc.Extension.Session.Handlers.{text_eq, resume, render_crdt_to_document}

-- The URI of the document that was edited, its changes, and its text afterwards
pub record ChangeEvent : Type 0 where
  pub document_uri : String
  pub changes : List TextChange
  pub new_text : Text

module _ (wasm : WasmModule) (net : CollaborationTransport) where
  abbrev M : Type 0
  M = Manager wasm net

  abbrev R : Type 0
  R = Run wasm net

  -- `void this.renderCrdtToDocument()`
  abbrev pub render : M → M
  render m = after wasm net (render_crdt_to_document wasm net m.session m.crdt finish m)

  abbrev pub text_of : Option wasm.Instance → Text
  text_of none = []
  text_of (some i) = wasm.to_string i

  -- The operations of a local edit are sent. The `catch` block only warns.
  unfoldable pub share_edit : Text → Outcome wasm.Instance (List CrdtOperation) → M → M
  share_edit next (threw i) m = record m { crdt = some i }
  share_edit next (returned ops i) m =
      let m1 = send_all wasm net ops (record m { crdt = some i; document_shadow_text = next }) in
      if text_eq (text_of m1.crdt) m1.document_shadow_text then m1 else render m1

  -- The middle of the `try` block, with the shadow text after the changes: `none` was a RangeError.
  unfoldable pub translate_edit : wasm.Instance → ChangeEvent → Option Text → M → M
  unfolding share_edit
  translate_edit i event none m = m
  translate_edit i event (some next) m =
      if not (text_eq next event.new_text)
      then render m
      else share_edit next (changes_to_operations wasm event.changes i) m

  -- `handleLocalDocumentChange`. The editor has made the edit already.
  unfoldable pub handle_local_document_change :
      Option SessionConfig → Option wasm.Instance → ChangeEvent → M → M
  unfolding translate_edit
  handle_local_document_change (some session) (some i) event m =
      if ltb 0 m.applying_remote_change_depth
      then m
      else if not (str_eq event.document_uri session.document_uri)
      then m
      else if not m.sync_ready
      then record m { sync_pending_warning_shown = true }
      else if not (text_eq m.document_shadow_text (wasm.to_string i))
      then render m
      else translate_edit i event (apply_text_changes m.document_shadow_text event.changes) m
  handle_local_document_change _ _ event m = m

  -- The start of a queued render: over at once, or an edit of the document is under way.
  pub data RenderStart : Type 0 where
    over : R → RenderStart
    editing : Text → M → RenderStart

  unfoldable pub begin_on :
      RenderTask → Option SessionConfig → Option wasm.Instance → M → RenderStart
  begin_on task (some session) (some i) m =
      if not (m.session_version == task.version)
      then over (resume wasm net task.next m)
      else if not (str_eq session.document_uri task.document_uri)
      then over (resume wasm net task.next m)
      else (let next_text = wasm.to_string i in
          if text_eq m.document_text next_text
          then over (resume wasm net task.next (record m { document_shadow_text = next_text }))
          else editing next_text
              (record m { applying_remote_change_depth = m.applying_remote_change_depth + 1 }))
  begin_on task _ _ m = over (resume wasm net task.next m)

  -- The head of the render queue is started.
  unfoldable pub begin_render : List RenderTask → M → RenderStart
  unfolding begin_on
  begin_render [] m = over (ran m)
  begin_render (task ∷ tasks) m = begin_on task m.session m.crdt (record m { render_queue = tasks })

  -- The end of a render whose edit the editor has answered; an accepted edit has changed the
  -- document. The depth is `Math.max(0, depth - 1)`.
  unfoldable pub end_render : RenderTask → Text → Bool → M → R
  end_render task next_text accepted m =
      let m1 = if accepted then record m { document_text = next_text } else m in
      let m2 =
        if accepted && m1.session_version == task.version
        then record m1 { document_shadow_text = next_text }
        else m1 in
      resume wasm net task.next
        (record m2 { applying_remote_change_depth = m2.applying_remote_change_depth - 1 })
