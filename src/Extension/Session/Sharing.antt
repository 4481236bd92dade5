-- ===== src/Extension/Session/Sharing.antt =====
-- src/extension/sessionManager.ts, `handleLocalDocumentChange`: editor, shadow text and replica.
use nettprogg_vsc.Common.{
  Text, List, [], ◌∷◌, true, false, not, some, ◌≡◌, refl, ap, ◌∙◌, All, str_eq, eq_refl, ltb,
  ==_iff,
}
use nettprogg_vsc.Crdt.{CrdtOperation}
use nettprogg_vsc.Crdt.Replica.{WasmModule, EditsText, IsPlain, IsCurrent, returned}
use nettprogg_vsc.Extension.DocumentAdapter.{TextChange, apply_text_changes, changes_to_operations}
use nettprogg_vsc.Extension.DocumentAdapter.Agreement.{changes_to_operations-agrees}
use nettprogg_vsc.Transport.Interface.{CollaborationTransport}
use nettprogg_vsc.Extension.Session.{SessionConfig, Manager, send_all}
use nettprogg_vsc.Extension.Session.Outbox.{send_all-SameSession}
use nettprogg_vsc.Extension.Session.Handlers.{text_eq}
use nettprogg_vsc.Extension.Session.Handlers.Editing.{
  ChangeEvent, handle_local_document_change, translate_edit, share_edit,
}

text_eq_refl : (s : Text) → text_eq s s ≡ true
text_eq_refl [] = refl
text_eq_refl (a ∷ s) = rw ((==_iff a a).1 refl) (text_eq_refl s)

module _ (wasm : WasmModule) (net : CollaborationTransport) where
  abbrev M : Type 0
  M = Manager wasm net

  -- The state in which an edit is shared: the session is ready, nothing remote is being rendered,
  -- and the shadow text is the replica's.
  pub record CanShare (m : M) (session : SessionConfig) (i : wasm.Instance) : Type 0 where
    pub in_session : m.session ≡ some session
    pub has_crdt : m.crdt ≡ some i
    pub ready : m.sync_ready ≡ true
    pub quiet : m.applying_remote_change_depth ≡ 0
    pub in_step : m.document_shadow_text ≡ wasm.to_string i

  -- The state after an edit was shared as `ops`: the replica, which is still current,
  -- and the shadow text have the editor's new text, all operations were handed to the transport, and nothing waits to be rendered anew.
  pub record Shared (m m' : M) (new_text : Text) (i : wasm.Instance) (ops : List CrdtOperation)
      : Type 0 where
    pub sent :
        m' ≡ send_all wasm net ops (record m { crdt = some i; document_shadow_text = new_text })
    pub replica : m'.crdt ≡ some i
    pub replica_text : wasm.to_string i ≡ new_text
    pub still_current : IsCurrent wasm i
    pub shadow : m'.document_shadow_text ≡ new_text
    pub renders : m'.render_queue ≡ m.render_queue

  share_edit_lem :
      (m : M) (i : wasm.Instance) (ops : List CrdtOperation) (new_text : Text)
      → wasm.to_string i ≡ new_text
      → share_edit wasm net new_text (returned ops i) m
        ≡ send_all wasm net ops (record m { crdt = some i; document_shadow_text = new_text })
  unfolding share_edit
  share_edit_lem m i ops new_text e =
      let m1 : M = record m { crdt = some i; document_shadow_text = new_text } in
      let same = send_all-SameSession wasm net ops m1 in
      rw (same.crdt, same.shadow, e, text_eq_refl new_text)

  shared_run :
      (m : M) (session : SessionConfig) (i i' : wasm.Instance) (ops : List CrdtOperation)
      (event : ChangeEvent) (new_text : Text)
      → CanShare m session i
      → changes_to_operations wasm event.changes i ≡ returned ops i'
      → apply_text_changes (wasm.to_string i) event.changes ≡ some new_text
      → str_eq event.document_uri session.document_uri ≡ true
      → text_eq new_text event.new_text ≡ true
      → handle_local_document_change wasm net (some session) (some i) event m
        ≡ share_edit wasm net new_text (returned ops i') m
  unfolding handle_local_document_change translate_edit
  shared_run m session i i' ops event new_text can translated e uri new =
      let quiet : ltb 0 m.applying_remote_change_depth ≡ false = rw can.quiet in
      let ready : not m.sync_ready ≡ false = ap not can.ready in
      let in_step : text_eq m.document_shadow_text (wasm.to_string i) ≡ true =
        ap (λ s. text_eq s (wasm.to_string i)) can.in_step ∙ text_eq_refl (wasm.to_string i) in
      let edited : apply_text_changes m.document_shadow_text event.changes ≡ some new_text =
        ap (λ s. apply_text_changes s event.changes) can.in_step ∙ e in
      rw (quiet, uri, ready, in_step, edited, new, translated)

  -- The same for an edit of the session's document
  pub handled :
      (m : M) (session : SessionConfig) (i i' : wasm.Instance) (ops : List CrdtOperation)
      (changes : List TextChange) (new_text : Text)
      → CanShare m session i
      → changes_to_operations wasm changes i ≡ returned ops i'
      → apply_text_changes (wasm.to_string i) changes ≡ some new_text
      → handle_local_document_change wasm net m.session m.crdt
          (record { document_uri = session.document_uri; changes = changes; new_text = new_text })
          m
        ≡ share_edit wasm net new_text (returned ops i') m
  handled m session i i' ops changes new_text can translated e =
      let event : ChangeEvent = record {
        document_uri = session.document_uri;
        changes = changes;
        new_text = new_text;
      } in
      ap (λ c. handle_local_document_change wasm net c m.crdt event m) can.in_session
      ∙ ap (λ c. handle_local_document_change wasm net (some session) c event m) can.has_crdt
      ∙ shared_run m session i i' ops event new_text can translated e (eq_refl session.document_uri)
          (text_eq_refl new_text)

  module _ (law : EditsText wasm) where
    -- An edit of the session's document that turns its text into `new_text`, in a state where it
    -- can be shared, with a replica that is current and with no surrogates about, is shared: the
    -- operations exist, and editor, shadow text and replica agree afterwards.
    pub handle_local_document_change-shares :
        (m : M) (session : SessionConfig) (i : wasm.Instance) (changes : List TextChange)
        (new_text : Text)
        → CanShare m session i
        → IsCurrent wasm i
        → IsPlain (wasm.to_string i)
        → All (λ c. IsPlain c.text) changes
        → apply_text_changes (wasm.to_string i) changes ≡ some new_text
        → (ops : List CrdtOperation) × (i' : wasm.Instance) × (changes_to_operations wasm changes i
            ≡ returned ops i')
          × Shared m
              (handle_local_document_change wasm net m.session m.crdt
                (record {
                  document_uri = session.document_uri;
                  changes = changes;
                  new_text = new_text;
                })
                m)
              new_text
              i'
              ops
    handle_local_document_change-shares m session i changes new_text can current plain plain_new e =
        let (ops, i', translated, (text, still)) =
          changes_to_operations-agrees wasm law i changes new_text current plain plain_new e in
        let m' : M = record m { crdt = some i'; document_shadow_text = new_text } in
        let same = send_all-SameSession wasm net ops m' in
        let run : handle_local_document_change wasm net m.session m.crdt
              (record {
                document_uri = session.document_uri;
                changes = changes;
                new_text = new_text;
              })
              m
            ≡ send_all wasm net ops m' =
          handled m session i i' ops changes new_text can translated e
          ∙ share_edit_lem m i' ops new_text text in
        (
          ops,
          i',
          translated,
          record {
            sent = run;
            replica = ap (λ c. c.crdt) run ∙ same.crdt;
            replica_text = text;
            still_current = still;
            shadow = ap (λ c. c.document_shadow_text) run ∙ same.shadow;
            renders = ap (λ c. c.render_queue) run ∙ same.renders;
          },
        )
