-- ===== src/Extension/Session/Consistency/Editing.antt =====
-- src/extension/sessionManager.ts: consistency under local edits and rendering.
use nettprogg_vsc.Common.{
  ◌-◌, Text, List, [], ◌∷◌, Bool, not, ◌&&◌, Option, none, some, if◌then◌else◌, ◌≡◌, refl, arith,
  branches, str_eq, ltb, ◌==◌,
}
use nettprogg_vsc.Crdt.{CrdtOperation}
use nettprogg_vsc.Crdt.Replica.{WasmModule, Outcome, returned, threw}
use nettprogg_vsc.Transport.Interface.{CollaborationTransport}
use nettprogg_vsc.Extension.DocumentAdapter.{apply_text_changes, changes_to_operations}
use nettprogg_vsc.Extension.Session.{SessionConfig, finish, RenderTask, Manager, send_all}
use nettprogg_vsc.Extension.Session.Consistency.{Keeps, Keeps-refl, Keeps-trans, send_all-Keeps}
use nettprogg_vsc.Extension.Session.Consistency.Helpers.{KeepsRun, Alike-Keeps, set_crdt-Keeps}
use nettprogg_vsc.Extension.Session.Consistency.Resuming.{resume-Keeps, render-Keeps}
use nettprogg_vsc.Extension.Session.Events.{started, edited, notify}
use nettprogg_vsc.Extension.Session.Handlers.{text_eq}
use nettprogg_vsc.Extension.Session.Handlers.Editing.{
  ChangeEvent, text_of, share_edit, translate_edit, handle_local_document_change, RenderStart,
  begin_on, begin_render, end_render,
}

module _ (wasm : WasmModule) (net : CollaborationTransport) where
  abbrev M : Type 0
  M = Manager wasm net

  abbrev K : M → M → Type 0
  K = Keeps wasm net

  share_edit-Keeps :
      (next : Text) (o : Outcome wasm.Instance (List CrdtOperation)) (s : SessionConfig) (m : M)
      → m.session ≡ some s
      → K m (share_edit wasm net next o m)
  unfolding share_edit
  share_edit-Keeps next (threw i) s m e = set_crdt-Keeps wasm net m i s e
  share_edit-Keeps next (returned ops i) s m e =
      let m0 : M = record m { crdt = some i } in
      let m1 : M = record m0 { document_shadow_text = next } in
      let m2 : M = send_all wasm net ops m1 in
      let sent : K m m2 = Keeps-trans wasm net (set_crdt-Keeps wasm net m i s e) (
        Keeps-trans wasm net (Alike-Keeps wasm net {m = m0} {m' = m1} (ground arith))
          (send_all-Keeps wasm net ops m1)) in
      branches (K m) (text_eq (text_of wasm net m2.crdt) m2.document_shadow_text) (λ _. sent)
        (λ _. Keeps-trans wasm net sent (render-Keeps wasm net m2.session m2.crdt finish m2))

  translate_edit-Keeps :
      (i : wasm.Instance) (event : ChangeEvent) (o : Option Text) (s : SessionConfig) (m : M)
      → m.session ≡ some s
      → K m (translate_edit wasm net i event o m)
  unfolding translate_edit
  translate_edit-Keeps i event none s m e = Keeps-refl wasm net m
  translate_edit-Keeps i event (some next) s m e =
      branches (K m) (not (text_eq next event.new_text))
        (λ _. render-Keeps wasm net m.session m.crdt finish m)
        (λ _. share_edit-Keeps next (changes_to_operations wasm event.changes i) s m e)

  pub edit-Keeps :
      (s : Option SessionConfig) (c : Option wasm.Instance) (event : ChangeEvent) (m : M)
      → m.session ≡ s
      → K m (handle_local_document_change wasm net s c event m)
  unfolding handle_local_document_change
  edit-Keeps (some s) (some i) event m e =
      branches (K m) (ltb 0 m.applying_remote_change_depth) (λ _. Keeps-refl wasm net m)
        λ _.
          branches (K m) (not (str_eq event.document_uri s.document_uri))
            (λ _. Keeps-refl wasm net m)
            λ _.
              branches (K m) (not m.sync_ready) (λ _. Alike-Keeps wasm net (ground arith))
                λ _.
                  branches (K m) (not (text_eq m.document_shadow_text (wasm.to_string i)))
                    (λ _. render-Keeps wasm net m.session m.crdt finish m)
                    λ _.
                      translate_edit-Keeps i event
                        (apply_text_changes m.document_shadow_text event.changes) s m e
  edit-Keeps none c event m e = Keeps-refl wasm net m
  edit-Keeps (some s) none event m e = Keeps-refl wasm net m

  begin_on-Keeps :
      (task : RenderTask) (s : Option SessionConfig) (c : Option wasm.Instance) (m : M)
      → K m (started wasm net (begin_on wasm net task s c m))
  unfolding begin_on
  begin_on-Keeps task (some s) (some i) m =
      let P : RenderStart wasm net → Type 0 = λ r. K m (started wasm net r) in
      let m1 : M = record m { document_shadow_text = wasm.to_string i } in
      branches P (not (m.session_version == task.version)) (λ _. resume-Keeps wasm net task.next m)
        λ _.
          branches P (not (str_eq s.document_uri task.document_uri))
            (λ _. resume-Keeps wasm net task.next m)
            λ _.
              branches P (text_eq m.document_text (wasm.to_string i))
                (λ _.
                  Keeps-trans wasm net (Alike-Keeps wasm net {m = m} {m' = m1} (ground arith))
                    (resume-Keeps wasm net task.next m1))
                (λ _. Alike-Keeps wasm net (ground arith))
  begin_on-Keeps task none c m = resume-Keeps wasm net task.next m
  begin_on-Keeps task (some s) none m = resume-Keeps wasm net task.next m

  pub begin_render-Keeps :
      (tasks : List RenderTask) (m : M) → K m (started wasm net (begin_render wasm net tasks m))
  unfolding begin_render
  begin_render-Keeps [] m = Keeps-refl wasm net m
  begin_render-Keeps (task ∷ tasks) m =
      let m1 : M = record m { render_queue = tasks } in
      Keeps-trans wasm net (Alike-Keeps wasm net {m = m} {m' = m1} (ground arith))
        (begin_on-Keeps task m.session m.crdt m1)

  pub end_render-Keeps :
      (task : RenderTask) (next_text : Text) (accepted : Bool) (m : M)
      → KeepsRun wasm net m (end_render wasm net task next_text accepted m)
  unfolding end_render
  end_render-Keeps task next_text accepted m =
      let m1 : M = if accepted then record m { document_text = next_text } else m in
      let m2 : M =
        if accepted && m1.session_version == task.version
        then record m1 { document_shadow_text = next_text }
        else m1 in
      let m3 : M = record m2 {
        applying_remote_change_depth = m2.applying_remote_change_depth - 1;
      } in
      let written : K m m1 =
        branches (K m) accepted (λ _. Alike-Keeps wasm net (ground arith))
          (λ _. Keeps-refl wasm net m) in
      let shadowed : K m1 m2 =
        branches (K m1) (accepted && m1.session_version == task.version)
          (λ _. Alike-Keeps wasm net (ground arith)) (λ _. Keeps-refl wasm net m1) in
      Keeps-trans wasm net written (
        Keeps-trans wasm net shadowed (
          Keeps-trans wasm net (Alike-Keeps wasm net {m = m2} {m' = m3} (ground arith))
            (resume-Keeps wasm net task.next m3)))

  edited-Keeps :
      (s : Option SessionConfig) (event : ChangeEvent) (m : M) → K m (edited wasm net s event m)
  edited-Keeps none event m = Keeps-refl wasm net m
  edited-Keeps (some s) event m =
      branches (K m) (str_eq event.document_uri s.document_uri)
        (λ _. Alike-Keeps wasm net (ground arith)) (λ _. Keeps-refl wasm net m)

  notify-Keeps : (event : ChangeEvent) (m : M) → K m (notify wasm net event m)
  notify-Keeps event m =
      branches (K m) m.local_subscription (λ _. edit-Keeps m.session m.crdt event m refl)
        (λ _. Keeps-refl wasm net m)

  pub document_edited-Keeps :
      (event : ChangeEvent) (m : M)
      → K m (notify wasm net event (edited wasm net m.session event m))
  document_edited-Keeps event m =
      Keeps-trans wasm net (edited-Keeps m.session event m)
        (notify-Keeps event (edited wasm net m.session event m))
