-- ===== src/Extension/Session/Opening.antt =====
-- src/extension/sessionManager.ts, `startSession` and `joinSession`: from the dialogs to `connect`. The
-- editor's dialogs are parameters.
use nettprogg_vsc.Common.{
  ◌↔◌, String, Text, Bool, true, Option, none, some, if◌then◌else◌, str_eq, eq_iff, ◌≡◌, ◌≢◌, refl,
  ◌⊎◌, inl, inr, Bool-cases, Option-cases,
}
use nettprogg_vsc.Crdt.Replica.{WasmModule}
use nettprogg_vsc.Transport.Interface.{CollaborationTransport, p2p}
use nettprogg_vsc.Extension.Settings.{
  Settings, configured_transport_mode, default_url, accepts_url, BeginsWith, accepts_url-BeginsWith,
  configured_transport_mode_iff,
}
use nettprogg_vsc.Extension.Session.{SessionConfig, Manager}
use nettprogg_vsc.Extension.Session.Handlers.Joining.{connect}

-- `showInputBox`: what the user answers to a dialog with the given test and first value, `none` where
-- the dialog is left
pub record Dialogs : Type 0 where
  pub ask_room : String → Option String
  pub ask_url : (String → Bool) → String → Option String

-- What the program relies on: a dialog gives back no answer that its test refuses.
pub record IsValidating (dialogs : Dialogs) : Type 0 where
  pub validated :
      (test : String → Bool) (initial answer : String)
      → dialogs.ask_url test initial ≡ some answer
      → test answer ≡ true

-- The document of an active editor
pub record Editor : Type 0 where
  pub document_uri : String
  pub text : Text

module _ (wasm : WasmModule) (net : CollaborationTransport) (dialogs : Dialogs)
    (settings : Settings) where
  abbrev M : Type 0
  M = Manager wasm net

  abbrev pub config_of : Editor → String → String → SessionConfig
  config_of editor room_id url = record {
    room_id = room_id;
    transport_mode = configured_transport_mode settings;
    connection_url = url;
    document_uri = editor.document_uri;
    seed_text = editor.text;
  }

  -- From the answer of the URL's dialog on
  abbrev with_url : Option String → Editor → String → M → M
  with_url none editor room_id m = m
  with_url (some url) editor room_id m =
      if str_eq url "" then m else connect wasm net (config_of editor room_id url) editor.text m

  -- From the answer of the room's dialog on
  abbrev with_room : Option String → Editor → M → M
  with_room none editor m = m
  with_room (some room_id) editor m =
      if str_eq room_id ""
      then m
      else with_url
          (dialogs.ask_url accepts_url (default_url settings (configured_transport_mode settings)))
          editor room_id m

  -- `startSession` and `joinSession`, by what `requireActiveEditor` gives and the room that is offered
  pub begin_session : Option Editor → String → M → M
  begin_session none offered m = m
  begin_session (some editor) offered m = with_room (dialogs.ask_room offered) editor m

  -- `startSession`, which offers a new room, and `joinSession`
  pub start_session : Option Editor → String → M → M
  unfolding begin_session
  start_session editor random_room m = begin_session editor random_room m

  pub join_session : Option Editor → M → M
  unfolding begin_session
  join_session editor m = begin_session editor "" m

  -- The room has a name, the URL is one of a web socket, the mode is peer-to-peer exactly if the
  -- setting says so, and the document is the editor's, whose text is the seed.
  pub record IsProper (editor : Editor) (config : SessionConfig) : Type 0 where
    pub named : config.room_id ≢ ""
    pub web_socket :
        BeginsWith "ws://" config.connection_url ⊎ BeginsWith "wss://" config.connection_url
    pub mode : (config.transport_mode ≡ p2p) ↔ (settings.transport_mode ≡ "p2p")
    pub document : config.document_uri ≡ editor.document_uri
    pub seed : config.seed_text ≡ editor.text

  abbrev pub Outcome : Option Editor → M → M → Type 0
  Outcome none m m' = m' ≡ m
  Outcome (some editor) m m' =
      (m' ≡ m)
      ⊎ ((config : SessionConfig) × IsProper editor config
          × (m' ≡ connect wasm net config editor.text m))

  with_url_lem :
      (law : IsValidating dialogs) (editor : Editor) (room_id initial : String) (m : M)
      → room_id ≢ ""
      → Outcome (some editor) m (with_url (dialogs.ask_url accepts_url initial) editor room_id m)
  with_url_lem law editor room_id initial m named =
      elim (Option-cases (dialogs.ask_url accepts_url initial)) [
        | inl e ↦ rw e (inl refl)
        | inr (url, e) ↦ elim (Bool-cases (str_eq url "")) [
          | inl empty ↦ rw (e, empty) (inl refl)
          | inr full ↦
              rw (e, full)
                (inr (
                  config_of editor room_id url,
                  record {
                    named = named;
                    web_socket =
                        accepts_url-BeginsWith url (law.validated accepts_url initial url e);
                    mode = configured_transport_mode_iff settings;
                    document = refl;
                    seed = refl;
                  },
                  refl,
                ))
        ]
      ]

  -- `startSession` and `joinSession` either change nothing, or connect anew, with a proper
  -- configuration; without an editor they change nothing.
  pub begin_session-Outcome :
      (law : IsValidating dialogs) (editor : Option Editor) (offered : String) (m : M)
      → Outcome editor m (begin_session editor offered m)
  unfolding begin_session
  begin_session-Outcome law none offered m = refl
  begin_session-Outcome law (some editor) offered m =
      elim (Option-cases (dialogs.ask_room offered)) [
        | inl e ↦ rw e (inl refl)
        | inr (room_id, e) ↦ elim (Bool-cases (str_eq room_id "")) [
          | inl empty ↦ rw (e, empty) (inl refl)
          | inr full ↦
              rw (e, full)
                (with_url_lem law editor room_id
                  (default_url settings (configured_transport_mode settings)) m
                  (λ same. cc (full, (eq_iff room_id "").1 same)))
        ]
      ]
