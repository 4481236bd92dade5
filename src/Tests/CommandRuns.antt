-- ===== src/Tests/CommandRuns.antt =====
-- Runs of the commands of a manager, of a session over the peer-to-peer transport, and of the cutting
-- of snapshots.
use nettprogg_vsc.Common.{
  String, Text, List, [], ◌∷◌, Bool, true, false, Option, none, some, All, ◌≡◌, refl, map, length,
  arith,
}
use nettprogg_vsc.Common.Json.{undefined}
use nettprogg_vsc.Extension.LocalServer.{Kind}
use nettprogg_vsc.Extension.ServerCommands.{
  no_servers, Event, start_asked, port_answered, start_fulfilled, shutdown_forced, step, run,
}
use nettprogg_vsc.Extension.ServerCommands.Ownership.{running-shutdown_forced}
use nettprogg_vsc.Extension.Settings.{Settings}
use nettprogg_vsc.Extension.Session.{Manager}
use nettprogg_vsc.Extension.Session.Opening.{
  Dialogs, IsValidating, Editor, begin_session, Outcome, begin_session-Outcome,
}
use nettprogg_vsc.Extension.Session.Spreading.{net}
use nettprogg_vsc.Transport.Chunks.{chunk_count, chunk_messages}
use nettprogg_vsc.Transport.Chunks.Bounds.{Fits, chunk_messages-Fits}
use nettprogg_vsc.Transport.Interface.{CollaborationTransport, p2p}
use nettprogg_vsc.Transport.Peer.{MeshPeer}
use nettprogg_vsc.Transport.Signaling.Opening.{Transport}
use nettprogg_vsc.Tests.Doubles.{
  text_module, one_answer, list_rtc, list_rtc-TakesMessages, signaling_socket, first_compare,
}
use nettprogg_vsc.Tests.SessionRuns.{text, on}

abbrev encoded : Text
encoded = 7 ∷ 8 ∷ 9 ∷ []

chunk_messages-Fits_example :
    All (Fits 2) (chunk_messages 2 encoded "s" 0 (chunk_count 2 encoded))
    × (length (chunk_messages 2 encoded "s" 0 (chunk_count 2 encoded)) ≡ chunk_count 2 encoded)
chunk_messages-Fits_example = chunk_messages-Fits 2 encoded "s" (omega arith)

-- A server is started, and started again.
abbrev commands : List Event
commands =
    start_asked Kind.relay
    ∷ port_answered 0 (some "7071")
    ∷ start_fulfilled 0
    ∷ start_asked Kind.signaling
    ∷ []

running-shutdown_forced_example :
    (step (λ s. 7071) "/p" shutdown_forced (run (λ s. 7071) "/p" commands no_servers)).running
    ≡ map (λ l. l.name) (run (λ s. 7071) "/p" commands no_servers).starting
unfolding run
running-shutdown_forced_example =
    running-shutdown_forced (λ s. 7071) "/p" commands ((refl, refl), (tt, (tt, ((refl, refl), tt))))

-- Two calls overlap, and the server of the first is never stopped.
overlapping :
    (step
      (λ s. 7071)
      "/p"
      shutdown_forced
      (run
        (λ s. 7071)
        "/p"
        (start_asked Kind.relay
          ∷ start_asked Kind.relay
          ∷ port_answered 0 (some "7071")
          ∷ port_answered 1 (some "7072")
          ∷ start_fulfilled 0
          ∷ start_fulfilled 1
          ∷ [])
        no_servers)).running
    ≡ 0 ∷ []
unfolding run
overlapping = refl

abbrev settings : Settings
settings = record {
  transport_mode = "p2p";
  signaling_url = "ws://127.0.0.1:7072";
  server_url = "ws://127.0.0.1:7071";
  ice_servers = undefined;
}

-- A user who takes what is offered, where it is let through
abbrev let_through : Bool → String → Option String
let_through true offered = some offered
let_through false offered = none

abbrev agreeing : Dialogs
agreeing = record {
  ask_room = λ offered. some offered;
  ask_url = λ test offered. let_through (test offered) offered;
}

let_through_lem :
    (test : String → Bool) (b : Bool) (initial answer : String)
    → test initial ≡ b
    → let_through b initial ≡ some answer
    → test answer ≡ true
let_through_lem test true initial answer e f = cc
let_through_lem test false initial answer e f = cc

agreeing-IsValidating : IsValidating agreeing
agreeing-IsValidating = record {
  validated = λ test initial answer e. let_through_lem test (test initial) initial answer refl e;
}

abbrev editor : Editor
editor = record { document_uri = "file:///a"; text = text }

begin_session-Outcome_example :
    Outcome text_module
      (one_answer true)
      agreeing
      settings
      (some editor)
      (on (one_answer true) [] p2p)
      (begin_session text_module
        (one_answer true)
        agreeing
        settings
        (some editor)
        "r"
        (on (one_answer true) [] p2p))
begin_session-Outcome_example =
    begin_session-Outcome text_module (one_answer true) agreeing settings agreeing-IsValidating
      (some editor) "r" (on (one_answer true) [] p2p)

abbrev peer : MeshPeer list_rtc
peer = record {
  client_id = "b";
  connected_at = 0;
  peer_connection = ([], false);
  data_channel = some [];
  channel_open = true;
  flush_timer = false;
  queued_messages = [];
  pending_candidates = [];
  too_large = 0;
}

abbrev meshed : Transport list_rtc signaling_socket
meshed = record {
  options = record { signaling_url = "ws://s"; room_id = "r"; client_id = "a"; ice_servers = [] };
  signaling_socket = none;
  disposed = false;
  room_peers = [];
  mesh_peers = ("b", peer) ∷ [];
  snapshot_chunks = [];
  reports = [];
  closed_peers = [];
}

abbrev mesh_net : CollaborationTransport
mesh_net =
    net text_module list_rtc list_rtc-TakesMessages signaling_socket first_compare (λ s. [])
      (λ t. t) (λ t. "s") []

abbrev manager : Manager text_module mesh_net
manager = on mesh_net meshed p2p
