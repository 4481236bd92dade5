-- ===== src/Extension/ServerCommands.antt =====
-- src/extension/sessionManager.ts, `startLocalRustServer` and the server's part of `forceShutdown`: the
-- local servers of a manager. A call of a command has a number, which also names the server that it
-- makes. The dialog and the server's promises are events.
pub mod Ownership
use nettprogg_vsc.Common.{
  ℕ, suc, String, List, [], ◌∷◌, ◌++◌, Bool, true, false, not, ◌==◌, Option, none, some,
  if◌then◌else◌, filter, str_eq,
}
use nettprogg_vsc.Extension.LocalServer.{Kind, Options}

-- A call whose dialog is open
pub record Asking : Type 0 where
  pub name : ℕ
  pub kind : Kind

-- A `LocalRustServer` that a call has made
pub record Launched : Type 0 where
  pub name : ℕ
  pub options : Options

-- `localServer` and `localServerKind`, the calls that wait, the servers that were started and not yet
-- asked to stop, and the number of the next call
pub record Servers : Type 0 where
  pub local_server : Option Launched
  pub local_server_kind : Option Kind
  pub asking : List Asking
  pub starting : List Launched
  pub running : List ℕ
  pub next : ℕ

-- A new manager
abbrev pub no_servers : Servers
no_servers = record {
  local_server = none;
  local_server_kind = none;
  asking = [];
  starting = [];
  running = [];
  next = 0;
}

pub data Event : Type 0 where
  start_asked : Kind → Event
  port_answered : ℕ → Option String → Event
  start_fulfilled : ℕ → Event
  start_rejected : ℕ → Event
  shutdown_forced : Event

abbrev pub without : ℕ → List ℕ → List ℕ
without name = filter (λ n. not (n == name))

abbrev find_asking : ℕ → List Asking → Option Asking
find_asking name [] = none
find_asking name (a ∷ rest) = if a.name == name then some a else find_asking name rest

abbrev find_starting : ℕ → List Launched → Option Launched
find_starting name [] = none
find_starting name (l ∷ rest) = if l.name == name then some l else find_starting name rest

abbrev stop_asking : ℕ → List Asking → List Asking
stop_asking name = filter (λ a. not (a.name == name))

abbrev stop_starting : ℕ → List Launched → List Launched
stop_starting name = filter (λ l. not (l.name == name))

-- `startLocalRustServer` up to its dialog
pub ask_port : Option Launched → Kind → Servers → Servers
ask_port (some server) kind s = s
ask_port none kind s = record s {
  asking = s.asking ++ record { name = s.next; kind = kind } ∷ [];
  next = suc s.next;
}

-- `Number` of a text that the dialog has let through, and the folder of the extension
module _ (to_number : String → ℕ) (extension_path : String) where
  abbrev pub launched : Asking → String → Launched
  launched call input = record {
    name = call.name;
    options = record {
      kind = call.kind;
      port = to_number input;
      host = "127.0.0.1";
      project_root = extension_path;
    };
  }

  abbrev launch : Asking → String → Servers → Servers
  launch call input s = record s {
    starting = s.starting ++ launched call input ∷ [];
    running = s.running ++ call.name ∷ [];
  }

  abbrev answered : Asking → Option String → Servers → Servers
  answered call none s = s
  answered call (some input) s = if str_eq input "" then s else launch call input s

  -- From the answer of the dialog to the start of the server
  pub answer_port : Option Asking → Option String → Servers → Servers
  answer_port none input s = s
  answer_port (some call) input s =
      answered call input (record s { asking = stop_asking call.name s.asking })

  -- What follows `await server.start()`, and the handler of its error
  pub finish_start : Option Launched → Servers → Servers
  finish_start none s = s
  finish_start (some server) s = record s {
    starting = stop_starting server.name s.starting;
    local_server = some server;
    local_server_kind = some server.options.kind;
  }

  pub fail_start : Option Launched → Servers → Servers
  fail_start none s = s
  fail_start (some server) s = record s {
    starting = stop_starting server.name s.starting;
    running = without server.name s.running;
  }

  -- `forceShutdown`, the part about the local server
  pub force_shutdown : Option Launched → Servers → Servers
  force_shutdown none s = record s { local_server = none; local_server_kind = none }
  force_shutdown (some server) s = record s {
    local_server = none;
    local_server_kind = none;
    running = without server.name s.running;
  }

  unfoldable pub step : Event → Servers → Servers
  unfolding ask_port answer_port finish_start fail_start force_shutdown
  step (start_asked kind) s = ask_port s.local_server kind s
  step (port_answered name input) s = answer_port (find_asking name s.asking) input s
  step (start_fulfilled name) s = finish_start (find_starting name s.starting) s
  step (start_rejected name) s = fail_start (find_starting name s.starting) s
  step shutdown_forced s = force_shutdown s.local_server s

  unfoldable pub run : List Event → Servers → Servers
  unfolding step
  run [] s = s
  run (event ∷ events) s = run events (step event s)
