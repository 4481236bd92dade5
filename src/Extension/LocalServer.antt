-- ===== src/Extension/LocalServer.antt =====
-- src/extension/localRustServer.ts: the command that runs a local server, and a `LocalRustServer`
-- between its calls. The runtime's `path.join`, `fs.accessSync` and platform are parameters.
pub mod Announcement
pub mod Starting
pub mod Stopping
use nettprogg_vsc.Common.{
  ℕ, String, List, [], ◌∷◌, Bool, true, false, Option, none, some, if◌then◌else◌, str_append,
  get_or_else,
}

-- `LocalRustServerKind`, and its text
pub data Kind : Type 0 where
  relay signaling : Kind

abbrev pub kind_name : Kind → String
kind_name relay = "relay"
kind_name signaling = "signaling"

-- `LocalRustServerOptions`, less the log
pub record Options : Type 0 where
  pub kind : Kind
  pub port : ℕ
  pub host : String
  pub project_root : String

pub record Command : Type 0 where
  pub cmd : String
  pub args : List String

-- The file system and the platform
pub record Platform : Type 0 where
  pub join_path : List String → String
  pub can_execute : String → Bool
  pub is_windows : Bool

abbrev pub server_name : Options → String
server_name options = str_append (kind_name options.kind) "-server"

-- The first of some paths that may be executed: the loop of `findPrebuiltBinary`
pub first_executable : Platform → List String → Option String
first_executable platform [] = none
first_executable platform (candidate ∷ rest) =
    if platform.can_execute candidate then some candidate else first_executable platform rest

-- `candidates` of `findPrebuiltBinary`
pub candidates : Platform → Options → List String
candidates platform options =
    let root = options.project_root in
    let exe = if platform.is_windows then ".exe" else "" in
    let name = str_append (server_name options) exe in
    platform.join_path (root ∷ "crates" ∷ "target" ∷ "release" ∷ name ∷ [])
    ∷ platform.join_path (root ∷ "crates" ∷ "target" ∷ "debug" ∷ name ∷ [])
    ∷ platform.join_path (root ∷ "target" ∷ "release" ∷ name ∷ [])
    ∷ platform.join_path (root ∷ "target" ∷ "debug" ∷ name ∷ [])
    ∷ []

-- `findPrebuiltBinary`
pub find_prebuilt_binary : Platform → Options → Option String
unfolding first_executable candidates
find_prebuilt_binary platform options = first_executable platform (candidates platform options)

abbrev pub cargo : Platform → Options → Command
cargo platform options = record {
  cmd = "cargo";
  args =
      "run"
      ∷ "--release"
      ∷ "--quiet"
      ∷ "--manifest-path"
      ∷ platform.join_path (options.project_root ∷ "crates" ∷ "Cargo.toml" ∷ [])
      ∷ "--bin"
      ∷ server_name options
      ∷ [];
}

abbrev pub command_for : Platform → Options → Option String → Command
command_for platform options none = cargo platform options
command_for platform options (some binary) = record { cmd = binary; args = [] }

-- `resolveCommand`
pub resolve_command : Platform → Options → Command
unfolding find_prebuilt_binary
resolve_command platform options =
    command_for platform options (find_prebuilt_binary platform options)

-- The fields of a `LocalRustServer`. A child process is named by a number.
pub record Server : Type 0 where
  pub options : Options
  pub child : Option ℕ
  pub actual_port : Option ℕ

-- `port`
pub port : Server → ℕ
port server = get_or_else server.actual_port server.options.port
