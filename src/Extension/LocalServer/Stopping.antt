-- ===== src/Extension/LocalServer/Stopping.antt =====
-- src/extension/localRustServer.ts, `stop`: the promise that it returns, with its two timers.
pub mod Settling
use nettprogg_vsc.Common.{
  ℕ, suc, List, [], ◌∷◌, ◌++◌, Bool, true, false, not, ◌&&◌, ◌||◌, Option, none, some,
  if◌then◌else◌,
}
use nettprogg_vsc.Extension.LocalServer.{Server}

pub data Signal : Type 0 where
  sigterm sigkill : Signal

-- A child process: whether its `exitCode` is set, the `killed` flag, and whether `kill` throws.
pub record Child : Type 0 where
  pub has_exited : Bool
  pub killed : Bool
  pub kill_throws : Bool

-- The variables of one `stop`: whether `resolvedRef` is set, the timers that run, whether the
-- listeners of `exit` and `close` wait, the signals sent, and how often `resolve` was called.
pub record Stop : Type 0 where
  pub child : Child
  pub resolved : Bool
  pub timeout_set : Bool
  pub escalate_set : Bool
  pub exit_listens : Bool
  pub close_listens : Bool
  pub signals : List Signal
  pub resolutions : ℕ

-- What `stop` does at once: the promise is resolved, or it waits.
pub data Begun : Type 0 where
  over : Begun
  waiting : Stop → Begun

-- The first `finish`, which the listeners get
abbrev pub finish : Stop → Stop
finish m =
    if not m.resolved
    then record m { resolved = true; timeout_set = false; resolutions = suc m.resolutions }
    else m

-- The `finish` that stands in its place at the end, which only the timeout calls
abbrev pub late_finish : Stop → Stop
late_finish m = finish (record m { escalate_set = false })

abbrev fresh_stop : Child → Stop
fresh_stop child = record {
  child = child;
  resolved = false;
  timeout_set = true;
  escalate_set = false;
  exit_listens = true;
  close_listens = true;
  signals = [];
  resolutions = 0;
}

abbrev begin_kill : Child → Begun
begin_kill child =
    if child.kill_throws
    then waiting (finish (fresh_stop child))
    else waiting (record (fresh_stop child) {
      child = record child { killed = true };
      escalate_set = true;
      signals = sigterm ∷ [];
    })

-- `stop`, with the process of the server's child
unfoldable pub begin_stop : Option Child → Begun
begin_stop none = over
begin_stop (some child) = if child.has_exited || child.killed then over else begin_kill child

-- The server's fields after `stop`
pub stopped : Server → Server
stopped server = record server { child = none; actual_port = none }

-- What may happen; `exit` says whether there is an exit code, which a child that was ended by a
-- signal does not have.
pub data Event : Type 0 where
  exit : Bool → Event
  close : Event
  timeout : Event
  grace_over : Event

-- The listeners, which run once
abbrev hear_exit : Stop → Stop
hear_exit m = if m.exit_listens then finish (record m { exit_listens = false }) else m

abbrev hear_close : Stop → Stop
hear_close m = if m.close_listens then finish (record m { close_listens = false }) else m

-- The escalation; an error that `kill` throws is ignored.
abbrev escalate : Stop → Stop
escalate m =
    if not m.child.has_exited && not m.child.kill_throws
    then record m { signals = m.signals ++ sigkill ∷ [] }
    else m

-- One event. A timer that was cleared does not fire, and none fires twice.
pub step : Event → Stop → Stop
step (exit with_code) m =
    hear_exit (record m { child = record m.child { has_exited = m.child.has_exited || with_code } })
step close m = hear_close m
step timeout m = if m.timeout_set then late_finish (record m { timeout_set = false }) else m
step grace_over m = if m.escalate_set then escalate (record m { escalate_set = false }) else m

pub run : List Event → Stop → Stop
unfolding step
run [] m = m
run (event ∷ events) m = run events (step event m)
