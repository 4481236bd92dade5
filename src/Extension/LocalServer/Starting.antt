-- ===== src/Extension/LocalServer/Starting.antt =====
-- src/extension/localRustServer.ts, `start`: the promise that it returns, and the events that
-- settle it.
pub mod Settling
pub mod Hearing
use nettprogg_vsc.Common.{
  ℕ, Text, List, [], ◌∷◌, ◌++◌, Bool, true, false, not, ◌&&◌, Option, none, some, if◌then◌else◌,
  length, drop,
}
use nettprogg_vsc.Extension.LineListener.{Stream, fresh, on_data, on_end}
use nettprogg_vsc.Extension.LocalServer.{Options, Server, port}
use nettprogg_vsc.Extension.LocalServer.Announcement.{announced}

pub data Reason : Type 0 where
  timed_out spawn_failed exited : Reason

-- A call of `resolve` or of `reject`
pub data Settlement : Type 0 where
  fulfilled : ℕ → Settlement
  rejected : Reason → Settlement

-- The variables of one `start`, the server's fields, and the calls that settle its promise, in
-- order. `timeout_set` says whether the timer runs, and `stop_called` whether it has called `stop`.
pub record Start : Type 0 where
  pub server : Server
  pub resolved : Bool
  pub timeout_set : Bool
  pub stop_called : Bool
  pub out : Stream
  pub err : Stream
  pub settlements : List Settlement

-- What `start` does at once: it returns a port, or it has spawned a child.
pub data Begun : Type 0 where
  already : ℕ → Begun
  spawned : Start → Begun

abbrev pub begin_on : Option ℕ → ℕ → Server → Begun
begin_on (some old) child server = already (port server)
begin_on none child server = spawned (record {
  server = record server { child = some child };
  resolved = false;
  timeout_set = true;
  stop_called = false;
  out = fresh;
  err = fresh;
  settlements = [];
})

-- `start`, up to its promise; `child` is what `spawn` gives.
unfoldable pub begin_start : ℕ → Server → Begun
unfolding port
begin_start child server = begin_on server.child child server

-- What may happen afterwards. A chunk of output comes with the text that it is decoded to, by itself.
pub data Event : Type 0 where
  stdout_data : Text → Event
  stderr_data : Text → Event
  stdout_end : Event
  stderr_end : Event
  child_error : Event
  child_exit : Event
  timeout : Event

abbrev pub settle : Settlement → Start → Start
settle s m = record m {
  resolved = true;
  timeout_set = false;
  settlements = m.settlements ++ s ∷ [];
}

abbrev pub hear : Option ℕ → Start → Start
hear none m = m
hear (some p) m =
    if not m.resolved
    then settle (fulfilled p) (record m { server = record m.server { actual_port = some p } })
    else m

-- `onLine`
pub on_line : Text → Start → Start
on_line line m = hear (announced line) m

pub on_lines : List Text → Start → Start
unfolding on_line
on_lines [] m = m
on_lines (line ∷ lines) m = on_lines lines (on_line line m)

-- The lines that a stream has handed on since it was `old`
abbrev pub new_lines : Stream → Stream → List Text
new_lines old now = drop (length old.lines) now.lines

abbrev pub fail : Reason → Start → Start
fail reason m = if not m.resolved then settle (rejected reason) m else m

-- The timer's callback; `stop` takes the child and the port away.
abbrev pub time_out : Start → Start
time_out m =
    if not m.resolved
    then settle (rejected timed_out) (record m {
      server = record m.server { child = none; actual_port = none };
      stop_called = true;
    })
    else m

-- One event. A timer that was cleared does not fire.
pub step : Event → Start → Start
unfolding on_lines
step (stdout_data chunk) m =
    let now = on_data m.out chunk in on_lines (new_lines m.out now) (record m { out = now })
step (stderr_data chunk) m =
    let now = on_data m.err chunk in on_lines (new_lines m.err now) (record m { err = now })
step stdout_end m =
    let now = on_end m.out in on_lines (new_lines m.out now) (record m { out = now })
step stderr_end m =
    let now = on_end m.err in on_lines (new_lines m.err now) (record m { err = now })
step child_error m = fail spawn_failed m
step child_exit m = fail exited m
step timeout m = if m.timeout_set then time_out m else m

unfoldable pub run : List Event → Start → Start
unfolding step
run [] m = m
run (event ∷ events) m = run events (step event m)
