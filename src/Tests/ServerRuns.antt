-- ===== src/Tests/ServerRuns.antt =====
-- Runs of the local server: its command, its announcement, its start and its stop.
use nettprogg_vsc.Common.{
  ◌++◌, ◌||◌, Text, List, [], ◌∷◌, true, false, none, some, ◌≡◌, refl, cond, map,
}
use nettprogg_vsc.Extension.LineListener.{fresh, on_data}
use nettprogg_vsc.Extension.LocalServer.{Kind, Options, Server}
use nettprogg_vsc.Extension.LocalServer.Announcement.{
  keyword, announced, port_in, port_at, after_keyword,
}
use nettprogg_vsc.Extension.LocalServer.Announcement.Matching.{address, value, port_in_lem}
use nettprogg_vsc.Extension.LocalServer.Starting
use nettprogg_vsc.Extension.LocalServer.Starting.{Start, begin_start, already, spawned}
use nettprogg_vsc.Extension.LocalServer.Starting.Settling
use nettprogg_vsc.Extension.LocalServer.Starting.Settling.{IsSound, begin_start_stale}
use nettprogg_vsc.Extension.LocalServer.Starting.Hearing.{
  first_port, settled_by, lines_heard, run-settlements,
}
use nettprogg_vsc.Extension.LocalServer.Stopping
use nettprogg_vsc.Extension.LocalServer.Stopping.{Child, Stop, sigterm, sigkill}
use nettprogg_vsc.Extension.LocalServer.Stopping.Settling.{run-resolutions, ended}

abbrev options : Options
options = record { kind = Kind.relay; port = 7071; host = "127.0.0.1"; project_root = "/p" }

-- "! listening on ws://h:71."
abbrev line : Text
line = (33 ∷ 32 ∷ []) ++ (keyword ++ address (104 ∷ []) (55 ∷ 49 ∷ []) (46 ∷ []))

port_in_lem_example : port_in line ≡ some (value (55 ∷ 49 ∷ []))
unfolding port_at after_keyword
port_in_lem_example =
    port_in_lem (33 ∷ 32 ∷ []) keyword [] (49 ∷ []) (46 ∷ []) 104 55 refl (refl, tt)
      (refl, (refl, tt)) refl (refl, (refl, tt))

abbrev server : Server
server = record { options = options; child = none; actual_port = none }

abbrev begun : Start
begun = record {
  server = record server { child = some 4 };
  resolved = false;
  timeout_set = true;
  stop_called = false;
  out = fresh;
  err = fresh;
  settlements = [];
}

begin_server : begin_start 4 server ≡ spawned begun
unfolding begin_start
begin_server = refl

abbrev lines : List Text
lines = line ∷ (10 ∷ []) ∷ []

abbrev happenings : List Starting.Event
happenings = Starting.stdout_data line ∷ Starting.stdout_data (10 ∷ []) ∷ Starting.timeout ∷ []

run-IsSound_example : IsSound (Starting.run happenings begun)
run-IsSound_example = Settling.run-IsSound 4 server begun happenings refl begin_server

run-resolved_example :
    (s : Starting.Settlement) × ((Starting.run happenings begun).settlements ≡ s ∷ [])
run-resolved_example = Settling.run-resolved 4 server begun happenings refl begin_server refl

-- The line comes in two pieces, with something else on the other stream in between.
abbrev printing : List Starting.Event
printing =
    Starting.stdout_data line ∷ Starting.stderr_data (33 ∷ 10 ∷ []) ∷ Starting.stdout_end ∷ []

run-settlements_example :
    (Starting.run printing begun).settlements ≡ settled_by (first_port (lines_heard printing [] []))
run-settlements_example =
    run-settlements 4 server begun printing begin_server (refl, (refl, (refl, tt)))

begin_start_stale_example :
    begin_start 5
      (Starting.step Starting.child_exit
        (Starting.run (map Starting.stdout_data lines) begun)).server
    ≡ already 71
unfolding Starting.run announced on_data value
begin_start_stale_example =
    begin_start_stale 4 5 71 server begun (map Starting.stdout_data lines) refl begin_server refl

abbrev running : Child
running = record { has_exited = false; killed = false; kill_throws = false }

abbrev asked : Stop
asked = record {
  child = record { has_exited = false; killed = true; kill_throws = false };
  resolved = false;
  timeout_set = true;
  escalate_set = true;
  exit_listens = true;
  close_listens = true;
  signals = sigterm ∷ [];
  resolutions = 0;
}

begin_running : Stopping.begin_stop (some running) ≡ Stopping.waiting asked
unfolding Stopping.begin_stop
begin_running = refl

abbrev ending : List Stopping.Event
ending = Stopping.grace_over ∷ Stopping.exit false ∷ Stopping.close ∷ Stopping.timeout ∷ []

run-resolutions_example : (Stopping.run ending asked).resolutions ≡ cond (false || ended ending) 1 0
run-resolutions_example = run-resolutions running asked ending begin_running
