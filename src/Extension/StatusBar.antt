-- ===== src/Extension/StatusBar.antt =====
-- src/extension/statusBar.ts, `setState`: what the two items of the status bar show.
use nettprogg_vsc.Common.{
  ℕ, String, Bool, true, false, Option, none, some, if◌then◌else◌, str_append, str_eq, ltb,
}
use nettprogg_vsc.Extension.Session.{ConnectionState, idle, syncing, connected, disconnected}

-- The item's text and tooltip, and whether the item that stops everything is shown
pub record Bar : Type 0 where
  pub text : String
  pub tooltip : String
  pub stop_shown : Bool

abbrev room_text : Option String → String
room_text none = ""
room_text (some room_id) = if str_eq room_id "" then "" else str_append " " room_id

-- `String` of a number is the parameter `shown`.
module _ (shown : ℕ → String) where
  abbrev peers_text : ℕ → String
  peers_text count = if ltb 0 count then str_append " (" (str_append (shown count) ")") else ""

  -- `setState`
  pub set_state : ConnectionState → Option String → ℕ → Bar
  set_state connected room_id count = record {
    text =
        str_append "$(radio-tower) LiveShare:" (str_append (room_text room_id) (peers_text count));
    tooltip = "LiveShare Lite connected";
    stop_shown = true;
  }
  set_state syncing room_id count = record {
    text = str_append "$(sync~spin) LiveShare:" (room_text room_id);
    tooltip = "LiveShare Lite syncing";
    stop_shown = true;
  }
  set_state disconnected room_id count = record {
    text = str_append "$(debug-disconnect) LiveShare:" (room_text room_id);
    tooltip = "LiveShare Lite disconnected; local edits are queued";
    stop_shown = true;
  }
  set_state idle room_id count = record {
    text = "$(circle-outline) LiveShare";
    tooltip = "LiveShare Lite idle";
    stop_shown = false;
  }
