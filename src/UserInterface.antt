-- ===== src/UserInterface.antt =====
-- src/sdl_app.cc: what the interface knows (`UiSnapshot`), the callbacks of the coordinator, and
-- what a click does. Drawing is left out, and so are the device and the window. A click comes with
-- the copy of the state that its frame was drawn from. Which popup is open is the drawing library's.
pub mod Panels
pub mod Texture
pub mod Window
pub mod Mirror
pub mod Logs
mod Tests
use webrtc_peerconnection_cl.Prelude.{
  ℕ, String, Bool, true, false, not, ◌&&◌, Option, none, some, List, [], ◌∷◌, ◌++◌, if◌then◌else◌,
  str_eq, text_append, pop_while_over, Act, skip, emit, when, modify, ◌⨾◌,
}
use webrtc_peerconnection_cl.SignalTypes.{ClientInfo}
use webrtc_peerconnection_cl.CallManager.{CallState, idle, is_state, is_empty}
use webrtc_peerconnection_cl.LocalMedia.{LocalVideoSourceConfig, camera, file}
use webrtc_peerconnection_cl.Coordinator.{
  UiCall, start_local_renderer, stop_local_renderer, start_remote_renderer, stop_remote_renderer,
  log_message, show_error, signal_connected, signal_error, signal_disconnected, client_list_update,
  ui_call_state_changed, ui_incoming_call,
}
use webrtc_peerconnection_cl.Config.{AppConfig}

pub record LogEntry : Type 0 where
  pub timestamp : String
  pub level : String
  pub message : String

pub record DialogMessage : Type 0 where
  pub title : String
  pub message : String
  pub error : Bool

pub record UiSnapshot : Type 0 where
  pub connected : Bool
  pub logs_drawer_open : Bool
  pub client_id : String
  pub clients : List ClientInfo
  pub current_peer_id : String
  pub selected_peer_id : Option String
  pub incoming_caller_id : Option String
  pub logs : List LogEntry
  pub dialog : Option DialogMessage
  pub call_state : CallState

abbrev blank : UiSnapshot
blank = record {
  connected = false;
  logs_drawer_open = false;
  client_id = "";
  clients = [];
  current_peer_id = "";
  selected_peer_id = none;
  incoming_caller_id = none;
  logs = [];
  dialog = none;
  call_state = idle;
}

abbrev pub log_entry : String → String → String → LogEntry
log_entry now level message = record { timestamp = now; level = level; message = message }

-- `now` is what `GetNowString` returns.
unfoldable pub push_log : String → String → String → UiSnapshot → UiSnapshot
push_log now level message s = record s {
  logs = pop_while_over 200 (s.logs ++ log_entry now level message ∷ []);
}

-- The constructor.
unfoldable pub new_ui : String → UiSnapshot
unfolding push_log
new_ui now = push_log now "info" "Application started" blank

unfoldable pub on_show_error : String → String → String → UiSnapshot → UiSnapshot
unfolding push_log
on_show_error now title message s =
    push_log now "error" (text_append title (text_append ": " message))
      (record s { dialog = some (record { title = title; message = message; error = true }) })

unfoldable pub on_show_info : String → String → String → UiSnapshot → UiSnapshot
unfolding push_log
on_show_info now title message s =
    push_log now "info" (text_append title (text_append ": " message))
      (record s { dialog = some (record { title = title; message = message; error = false }) })

any_client : String → List ClientInfo → Bool
any_client peer [] = false
any_client peer (client ∷ clients) =
    let rest = any_client peer clients in if str_eq client.id peer then true else rest

unfoldable pub on_client_list_update : List ClientInfo → UiSnapshot → UiSnapshot
unfolding any_client
on_client_list_update clients s = elim s.selected_peer_id [
  | none ↦ record s { clients = clients }
  | some peer ↦ record s {
    clients = clients;
    selected_peer_id = if any_client peer clients then some peer else none;
  }
]

unfoldable pub on_call_state_changed : CallState → String → UiSnapshot → UiSnapshot
on_call_state_changed state peer_id s = record s {
  call_state = state;
  current_peer_id = peer_id;
  incoming_caller_id = if is_state state idle then none else s.incoming_caller_id;
}

-- The calls of the coordinator; those on the renderers do not touch this state.
unfoldable pub receive : String → UiCall → UiSnapshot → UiSnapshot
unfolding push_log on_show_error on_client_list_update on_call_state_changed
receive now start_local_renderer s = s
receive now stop_local_renderer s = s
receive now start_remote_renderer s = s
receive now stop_remote_renderer s = s
receive now (log_message message level) s = push_log now level message s
receive now (show_error title message) s = on_show_error now title message s
receive now (signal_connected client_id) s = record s { connected = true; client_id = client_id }
receive now signal_disconnected s = record s { connected = false; clients = [] }
receive now (signal_error error) s = push_log now "error" error s
receive now (client_list_update clients) s = on_client_list_update clients s
receive now (ui_call_state_changed state peer_id) s = on_call_state_changed state peer_id s
receive now (ui_incoming_call caller_id) s = record s { incoming_caller_id = some caller_id }

-- The calls on `ICallController`.
pub data ControllerCall : Type 0 where
  connect_to_signal_server : String → String → ControllerCall
  disconnect_from_signal_server end_call accept_call : ControllerCall
  start_call reject_call : String → ControllerCall
  set_local_video_source : LocalVideoSourceConfig → ControllerCall

abbrev pub UiAct : Type 0
UiAct = Act UiSnapshot ControllerCall

-- What is clicked. `open_media_file`: the answer of the file dialog.
pub data Click : Type 0 where
  logs_button connection_button start_call_button hang_up_button use_camera_button : Click
  close_logs_button accept_button reject_button close_dialog_button : Click
  selects_client : ClientInfo → Click
  open_media_file : Option String → Click

-- Buttons that are disabled do not click.
abbrev pub can_start_call : UiSnapshot → Bool
can_start_call snapshot =
    snapshot.connected
    && is_state snapshot.call_state idle
    && elim snapshot.selected_peer_id [ some peer ↦ true | none ↦ false ]

abbrev pub can_hangup : UiSnapshot → Bool
can_hangup snapshot = not (is_state snapshot.call_state idle)

-- The arguments are the frame's copy, the program's options, what is selected or chosen.
toggle_logs : UiSnapshot → UiAct
toggle_logs snapshot = modify (λ s. record s { logs_drawer_open = not snapshot.logs_drawer_open })

switch_connection : AppConfig → UiSnapshot → UiAct
switch_connection config snapshot =
    if snapshot.connected
    then emit disconnect_from_signal_server
    else emit (connect_to_signal_server config.signal_url config.username)

select_client : UiSnapshot → ClientInfo → UiAct
select_client snapshot client =
    when (not (str_eq client.id snapshot.client_id))
      (modify (λ s. record s { selected_peer_id = some client.id }))

start_selected : UiSnapshot → Option String → UiAct
start_selected snapshot none = skip
start_selected snapshot (some peer) = when (can_start_call snapshot) (emit (start_call peer))

hang_up : UiSnapshot → UiAct
hang_up snapshot = when (can_hangup snapshot) (emit end_call)

use_camera : UiAct
use_camera = emit (set_local_video_source (record { kind = camera; file_path = "" }))

open_file : Option String → UiAct
open_file none = skip
open_file (some path) = emit (set_local_video_source (record { kind = file; file_path = path }))

close_logs : UiAct
close_logs = modify (λ s. record s { logs_drawer_open = false })

answer_call : ControllerCall → UiAct
answer_call call = emit call ⨾ modify (λ s. record s { incoming_caller_id = none })

close_dialog : UiAct
close_dialog = modify (λ s. record s { dialog = none })

unfoldable pub click : AppConfig → UiSnapshot → Click → UiAct
unfolding toggle_logs switch_connection select_client start_selected hang_up use_camera open_file
    close_logs answer_call close_dialog
click config snapshot logs_button = toggle_logs snapshot
click config snapshot connection_button = switch_connection config snapshot
click config snapshot (selects_client client) = select_client snapshot client
click config snapshot start_call_button = start_selected snapshot snapshot.selected_peer_id
click config snapshot hang_up_button = hang_up snapshot
click config snapshot use_camera_button = use_camera
click config snapshot (open_media_file path) = open_file path
click config snapshot close_logs_button = close_logs
click config snapshot accept_button = answer_call accept_call
click config snapshot reject_button = answer_call (reject_call "rejected")
click config snapshot close_dialog_button = close_dialog
