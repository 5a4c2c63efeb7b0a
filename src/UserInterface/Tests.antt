-- ===== src/UserInterface/Tests.antt =====
-- The interface at concrete inputs (src/sdl_app.cc).
use webrtc_peerconnection_cl.Prelude.{
  ◌≡◌, ◌≢◌, refl, ℕ, ◌-◌, String, true, none, some, pos, List, [], ◌∷◌, length, drop, arith, eq_iff,
}
use webrtc_peerconnection_cl.SignalTypes.{ClientInfo}
use webrtc_peerconnection_cl.CallManager.{receiving}
use webrtc_peerconnection_cl.LocalMedia.{camera}
use webrtc_peerconnection_cl.Ports.{EnginePort}
use webrtc_peerconnection_cl.Engine.{has_peer_connection}
use webrtc_peerconnection_cl.Engine.Callbacks.{Callback}
use webrtc_peerconnection_cl.Engine.Port.{engine_port}
use webrtc_peerconnection_cl.Engine.Sample.{
  SampleConnection, sample_media, sample_files, sample_engine,
}
use webrtc_peerconnection_cl.Coordinator.{
  UiCall, log_message, show_error, client_list_update, ui_call_state_changed, signal_connected,
  start_call_task,
}
use webrtc_peerconnection_cl.Coordinator.Signals.{response_call}
use webrtc_peerconnection_cl.Coordinator.World.{
  Turn, user_posts, runs_task, signals, signal_client_becomes, initial, turns,
}
use webrtc_peerconnection_cl.VideoRenderer.{
  new_video_renderer, on_frame, clear, consume_latest_frame,
}
use webrtc_peerconnection_cl.Config.{AppConfig}
use webrtc_peerconnection_cl.UserInterface.{
  UiSnapshot, log_entry, new_ui, receive, click, on_client_list_update, start_call_button,
  selects_client, start_call,
}
use webrtc_peerconnection_cl.UserInterface.Texture.{
  GraphicsAnswers, no_texture, update_video_texture,
}
use webrtc_peerconnection_cl.UserInterface.Logs.{all_entries, receive_all, receive_all-last_logs}
use webrtc_peerconnection_cl.UserInterface.Mirror.{show, turns-shown}

abbrev port : EnginePort
port = engine_port sample_media sample_files

abbrev fresh_id : String
fresh_id = "c1"

fresh_id_named : fresh_id ≢ ""
fresh_id_named = ground (arith, eq_iff fresh_id "")

-- A call is made, and accepted by the callee.
abbrev a_call : List (Turn (Callback SampleConnection))
a_call =
    signal_client_becomes true true
    ∷ user_posts fresh_id (start_call_task "bob")
    ∷ runs_task fresh_id
    ∷ signals (response_call "bob" "c1" true "")
    ∷ []

abbrev noon : ℕ → String
noon n = "12:00:00"

turns-shown_example :
    let r = turns port a_call (initial port sample_engine) in
    let ui = show noon 0 r.1 (new_ui "11:59:59") in
    (ui.call_state ≡ r.0.manager.call_state) × (ui.current_peer_id ≡ r.0.manager.current_peer)
turns-shown_example =
    turns-shown port sample_engine a_call noon "11:59:59" (unfold has_peer_connection in refl)
      (tt, (fresh_id_named, (fresh_id_named, (tt, tt)))) (tt, (tt, (tt, (tt, tt))))

abbrev three_calls : List (String × UiCall)
three_calls =
    ("12:00:01", log_message "Ringing" "info")
    ∷ ("12:00:02", ui_call_state_changed receiving "bob")
    ∷ ("12:00:03", show_error "Error" "no camera")
    ∷ []

receive_all-last_logs_example :
    let all = log_entry "12:00:00" "info" "Application started" ∷ all_entries three_calls in
    (receive_all three_calls (new_ui "12:00:00")).logs ≡ drop (length all - 200) all
receive_all-last_logs_example = receive_all-last_logs "12:00:00" three_calls

abbrev alice_and_bob : List ClientInfo
alice_and_bob = record { id = "alice" } ∷ record { id = "bob" } ∷ []

abbrev config : AppConfig
config = record {
  signal_host = "relay.test";
  signal_port = pos 8081;
  username = "alice";
  signal_url = "ws://relay.test:8081/ws/webrtc";
  local_video_source = record { kind = camera; file_path = "" };
}

abbrev online : UiSnapshot
online =
    receive "" (client_list_update alice_and_bob)
      (receive "" (signal_connected "alice") (new_ui ""))

-- The other user is selected and called; oneself cannot be selected; a user who leaves is no longer
-- selected.
click_test :
    let chosen = (click config online (selects_client (record { id = "bob" })) online).0 in
    (chosen.selected_peer_id ≡ some "bob")
    × ((click config chosen start_call_button chosen).1 ≡ start_call "bob" ∷ [])
    × ((click config online start_call_button online).1 ≡ [])
    × ((click config online (selects_client (record { id = "alice" })) online).0.selected_peer_id
        ≡ none)
    × ((receive "" (client_list_update []) chosen).selected_peer_id ≡ none)
unfolding click receive on_client_list_update new_ui
click_test = (refl, refl, refl, refl, refl)

abbrev all_work : GraphicsAnswers
all_work = record { has_device = true; creates_texture = true; creates_view = true; maps = true }

abbrev black : List ℕ
black = 0 ∷ 0 ∷ 0 ∷ 255 ∷ []

texture_test :
    let shown = update_video_texture all_work (on_frame 1 1 black new_video_renderer, no_texture) in
    (shown.1.content ≡ black)
    × (shown.1.width ≡ 1)
    × ((update_video_texture all_work shown).1 ≡ shown.1)
    × ((update_video_texture all_work (clear shown.0, shown.1)).1 ≡ no_texture)
unfolding update_video_texture on_frame clear consume_latest_frame
texture_test = (refl, refl, refl, refl)
