-- ===== src/UserInterface/Mirror.antt =====
-- The interface of src/sdl_app.cc over the coordinator of src/call_coordinator.cc.
use webrtc_peerconnection_cl.Prelude.{
  ◌≡◌, refl, ap, ◌∙◌, ℕ, suc, String, false, List, [], ◌∷◌, arith,
}
use webrtc_peerconnection_cl.CallManager.View.{View}
use webrtc_peerconnection_cl.Ports.{EnginePort}
use webrtc_peerconnection_cl.Coordinator.{
  UiCall, start_local_renderer, stop_local_renderer, start_remote_renderer, stop_remote_renderer,
  log_message, show_error, signal_connected, signal_error, signal_disconnected, client_list_update,
  ui_call_state_changed, ui_incoming_call, Out, transport, send_offer, send_answer,
  send_ice_candidate, connect_signal, disconnect_signal, ui_call,
}
use webrtc_peerconnection_cl.Coordinator.World.{Turn, initial, turns}
use webrtc_peerconnection_cl.Coordinator.History.{AllFresh, initial-Inv}
use webrtc_peerconnection_cl.Coordinator.Told.{told}
use webrtc_peerconnection_cl.Coordinator.Follow.{AllStayUp, turns-Follows}
use webrtc_peerconnection_cl.UserInterface.{
  UiSnapshot, receive, push_log, on_show_error, on_client_list_update, on_call_state_changed,
  new_ui,
}

-- A call of the coordinator reaches the interface if it is meant for it.
abbrev show1 : String → Out → UiSnapshot → UiSnapshot
show1 now (ui_call call) s = receive now call s
show1 now _ s = s

-- The calls in order, each at its time.
abbrev pub show : (ℕ → String) → ℕ → List Out → UiSnapshot → UiSnapshot
show clock n [] s = s
show clock n (o ∷ os) s = show clock (suc n) os (show1 (clock n) o s)

abbrev shown : UiSnapshot → View
shown s = (s.call_state, s.current_peer_id)

receive-shown :
    (now : String) (call : UiCall) (s : UiSnapshot)
    → shown (receive now call s) ≡ told (ui_call call ∷ []) (shown s)
unfolding receive push_log on_show_error on_client_list_update on_call_state_changed
receive-shown now start_local_renderer s = refl
receive-shown now stop_local_renderer s = refl
receive-shown now start_remote_renderer s = refl
receive-shown now stop_remote_renderer s = refl
receive-shown now (log_message message level) s = refl
receive-shown now (show_error title message) s = refl
receive-shown now (signal_connected client_id) s = refl
receive-shown now signal_disconnected s = refl
receive-shown now (signal_error error) s = refl
receive-shown now (client_list_update clients) s = ground arith
receive-shown now (ui_call_state_changed state peer_id) s = refl
receive-shown now (ui_incoming_call caller_id) s = refl

show1-shown :
    (now : String) (o : Out) (s : UiSnapshot) → shown (show1 now o s) ≡ told (o ∷ []) (shown s)
show1-shown now (ui_call call) s = receive-shown now call s
show1-shown now (transport e) s = refl
show1-shown now (send_offer to sdp) s = refl
show1-shown now (send_answer to sdp) s = refl
show1-shown now (send_ice_candidate to candidate) s = refl
show1-shown now (connect_signal url client_id) s = refl
show1-shown now disconnect_signal s = refl

show-shown :
    (clock : ℕ → String) (n : ℕ) (os : List Out) (s : UiSnapshot)
    → shown (show clock n os s) ≡ told os (shown s)
show-shown clock n [] s = refl
show-shown clock n (o ∷ os) s =
    show-shown clock (suc n) os (show1 (clock n) o s) ∙ ap (told os) (show1-shown (clock n) o s)

-- Start the client over an engine with no peer connection, with a new interface. After any history
-- without a shutdown, of user calls, posted tasks, media callbacks, timers and signalling messages in
-- any order: the interface shows the call manager's state, and the call manager's peer. The
-- generated call identifiers are not empty.
pub turns-shown :
    (P : EnginePort) (e : P.Engine) (ts : List (Turn P.Callback)) (clock : ℕ → String)
    (now : String)
    → P.has_peer_connection e ≡ false
    → AllFresh P ts
    → AllStayUp P ts
    → let r = turns P ts (initial P e) in
      let ui = show clock 0 r.1 (new_ui now) in
      (ui.call_state ≡ r.0.manager.call_state) × (ui.current_peer_id ≡ r.0.manager.current_peer)
unfolding new_ui push_log
turns-shown P e ts clock now h f k =
    let c = initial P e in
    let follows = turns-Follows P ts c f k (refl, refl) (initial-Inv P e h) in
    let same = show-shown clock 0 (turns P ts c).1 (new_ui now) ∙ follows.2 in
    (ap (λ v. v.0) same, ap (λ v. v.1) same)
