-- ===== src/Coordinator/Follow.antt =====
-- What the interface knows of the call follows the call manager, over any history of the client
-- (src/call_coordinator.cc).
mod Tasks
use webrtc_peerconnection_cl.Prelude.{
  ◌≡◌, ◌≢◌, refl, sym, ap, ◌∙◌, String, true, false, List, [], ◌∷◌, arith, Act, ◌⨾◌,
}
use webrtc_peerconnection_cl.CallManager.{
  initiates, accepts, ends, establishes, expires, rejects, gets_request, gets_response, gets_cancel,
  gets_end, Event, step,
}
use webrtc_peerconnection_cl.CallManager.View.{view}
use webrtc_peerconnection_cl.Watchdog.{disarm}
use webrtc_peerconnection_cl.Ports.{
  IceState, ice_new, checking, ice_connected, completed, failed, disconnected, closed, Notice,
  Report, local_video_track_added, engine_error, report, remote_video_track_added,
  remote_video_track_removed, ice_connection_state_changed, offer_created, answer_created,
  ice_candidate_generated, EnginePort,
}
use webrtc_peerconnection_cl.Coordinator.{
  CoordinatorAct, Coordinator, Task, start_call_task, reject_call_task, accept_call_task,
  end_call_task, hangup_task, ice_state_task,
}
use webrtc_peerconnection_cl.Coordinator.Handlers.{
  run_manager, on_report, on_offer_created, on_answer_created, on_ice_candidate_generated,
  stop_ice_disconnect_watchdog,
}
use webrtc_peerconnection_cl.Coordinator.Control.{
  ice_established, ice_unstable, ice_state_changed, watchdog_hangup, perform, run_task,
  post_to_call_control, on_ice_connection_state_changed, on_notice, ice_state_to_string,
  start_ice_disconnect_watchdog, on_connected, on_disconnected, on_connection_error,
  on_client_list_update,
}
use webrtc_peerconnection_cl.Coordinator.Signals.{
  SignalCall, connected_call, connection_error_call, user_offline_call, disconnected_call,
  ice_servers_call, client_list_call, request_call, response_call, cancel_call_call, end_call_call,
  offer_call, answer_call, ice_candidate_call, engine_call, on_ice_servers_received,
  on_user_offline, process_offer, process_answer, process_ice_candidate, on_signal, on_notices,
  run_next_task,
}
use webrtc_peerconnection_cl.Coordinator.World.{
  Turn, user_posts, runs_task, media_calls, watchdog_fires, request_timer_expires, signals,
  user_connects, user_disconnects, user_switches_source, signal_client_becomes, shuts_down,
  media_turn, turn, turns,
}
use webrtc_peerconnection_cl.LocalMedia.{LocalVideoSourceConfig, Outcome, done, failed as refused}
use webrtc_peerconnection_cl.Coordinator.Controller.{
  connect_to_signal_server, disconnect_from_signal_server, report_source, switch_local_video_source,
}
use webrtc_peerconnection_cl.Coordinator.Frame.{on_reports-same}
use webrtc_peerconnection_cl.Coordinator.Invariant.{Inv}
use webrtc_peerconnection_cl.Coordinator.Turns.{disarm-Inv, relabel-Inv, engine-Inv}
use webrtc_peerconnection_cl.Coordinator.History.{IsFresh, AllFresh, turn-Inv, on_notice-Inv}
use webrtc_peerconnection_cl.Coordinator.Told.{
  told, told-append, Follows, run_manager-Follows, on_reports-told,
}
use webrtc_peerconnection_cl.Coordinator.Follow.Tasks.{
  Up, then-Follows, event-Follows, post-Follows, next_task-Follows,
}

module _ (P : EnginePort) where
  open P use {
    Engine, Callback, has_peer_connection, callback, callback-has, set_remote_offer,
    set_remote_answer, set_ice_servers, set_local_video_source,
  }

  notice-Follows :
      (fresh : String) (n : Notice) (c : Coordinator Engine)
      → Up P c
      → Inv P c
      → Follows P c (on_notice P fresh n c)
  unfolding on_notice
  notice-Follows fresh (report local_video_track_added) c u v = unfold on_report in ground arith
  notice-Follows fresh (report (engine_error error)) c u v = unfold on_report in ground arith
  notice-Follows fresh remote_video_track_added c u v = ground arith
  notice-Follows fresh remote_video_track_removed c u v = ground arith
  notice-Follows fresh (ice_connection_state_changed state) c u v =
      let d = record c { last_ice_state = ice_state_to_string state } in
      unfold on_ice_connection_state_changed in
      post-Follows P fresh (ice_state_task state) d u
        (relabel-Inv P c d refl refl refl refl refl refl v)
  notice-Follows fresh (offer_created sdp) c u v = unfold on_offer_created in ground arith
  notice-Follows fresh (answer_created sdp) c u v = unfold on_answer_created in ground arith
  notice-Follows fresh (ice_candidate_generated mid index candidate) c u v =
      unfold on_ice_candidate_generated in ground arith

  notices-Follows :
      (fresh : String) (ns : List Notice) (c : Coordinator Engine)
      → fresh ≢ ""
      → Up P c
      → Inv P c
      → Follows P c (on_notices P fresh ns c)
  unfolding on_notices
  notices-Follows fresh [] c f u v = (u.0, u.1, refl)
  notices-Follows fresh (n ∷ ns) c f u v =
      let c' = (on_notice P fresh n c).0 in
      let h = notice-Follows fresh n c u v in
      then-Follows P (on_notice P fresh n) (on_notices P fresh ns) c h
        (notices-Follows fresh ns c' f (h.0, h.1) (on_notice-Inv P fresh n c f v))

  engine_call-Follows :
      (act : Act Engine Report) (c : Coordinator Engine)
      → Up P c
      → Follows P c (engine_call P act c)
  unfolding engine_call
  engine_call-Follows act c u =
      let d = record c { engine = (act c.engine).0 } in
      let same = on_reports-same (act c.engine).1 d in
      (
        ap (λ x. x.ui) same ∙ u.0,
        ap (λ x. x.shutdown_started) same ∙ u.1,
        on_reports-told (act c.engine).1 d (view c.manager) ∙ sym (ap (λ x. view x.manager) same),
      )

  signal-Follows :
      (call : SignalCall) (c : Coordinator Engine)
      → Up P c
      → Inv P c
      → Follows P c (on_signal P call c)
  unfolding on_signal step
  signal-Follows (connected_call client_id) c u v = unfold on_connected in ground arith
  signal-Follows disconnected_call c u v = unfold on_disconnected in ground arith
  signal-Follows (connection_error_call error) c u v = unfold on_connection_error in ground arith
  signal-Follows (ice_servers_call servers) c u v = unfold on_ice_servers_received in ground arith
  signal-Follows (client_list_call clients) c u v = unfold on_client_list_update in ground arith
  signal-Follows (user_offline_call client_id) c u v =
      unfold on_user_offline in ground (arith, event-Follows P ends c u v)
  signal-Follows (request_call from call_id) c u v =
      event-Follows P (gets_request from call_id) c u v
  signal-Follows (response_call from call_id accepted reason) c u v =
      event-Follows P (gets_response from call_id accepted reason) c u v
  signal-Follows (cancel_call_call from call_id reason) c u v =
      event-Follows P (gets_cancel from call_id reason) c u v
  signal-Follows (end_call_call from call_id reason) c u v =
      event-Follows P (gets_end from call_id reason) c u v
  signal-Follows (offer_call from sdp) c u v =
      let d = record c { current_peer_id = from; is_caller = false } in
      unfold process_offer in ground (arith, engine_call-Follows (set_remote_offer sdp.sdp) d u)
  signal-Follows (answer_call from sdp) c u v =
      unfold process_answer in ground (arith, engine_call-Follows (set_remote_answer sdp.sdp) c u)
  signal-Follows (ice_candidate_call from candidate) c u v =
      unfold process_ice_candidate in ground arith

  abbrev pub StaysUp : Turn Callback → Type 0
  StaysUp shuts_down = ⊥
  StaysUp _ = Unit {0}

  abbrev pub AllStayUp : List (Turn Callback) → Type 0
  AllStayUp [] = Unit {0}
  AllStayUp (t ∷ ts) = StaysUp t × AllStayUp ts

  source-Follows :
      (filename : String → String) (config : LocalVideoSourceConfig) (outcome : Outcome)
      (c : Coordinator Engine)
      → Up P c
      → Follows P c (report_source filename config outcome c)
  unfolding report_source
  source-Follows filename config done c u = ground arith
  source-Follows filename config (refused error) c u = ground arith

  turn-Follows :
      (t : Turn Callback) (c : Coordinator Engine)
      → IsFresh P t
      → StaysUp t
      → Up P c
      → Inv P c
      → Follows P c (turn P t c)
  unfolding turn media_turn step connect_to_signal_server disconnect_from_signal_server
      switch_local_video_source
  turn-Follows (user_posts fresh task) c f k u v = post-Follows P fresh task c u v
  turn-Follows (runs_task fresh) c f k u v = next_task-Follows P fresh c c.tasks refl u v
  turn-Follows (media_calls fresh b) c f k u v =
      notices-Follows fresh (callback b c.engine).1 (record c { engine = (callback b c.engine).0 })
        f u (engine-Inv P c (callback b c.engine).0 (callback-has b c.engine) v)
  turn-Follows (watchdog_fires fresh) c f k u v =
      ground (arith, post-Follows P fresh hangup_task c u v)
  turn-Follows request_timer_expires c f k u v = event-Follows P expires c u v
  turn-Follows (signals call) c f k u v = ground (arith, signal-Follows call c u v)
  turn-Follows (signal_client_becomes is_connected io_running) c f k u v = (u.0, u.1, refl)
  turn-Follows shuts_down c f k u v = elim k [ ]
  turn-Follows (user_connects url client_id) c f k u v = (u.0, u.1, refl)
  turn-Follows user_disconnects c f k u v = (u.0, u.1, refl)
  turn-Follows (user_switches_source filename takes config) c f k u v =
      let act = λ (e : Engine). (set_local_video_source takes config e).1 in
      let outcome = (set_local_video_source takes config c.engine).0 in
      let h = engine_call-Follows act c u in
      then-Follows P (engine_call P act) (report_source filename config outcome) c h
        (source-Follows filename config outcome (engine_call P act c).0 (h.0, h.1))

  pub turns-Follows :
      (ts : List (Turn Callback)) (c : Coordinator Engine)
      → AllFresh P ts
      → AllStayUp ts
      → Up P c
      → Inv P c
      → Follows P c (turns P ts c)
  unfolding turns
  turns-Follows [] c f k u v = (u.0, u.1, refl)
  turns-Follows (t ∷ ts) c f k u v =
      let h = turn-Follows t c f.0 k.0 u v in
      then-Follows P (turn P t) (turns P ts) c h
        (turns-Follows ts (turn P t c).0 f.1 k.1 (h.0, h.1) (turn-Inv P t c f.0 v))
