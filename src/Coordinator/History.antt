-- ===== src/Coordinator/History.antt =====
-- Every history of the client keeps its invariant (src/call_coordinator.cc).
use webrtc_peerconnection_cl.Prelude.{
  Bool, ◌≡◌, ◌≢◌, refl, String, Bool, true, false, List, [], ◌∷◌, arith, Bool-cases, inl, inr,
}
use webrtc_peerconnection_cl.CallManager.{expires, step, timer_expires}
use webrtc_peerconnection_cl.Watchdog.{fire}
use webrtc_peerconnection_cl.Ports.{
  local_video_track_added, engine_error, Notice, report, remote_video_track_added,
  remote_video_track_removed, ice_connection_state_changed, offer_created, answer_created,
  ice_candidate_generated, EnginePort,
}
use webrtc_peerconnection_cl.Coordinator.{Task, hangup_task, ice_state_task, Coordinator}
use webrtc_peerconnection_cl.Coordinator.Handlers.{run_manager, on_report}
use webrtc_peerconnection_cl.Coordinator.Control.{
  on_ice_connection_state_changed, on_notice, ice_state_to_string,
}
use webrtc_peerconnection_cl.Coordinator.Signals.{engine_call, on_notices, run_next_task}
use webrtc_peerconnection_cl.Coordinator.World.{
  Turn, user_posts, runs_task, media_calls, watchdog_fires, request_timer_expires, signals,
  user_connects, user_disconnects, user_switches_source, signal_client_becomes, shuts_down, initial,
  media_turn, turn, turns,
}
use webrtc_peerconnection_cl.Coordinator.Frame.{apply_all, run_manager-apply}
use webrtc_peerconnection_cl.Coordinator.Invariant.{Safe, Inv, run_manager-Inv}
use webrtc_peerconnection_cl.Coordinator.Turns.{
  relabel-Inv, engine-Inv, run_task-Inv, post_to_call_control-Inv,
}
use webrtc_peerconnection_cl.LocalMedia.{LocalVideoSourceConfig, Outcome, done, failed}
use webrtc_peerconnection_cl.Coordinator.Controller.{
  connect_to_signal_server, disconnect_from_signal_server, report_source, switch_local_video_source,
}
use webrtc_peerconnection_cl.Coordinator.Reach.{engine_call-Inv, on_signal-Inv, shut_down-Inv}

module _ (P : EnginePort) where
  open P use {
    Engine, Callback, has_peer_connection, callback, callback-has, set_local_video_source,
    set_local_video_source-has,
  }

  pub report_source-same :
      (filename : String → String) (config : LocalVideoSourceConfig) (outcome : Outcome)
      (c : Coordinator Engine)
      → (report_source filename config outcome c).0 ≡ c
  unfolding report_source
  report_source-same filename config done c = ground arith
  report_source-same filename config (failed error) c = ground arith

  pub on_notice-Inv :
      (fresh : String) (n : Notice) (c : Coordinator Engine)
      → fresh ≢ ""
      → Inv P c
      → Inv P (on_notice P fresh n c).0
  unfolding on_notice
  on_notice-Inv fresh (report local_video_track_added) c f v = unfold on_report in ground arith
  on_notice-Inv fresh (report (engine_error error)) c f v = unfold on_report in ground arith
  on_notice-Inv fresh remote_video_track_added c f v = ground arith
  on_notice-Inv fresh remote_video_track_removed c f v = ground arith
  on_notice-Inv fresh (ice_connection_state_changed state) c f v =
      unfold on_ice_connection_state_changed in
      post_to_call_control-Inv P fresh (ice_state_task state)
        (record c { last_ice_state = ice_state_to_string state }) f
        (relabel-Inv P c (record c { last_ice_state = ice_state_to_string state }) refl refl refl
          refl refl refl v)
  on_notice-Inv fresh (offer_created sdp) c f v = v
  on_notice-Inv fresh (answer_created sdp) c f v = v
  on_notice-Inv fresh (ice_candidate_generated mid index candidate) c f v = v

  on_notices-Inv :
      (fresh : String) (ns : List Notice) (c : Coordinator Engine)
      → fresh ≢ ""
      → Inv P c
      → Inv P (on_notices P fresh ns c).0
  unfolding on_notices
  on_notices-Inv fresh [] c f v = v
  on_notices-Inv fresh (n ∷ ns) c f v =
      on_notices-Inv fresh ns (on_notice P fresh n c).0 f (on_notice-Inv fresh n c f v)

  run_next_task-Inv :
      (fresh : String) (c : Coordinator Engine) (ts : List Task)
      → c.tasks ≡ ts
      → fresh ≢ ""
      → Inv P c
      → Inv P (run_next_task P fresh c).0
  unfolding run_next_task
  run_next_task-Inv fresh c [] e f v = rw (e, run_next_task) v
  run_next_task-Inv fresh c (t ∷ ts) e f v =
      rw (e, run_next_task)
        (run_task-Inv P fresh t (record c { tasks = ts }) f
          (relabel-Inv P c (record c { tasks = ts }) refl refl refl refl refl refl v))

  -- After the shutdown the request timer still runs: it ends the call with nobody told.
  timer_down-Inv :
      (c : Coordinator Engine)
      → c.shutdown_started ≡ true
      → Inv P c
      → Inv P (
          apply_all P
            (timer_expires c.manager).1
            (record c { manager = (timer_expires c.manager).0 }))
  unfolding timer_expires
  timer_down-Inv c d v = ground arith

  timer-Inv : (c : Coordinator Engine) → Inv P c → Inv P (run_manager P timer_expires c).0
  timer-Inv c v = elim (Bool-cases c.shutdown_started) [
    | inl y ↦ rw (run_manager-apply P timer_expires c) (timer_down-Inv c y v)
    | inr n ↦ unfold step in run_manager-Inv P expires c tt tt n v
  ]

  -- The texts that `GenerateCallId` would return are not empty.
  abbrev pub IsFresh : Turn Callback → Type 0
  IsFresh (user_posts fresh task) = fresh ≢ ""
  IsFresh (runs_task fresh) = fresh ≢ ""
  IsFresh (media_calls fresh b) = fresh ≢ ""
  IsFresh (watchdog_fires fresh) = fresh ≢ ""
  IsFresh _ = Unit {0}

  abbrev pub AllFresh : List (Turn Callback) → Type 0
  AllFresh [] = Unit {0}
  AllFresh (t ∷ ts) = IsFresh t × AllFresh ts

  signals-Inv :
      (c : Coordinator Engine) (b : Bool)
      → c.signal_observed ≡ b
      → b ≡ true
      → Inv P c
      → c.shutdown_started ≡ false
  signals-Inv c b e t v = ground (arith, v.unsubscribed)

  switch-Inv :
      (filename : String → String) (takes : Bool) (config : LocalVideoSourceConfig)
      (c : Coordinator Engine)
      → Inv P c
      → Inv P (switch_local_video_source P filename takes config c).0
  unfolding switch_local_video_source
  switch-Inv filename takes config c v =
      let act = λ (e : Engine). (set_local_video_source takes config e).1 in
      let outcome = (set_local_video_source takes config c.engine).0 in
      let d = (engine_call P act c).0 in
      rw (report_source-same filename config outcome d)
        (engine_call-Inv P act c (set_local_video_source-has takes config c.engine) v)

  pub turn-Inv :
      (t : Turn Callback) (c : Coordinator Engine) → IsFresh t → Inv P c → Inv P (turn P t c).0
  unfolding turn media_turn connect_to_signal_server disconnect_from_signal_server
  turn-Inv (user_posts fresh task) c f v = post_to_call_control-Inv P fresh task c f v
  turn-Inv (runs_task fresh) c f v = run_next_task-Inv fresh c c.tasks refl f v
  turn-Inv (media_calls fresh b) c f v =
      on_notices-Inv fresh (callback b c.engine).1 (record c { engine = (callback b c.engine).0 }) f
        (engine-Inv P c (callback b c.engine).0 (callback-has b c.engine) v)
  turn-Inv (watchdog_fires fresh) c f v = elim (Bool-cases (fire c.watchdog)) [
    | inl y ↦ simp y (post_to_call_control-Inv P fresh hangup_task c f v)
    | inr n ↦ simp n v
  ]
  turn-Inv request_timer_expires c f v = timer-Inv c v
  turn-Inv (signals call) c f v = elim (Bool-cases c.signal_observed) [
    | inl y ↦ simp y (on_signal-Inv P call c (signals-Inv c c.signal_observed refl y v) v)
    | inr n ↦ simp n v
  ]
  turn-Inv (signal_client_becomes is_connected io_running) c f v =
      relabel-Inv P c (record c { signal_connected = is_connected; io_running = io_running }) refl
        refl refl refl refl refl v
  turn-Inv shuts_down c f v = shut_down-Inv P c v
  turn-Inv (user_connects url client_id) c f v = v
  turn-Inv user_disconnects c f v = v
  turn-Inv (user_switches_source filename takes config) c f v = switch-Inv filename takes config c v

  -- Every history keeps the invariant.
  pub turns-Inv :
      (ts : List (Turn Callback)) (c : Coordinator Engine)
      → AllFresh ts
      → Inv P c
      → Inv P (turns P ts c).0
  unfolding turns
  turns-Inv [] c f v = v
  turns-Inv (t ∷ ts) c f v = turns-Inv ts (turn P t c).0 f.1 (turn-Inv t c f.0 v)

  pub initial-Inv : (e : Engine) → has_peer_connection e ≡ false → Inv P (initial P e)
  initial-Inv e h = ground arith

  -- Start the client over an engine with no peer connection. After any history, of user calls,
  -- posted tasks, media callbacks, timers, signalling messages and a shutdown in any order: an idle client names no peer; a peer
  -- connection exists only while its call is being connected or is connected; and the ICE watchdog
  -- is armed only in a connected call. The generated call identifiers are not empty.
  pub turns-Safe :
      (e : Engine) (ts : List (Turn Callback))
      → has_peer_connection e ≡ false
      → AllFresh ts
      → Safe P (turns P ts (initial P e)).0
  turns-Safe e ts h f = (turns-Inv ts (initial P e) f (initial-Inv e h)).safe
