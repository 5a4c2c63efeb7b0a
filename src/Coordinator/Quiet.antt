-- ===== src/Coordinator/Quiet.antt =====
-- After `Shutdown` the client makes no more calls (src/call_coordinator.cc).
use webrtc_peerconnection_cl.Prelude.{
  ◌≡◌, refl, ap, ◌∙◌, String, true, false, List, [], ◌∷◌, ◌++◌, arith,
}
use webrtc_peerconnection_cl.CallManager.{Manager, timer_expires}
use webrtc_peerconnection_cl.Ports.{EnginePort}
use webrtc_peerconnection_cl.Coordinator.{Task, hangup_task, Coordinator}
use webrtc_peerconnection_cl.Coordinator.Handlers.{
  run_manager, deliver_all, stop_ice_disconnect_watchdog,
}
use webrtc_peerconnection_cl.Coordinator.Control.{run_task, post_to_call_control}
use webrtc_peerconnection_cl.Coordinator.Signals.{shut_down, run_next_task}
use webrtc_peerconnection_cl.Coordinator.World.{
  Turn, user_posts, runs_task, media_calls, watchdog_fires, request_timer_expires, signals,
  user_connects, user_disconnects, user_switches_source, signal_client_becomes, shuts_down, initial,
  turn, turns,
}
use webrtc_peerconnection_cl.Coordinator.Invariant.{Inv}
use webrtc_peerconnection_cl.Coordinator.History.{AllFresh, turn-Inv, turns-Inv, initial-Inv}
use webrtc_peerconnection_cl.Coordinator.Reach.{shut_down-Inv}

module _ (P : EnginePort) where
  open P use {Engine, Callback, has_peer_connection}

  post-quiet :
      (fresh : String) (task : Task) (c : Coordinator Engine)
      → c.shutdown_started ≡ true
      → post_to_call_control P fresh task c ≡ (c, [])
  unfolding post_to_call_control
  post-quiet fresh task c d = ground arith

  task-quiet :
      (fresh : String) (task : Task) (c : Coordinator Engine)
      → c.shutdown_started ≡ true
      → run_task P fresh task c ≡ (c, [])
  unfolding run_task
  task-quiet fresh task c d = ground arith

  timer-quiet : (m : Manager) → m.observer ≡ false → (timer_expires m).1 ≡ []
  unfolding timer_expires
  timer-quiet m o = ground arith

  -- Every turn but the media library's, whose reports stop with the engine's own observer, and the
  -- three user calls that pass on to the signalling client or the engine without a look at the
  -- shutdown.
  abbrev pub IsOwn : Turn Callback → Type 0
  IsOwn (media_calls fresh b) = ⊥
  IsOwn (user_connects url client_id) = ⊥
  IsOwn user_disconnects = ⊥
  IsOwn (user_switches_source filename takes config) = ⊥
  IsOwn _ = Unit {0}

  abbrev pub AllOwn : List (Turn Callback) → Type 0
  AllOwn [] = Unit {0}
  AllOwn (t ∷ ts) = IsOwn t × AllOwn ts

  next_task-quiet :
      (fresh : String) (c : Coordinator Engine) (ts : List Task)
      → c.tasks ≡ ts
      → c.shutdown_started ≡ true
      → ((run_next_task P fresh c).1 ≡ []) × ((run_next_task P fresh c).0.shutdown_started ≡ true)
  unfolding run_next_task
  next_task-quiet fresh c [] e d = ground arith
  next_task-quiet fresh c (t ∷ ts) e d =
      ground (arith, task-quiet fresh t (record c { tasks = ts }) d)

  turn-quiet :
      (t : Turn Callback) (c : Coordinator Engine)
      → IsOwn t
      → c.shutdown_started ≡ true
      → Inv P c
      → ((turn P t c).1 ≡ []) × ((turn P t c).0.shutdown_started ≡ true)
  unfolding turn
  turn-quiet (user_posts fresh task) c w d v = ground (arith, post-quiet fresh task c d)
  turn-quiet (runs_task fresh) c w d v = next_task-quiet fresh c c.tasks refl d
  turn-quiet (media_calls fresh b) c w d v = absurd w
  turn-quiet (user_connects url client_id) c w d v = absurd w
  turn-quiet user_disconnects c w d v = absurd w
  turn-quiet (user_switches_source filename takes config) c w d v = absurd w
  turn-quiet (watchdog_fires fresh) c w d v = ground (arith, post-quiet fresh hangup_task c d)
  turn-quiet request_timer_expires c w d v =
      unfold run_manager deliver_all in rw (timer-quiet c.manager (v.down_observer d)) (refl, d)
  turn-quiet (signals call) c w d v = ground (arith, v.unsubscribed d)
  turn-quiet (signal_client_becomes is_connected io_running) c w d v = (refl, d)
  turn-quiet shuts_down c w d v = unfold shut_down in ground arith

  down-quiet :
      (ts : List (Turn Callback)) (c : Coordinator Engine)
      → AllOwn ts
      → AllFresh P ts
      → c.shutdown_started ≡ true
      → Inv P c
      → (turns P ts c).1 ≡ []
  unfolding turns
  down-quiet [] c w f d v = refl
  down-quiet (t ∷ ts) c w f d v =
      let q = turn-quiet t c w.0 d v in
      ap (λ es. es ++ (turns P ts (turn P t c).0).1) q.0
      ∙ down-quiet ts (turn P t c).0 w.1 f.1 q.1 (turn-Inv P t c f.0 v)

  shut_down-started : (c : Coordinator Engine) → (shut_down P c).0.shutdown_started ≡ true
  unfolding shut_down stop_ice_disconnect_watchdog
  shut_down-started c = ground arith

  -- Start the client over an engine with no peer connection, let anything happen in any order, and
  -- shut it down. After that no call of the user about a call, no posted task, timer or signalling
  -- message, in any order, makes the client send anything or call the interface. The generated call
  -- identifiers are not empty. Left out are callbacks of the media library, and the user's calls
  -- that connect to the server, disconnect from it and switch the video source: these are passed on
  -- whether the client is shut down or not.
  pub turns-quiet :
      (e : Engine) (before after : List (Turn Callback))
      → has_peer_connection e ≡ false
      → AllFresh P before
      → AllFresh P after
      → AllOwn after
      → let c = (turns P before (initial P e)).0 in (turns P after (turn P shuts_down c).0).1 ≡ []
  unfolding turn
  turns-quiet e before after h f g w =
      let c = (turns P before (initial P e)).0 in
      let v = turns-Inv P before (initial P e) f (initial-Inv P e h) in
      down-quiet after (shut_down P c).0 w g (shut_down-started c) (shut_down-Inv P c v)
