-- ===== src/Coordinator/Follow/Tasks.antt =====
-- What the interface knows of the call follows the call manager over the events and the tasks
-- (src/call_coordinator.cc).
use webrtc_peerconnection_cl.Prelude.{
  ◌≡◌, refl, ap, ◌∙◌, String, true, false, List, [], ◌∷◌, arith, ◌⨾◌,
}
use webrtc_peerconnection_cl.CallManager.{
  initiates, accepts, ends, establishes, rejects, Event, step,
}
use webrtc_peerconnection_cl.CallManager.View.{view}
use webrtc_peerconnection_cl.Watchdog.{disarm}
use webrtc_peerconnection_cl.Ports.{
  IceState, ice_new, checking, ice_connected, completed, failed, disconnected, closed, EnginePort,
}
use webrtc_peerconnection_cl.Coordinator.{
  CoordinatorAct, Coordinator, Task, start_call_task, reject_call_task, accept_call_task,
  end_call_task, hangup_task, ice_state_task,
}
use webrtc_peerconnection_cl.Coordinator.Handlers.{run_manager, stop_ice_disconnect_watchdog}
use webrtc_peerconnection_cl.Coordinator.Control.{
  ice_established, ice_unstable, ice_state_changed, watchdog_hangup, perform, run_task,
  post_to_call_control, start_ice_disconnect_watchdog,
}
use webrtc_peerconnection_cl.Coordinator.Signals.{run_next_task}
use webrtc_peerconnection_cl.Coordinator.Invariant.{Inv}
use webrtc_peerconnection_cl.Coordinator.Turns.{disarm-Inv, relabel-Inv}
use webrtc_peerconnection_cl.Coordinator.Told.{told, told-append, Follows, run_manager-Follows}

module _ (P : EnginePort) where
  open P use {
    Engine, Callback, has_peer_connection, callback, callback-has, set_remote_offer,
    set_remote_answer, set_ice_servers,
  }

  -- The client is up.
  abbrev pub Up : Coordinator Engine → Type 0
  Up c = (c.ui ≡ true) × (c.shutdown_started ≡ false)

  pub then-Follows :
      (f g : CoordinatorAct Engine) (c : Coordinator Engine)
      → Follows P c (f c)
      → Follows P (f c).0 (g (f c).0)
      → Follows P c ((f ⨾ g) c)
  then-Follows f g c h k = (
    k.0,
    k.1,
    told-append (f c).1 (g (f c).0).1 (view c.manager) ∙ (ap (told (g (f c).0).1) h.2 ∙ k.2),
  )

  pub event-Follows :
      (e : Event) (c : Coordinator Engine) → Up c → Inv P c → Follows P c (run_manager P (step e) c)
  event-Follows e c u v = run_manager-Follows P e c u.0 u.1 (v.observed u.1) v.calls

  watchdog_hangup-Follows :
      (c : Coordinator Engine) → Up c → Inv P c → Follows P c (watchdog_hangup P c)
  unfolding watchdog_hangup step
  watchdog_hangup-Follows c u v = ground (arith, event-Follows ends c u v)

  ice_state-Follows :
      (state : IceState) (c : Coordinator Engine)
      → Up c
      → Inv P c
      → Follows P c (ice_state_changed P state c)
  unfolding ice_state_changed ice_established ice_unstable stop_ice_disconnect_watchdog
      start_ice_disconnect_watchdog step
  ice_state-Follows ice_connected c u v =
      event-Follows establishes (record c { watchdog = disarm c.watchdog }) u (disarm-Inv P c v)
  ice_state-Follows completed c u v =
      event-Follows establishes (record c { watchdog = disarm c.watchdog }) u (disarm-Inv P c v)
  ice_state-Follows failed c u v = ground arith
  ice_state-Follows disconnected c u v = ground arith
  ice_state-Follows closed c u v = ground arith
  ice_state-Follows ice_new c u v = ground arith
  ice_state-Follows checking c u v = ground arith

  perform-Follows :
      (fresh : String) (task : Task) (c : Coordinator Engine)
      → Up c
      → Inv P c
      → Follows P c (perform P fresh task c)
  unfolding perform step
  perform-Follows fresh (start_call_task peer_id) c u v =
      event-Follows (initiates c.signal_connected peer_id fresh) c u v
  perform-Follows fresh accept_call_task c u v = event-Follows accepts c u v
  perform-Follows fresh (reject_call_task reason) c u v = event-Follows (rejects reason) c u v
  perform-Follows fresh end_call_task c u v = event-Follows ends c u v
  perform-Follows fresh hangup_task c u v = watchdog_hangup-Follows c u v
  perform-Follows fresh (ice_state_task state) c u v = ice_state-Follows state c u v

  run_task-Follows :
      (fresh : String) (task : Task) (c : Coordinator Engine)
      → Up c
      → Inv P c
      → Follows P c (run_task P fresh task c)
  unfolding run_task
  run_task-Follows fresh task c u v = simp (u.1) (perform-Follows fresh task c u v)

  pub post-Follows :
      (fresh : String) (task : Task) (c : Coordinator Engine)
      → Up c
      → Inv P c
      → Follows P c (post_to_call_control P fresh task c)
  unfolding post_to_call_control
  post-Follows fresh task c u v = ground (arith, run_task-Follows fresh task c u v)

  pub next_task-Follows :
      (fresh : String) (c : Coordinator Engine) (ts : List Task)
      → c.tasks ≡ ts
      → Up c
      → Inv P c
      → Follows P c (run_next_task P fresh c)
  unfolding run_next_task
  next_task-Follows fresh c [] e u v = ground (arith, e)
  next_task-Follows fresh c (t ∷ ts) e u v =
      let d = record c { tasks = ts } in
      ground
        (arith, e, run_task-Follows fresh t d u (relabel-Inv P c d refl refl refl refl refl refl v))
