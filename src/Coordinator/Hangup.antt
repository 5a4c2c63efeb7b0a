-- ===== src/Coordinator/Hangup.antt =====
-- The automatic hang-up of a call whose media path is lost, and the silence after a shutdown
-- (src/call_coordinator.cc).
use webrtc_peerconnection_cl.Prelude.{◌≡◌, ap, ◌∙◌, ◌⊎◌, String, true, false, none, arith}
use webrtc_peerconnection_cl.CallManager.{
  idle, connected, end_call, notify_peer_connection_established,
}
use webrtc_peerconnection_cl.Watchdog.{fire}
use webrtc_peerconnection_cl.Ports.{
  IceState, ice_new, checking, failed, disconnected, closed, ice_connected, completed, EnginePort,
}
use webrtc_peerconnection_cl.Coordinator.{hangup_task, ice_state_task, Coordinator}
use webrtc_peerconnection_cl.Coordinator.Handlers.{run_manager, deliver_all}
use webrtc_peerconnection_cl.Coordinator.Frame.{run_manager-apply}
use webrtc_peerconnection_cl.Coordinator.Control.{
  ice_established, ice_unstable, ice_state_changed, watchdog_hangup, run_task,
}

module _ (P : EnginePort) where
  open P use {Engine, has_peer_connection, close-has}

  abbrev IsUnstable : IceState → Type 0
  IsUnstable state = (state ≡ failed) ⊎ (state ≡ disconnected) ⊎ (state ≡ closed)

  end_call_closes :
      (c : Coordinator Engine)
      → c.manager.call_state ≡ connected
      → c.manager.observer ≡ true
      → let d = (run_manager P end_call c).0 in
        (d.manager.call_state ≡ idle)
        × (d.current_peer_id ≡ "")
        × (has_peer_connection d.engine ≡ false)
        × (d.watchdog.thread ≡ none)
  unfolding end_call
  end_call_closes c k o = rw (run_manager-apply P end_call c) (ground (arith, close-has c.engine))

  ice_unstable-arms :
      (state : IceState) (c : Coordinator Engine)
      → c.manager.call_state ≡ connected
      → let d = (ice_unstable P state c).0 in
        (fire d.watchdog ≡ true)
        × (d.manager ≡ c.manager)
        × (d.shutdown_started ≡ c.shutdown_started)
  unfolding ice_unstable
  ice_unstable-arms state c k = ground arith

  lost-arms :
      (fresh : String) (state : IceState) (c : Coordinator Engine)
      → IsUnstable state
      → c.manager.call_state ≡ connected
      → c.shutdown_started ≡ false
      → let d = (run_task P fresh (ice_state_task state) c).0 in
        (fire d.watchdog ≡ true) × (d.manager ≡ c.manager) × (d.shutdown_started ≡ false)
  unfolding run_task ice_state_changed
  lost-arms fresh failed c u k s = ground (arith, ice_unstable-arms failed c k)
  lost-arms fresh disconnected c u k s = ground (arith, ice_unstable-arms disconnected c k)
  lost-arms fresh closed c u k s = ground (arith, ice_unstable-arms closed c k)
  lost-arms fresh ice_new c u k s = absurd (ground arith)
  lost-arms fresh checking c u k s = absurd (ground arith)
  lost-arms fresh ice_connected c u k s = absurd (ground arith)
  lost-arms fresh completed c u k s = absurd (ground arith)

  hangup-closes :
      (fresh : String) (c : Coordinator Engine)
      → c.manager.call_state ≡ connected
      → c.manager.observer ≡ true
      → c.shutdown_started ≡ false
      → let d = (run_task P fresh hangup_task c).0 in
        (d.manager.call_state ≡ idle)
        × (d.current_peer_id ≡ "")
        × (has_peer_connection d.engine ≡ false)
        × (d.watchdog.thread ≡ none)
  unfolding run_task watchdog_hangup
  hangup-closes fresh c k o s = ground (arith, end_call_closes c k o)

  -- In a connected call of a client that is not shut down, with the call manager observed,
  -- when the media path fails, disconnects or closes, the watchdog is armed so that its
  -- running out calls back; and if it does while the call is still as it was, the task that it
  -- posts ends the call: the client is idle with no peer, no peer connection and no watchdog.
  pub lost_media_hangs_up :
      (fresh later : String) (state : IceState) (c : Coordinator Engine)
      → IsUnstable state
      → c.manager.call_state ≡ connected
      → c.manager.observer ≡ true
      → c.shutdown_started ≡ false
      → let d = (run_task P fresh (ice_state_task state) c).0 in
        let r = (run_task P later hangup_task d).0 in
        (fire d.watchdog ≡ true)
        × (r.manager.call_state ≡ idle)
        × (r.current_peer_id ≡ "")
        × (has_peer_connection r.engine ≡ false)
        × (r.watchdog.thread ≡ none)
  lost_media_hangs_up fresh later state c u k o s =
      let d = (run_task P fresh (ice_state_task state) c).0 in
      let a = lost-arms fresh state c u k s in
      let h =
        hangup-closes later d (ap (λ m. m.call_state) a.1 ∙ k) (ap (λ m. m.observer) a.1 ∙ o) a.2 in
      (a.0, h.0, h.1, h.2, h.3)

  -- In a connected call of a client that is not shut down, if the media path comes back before
  -- the watchdog runs out, the watchdog no longer calls back, and the call and the engine stay
  -- as they are.
  pub recovered_media_stays :
      (fresh : String) (c : Coordinator Engine)
      → c.manager.call_state ≡ connected
      → c.shutdown_started ≡ false
      → let d = (run_task P fresh (ice_state_task ice_connected) c).0 in
        (fire d.watchdog ≡ false) × (d.manager ≡ c.manager) × (d.engine ≡ c.engine)
  unfolding run_task ice_state_changed ice_established run_manager deliver_all
      notify_peer_connection_established
  recovered_media_stays fresh c k s = ground arith
