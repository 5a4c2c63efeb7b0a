-- ===== src/Coordinator/Invariant.antt =====
-- What holds of the whole client between two turns (src/call_coordinator.cc), and that an event of
-- the call manager keeps it, its calls on the coordinator included.
use webrtc_peerconnection_cl.Prelude.{◌≡◌, ◌≢◌, ◌⊎◌, true, false, none, arith}
use webrtc_peerconnection_cl.CallManager.{
  idle, connecting, connected, Event, set_signal_transport, register_observer, initiates, cancels,
  accepts, ends, establishes, expires, rejects, gets_request, gets_response, gets_cancel, gets_end,
  step, initiate_call, cancel_call, accept_call, reject_call, end_call,
  notify_peer_connection_established, handle_call_request, handle_call_response, handle_call_cancel,
  handle_call_end, timer_expires,
}
use webrtc_peerconnection_cl.CallManager.Invariant as Calls
use webrtc_peerconnection_cl.CallManager.View.{KeepsObserver, step-observer}
use webrtc_peerconnection_cl.Ports.{EnginePort}
use webrtc_peerconnection_cl.Coordinator.{Coordinator}
use webrtc_peerconnection_cl.Coordinator.Handlers.{run_manager}
use webrtc_peerconnection_cl.Coordinator.Frame.{apply_all, apply_all-Unmoved, run_manager-apply}

module _ (P : EnginePort) where
  open P use {Engine, has_peer_connection, close-has, close_peer_connection}

  -- `media`: a peer connection exists only while a call is being connected or is connected.
  -- `watched`: the ICE watchdog runs only in a connected call.
  pub record Safe (c : Coordinator Engine) : Type 0 where
    pub idle_peer : c.manager.call_state ≡ idle → c.current_peer_id ≡ ""
    pub media :
        has_peer_connection c.engine ≡ true
        → (c.manager.call_state ≡ connecting) ⊎ (c.manager.call_state ≡ connected)
    pub watched : c.watchdog.thread ≢ none → c.manager.call_state ≡ connected

  -- The last three: the observers are registered until the shutdown, and gone after it.
  pub record Inv (c : Coordinator Engine) : Type 0 where
    pub calls : Calls.Inv c.manager
    pub safe : Safe c
    pub observed : c.shutdown_started ≡ false → c.manager.observer ≡ true
    pub unsubscribed : c.shutdown_started ≡ true → c.signal_observed ≡ false
    pub down_observer : c.shutdown_started ≡ true → c.manager.observer ≡ false
    pub down_peer : c.shutdown_started ≡ true → c.current_peer_id ≡ ""

  -- The client after an event of its call manager.
  abbrev pub after : Event → Coordinator Engine → Coordinator Engine
  after e c = apply_all P (step e c.manager).1 (record c { manager = (step e c.manager).0 })

  pub step-Safe :
      (e : Event) (c : Coordinator Engine) → c.manager.observer ≡ true → Safe c → Safe (after e c)
  unfolding step initiate_call
  step-Safe (initiates is_connected target call_id) c o v = ground arith
  step-Safe (set_signal_transport b) c o v = ground arith
  step-Safe (register_observer b) c o v = ground arith
  step-Safe cancels c o v = unfold cancel_call in ground arith
  step-Safe accepts c o v = unfold accept_call in ground arith
  step-Safe ends c o v = unfold end_call in ground (arith, close-has c.engine)
  step-Safe establishes c o v = unfold notify_peer_connection_established in ground arith
  step-Safe expires c o v = unfold timer_expires in ground (arith, close-has c.engine)
  step-Safe (rejects reason) c o v = unfold reject_call in ground arith
  step-Safe (gets_request from call_id) c o v = unfold handle_call_request in ground arith
  step-Safe (gets_response from call_id true reason) c o v =
      unfold handle_call_response in ground arith
  step-Safe (gets_response from call_id false reason) c o v =
      unfold handle_call_response in ground (arith, close-has c.engine)
  step-Safe (gets_cancel from call_id reason) c o v =
      unfold handle_call_cancel in ground (arith, close-has c.engine)
  step-Safe (gets_end from call_id reason) c o v =
      unfold handle_call_end in ground (arith, close-has c.engine)

  after-Inv :
      (e : Event) (c : Coordinator Engine)
      → Calls.IsFresh e
      → KeepsObserver e
      → c.shutdown_started ≡ false
      → Inv c
      → Inv (after e c)
  after-Inv e c f k s v =
      let u =
        apply_all-Unmoved P (step e c.manager).1 (record c { manager = (step e c.manager).0 }) in
      let i = Calls.step-Inv e c.manager f v.calls in
      let o = step-observer e c.manager k (v.observed s) in
      record {
        calls = rw u.0 i;
        safe = step-Safe e c (v.observed s) v.safe;
        observed = λ _. rw u.0 o;
        unsubscribed = λ d. absurd (cc (u.1, d));
        down_observer = λ d. absurd (cc (u.1, d));
        down_peer = λ d. absurd (cc (u.1, d));
      }

  -- An event of the call manager keeps the invariant of the client.
  pub run_manager-Inv :
      (e : Event) (c : Coordinator Engine)
      → Calls.IsFresh e
      → KeepsObserver e
      → c.shutdown_started ≡ false
      → Inv c
      → Inv (run_manager P (step e) c).0
  run_manager-Inv e c f k s v = rw (run_manager-apply P (step e) c) (after-Inv e c f k s v)
