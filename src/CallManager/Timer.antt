-- ===== src/CallManager/Timer.antt =====
-- The request timer of a call manager and its generations (src/callmanager.cc).
use webrtc_peerconnection_cl.Prelude.{
  ◌≡◌, refl, ◌≢◌, ◌⊎◌, ◌<◌, ◌^◌, String, true, false, none, some, List, [], ◌∷◌, arith, eq_iff,
}
use webrtc_peerconnection_cl.CallManager.{
  idle, calling, Manager, new_manager, call_timeout, call_state_changed, Event,
  set_signal_transport, register_observer, initiates, cancels, accepts, ends, establishes, expires,
  rejects, gets_request, gets_response, gets_cancel, gets_end, step, run, initiate_call,
  cancel_call, accept_call, reject_call, end_call, notify_peer_connection_established,
  handle_call_request, handle_call_response, handle_call_cancel, handle_call_end, timer_expires,
}
use webrtc_peerconnection_cl.CallManager.View.{AllKeepObserver, step-observer}

-- A call that waits for its answer has a live timer.
abbrev pub IsTimed : Manager → Type 0
IsTimed m = m.call_state ≡ calling → m.timer ≡ some m.timer_generation

step-IsTimed : (e : Event) (m : Manager) → m.observer ≡ true → IsTimed m → IsTimed (step e m).0
unfolding step initiate_call
step-IsTimed (initiates is_connected target call_id) m o v = ground arith
step-IsTimed (set_signal_transport b) m o v = ground arith
step-IsTimed (register_observer b) m o v = ground arith
step-IsTimed cancels m o v = unfold cancel_call in ground arith
step-IsTimed accepts m o v = unfold accept_call in ground arith
step-IsTimed ends m o v = unfold end_call in ground arith
step-IsTimed establishes m o v = unfold notify_peer_connection_established in ground arith
step-IsTimed expires m o v = unfold timer_expires in ground arith
step-IsTimed (rejects reason) m o v = unfold reject_call in ground arith
step-IsTimed (gets_request from call_id) m o v = unfold handle_call_request in ground arith
step-IsTimed (gets_response from call_id true reason) m o v =
    unfold handle_call_response in ground arith
step-IsTimed (gets_response from call_id false reason) m o v =
    unfold handle_call_response in ground arith
step-IsTimed (gets_cancel from call_id reason) m o v = unfold handle_call_cancel in ground arith
step-IsTimed (gets_end from call_id reason) m o v = unfold handle_call_end in ground arith

run-IsTimed :
    (es : List Event) (m : Manager)
    → AllKeepObserver es
    → m.observer ≡ true
    → IsTimed m
    → IsTimed (run es m).0 × ((run es m).0.observer ≡ true)
unfolding run
run-IsTimed [] m k o v = (v, o)
run-IsTimed (e ∷ es) m k o v =
    run-IsTimed es (step e m).0 k.1 (step-observer e m k.0 o) (step-IsTimed e m o v)

abbrev pub observed_manager : Manager
observed_manager = record new_manager { observer = true }

-- From a new manager with an observer, while an observer stays registered, and whatever happens: a
-- call that still waits for its answer ends when its timer thread runs out, with a timeout and a
-- change to idle reported to the observer, and with no peer and no call identifier left.
pub expires_calling :
    (es : List Event)
    → AllKeepObserver es
    → let m = (run es observed_manager).0 in
      m.call_state ≡ calling
      → let r = timer_expires m in
        (r.1 ≡ call_timeout ∷ call_state_changed idle "" ∷ [])
        × (r.0.call_state ≡ idle)
        × (r.0.current_peer ≡ "")
        × (r.0.current_call_id ≡ "")
unfolding timer_expires
expires_calling es k c =
    let h = run-IsTimed es observed_manager k refl (λ e. absurd (ground arith)) in
    ground (arith, h.0 c, h.1)

-- What a timer thread can do when it runs out. Either it ends with no effect; or it had captured
-- the current generation, the call still waited for its answer, and then the manager is idle with no
-- peer and no call identifier and its generation has moved on.
pub expires_cases :
    (m : Manager)
    → (timer_expires m ≡ (record m { timer = none }, []))
      ⊎ ((m.timer ≡ some m.timer_generation)
          × (m.call_state ≡ calling)
          × ((timer_expires m).0.call_state ≡ idle)
          × ((timer_expires m).0.current_peer ≡ "")
          × ((timer_expires m).0.current_call_id ≡ "")
          × ((timer_expires m).0.timer_generation ≢ m.timer_generation))
unfolding timer_expires
expires_cases m = ground arith

-- With no observer registered and the timer of the current generation running, a refusal of the
-- current call leaves the manager in `calling` and outdates its timer: when the timer thread runs
-- out, the manager stays in `calling`, with no timer left.
pub rejected_unobserved_stuck :
    (call_id reason : String) (m : Manager)
    → m.observer ≡ false
    → m.call_state ≡ calling
    → m.current_call_id ≡ call_id
    → call_id ≢ ""
    → m.timer ≡ some m.timer_generation
    → m.timer_generation < 2 ^ 64
    → let m' = (handle_call_response m.current_peer call_id false reason m).0 in
      (m'.call_state ≡ calling)
      × ((timer_expires m').0.call_state ≡ calling)
      × ((timer_expires m').0.timer ≡ none)
unfolding handle_call_response timer_expires
rejected_unobserved_stuck call_id reason m o s c n t b = (
  ground arith,
  ground (
    arith,
    eq_iff m.current_peer m.current_peer,
    eq_iff m.current_call_id call_id,
    eq_iff call_id "",
  ),
  ground (
    arith,
    eq_iff m.current_peer m.current_peer,
    eq_iff m.current_call_id call_id,
    eq_iff call_id "",
  ),
)
