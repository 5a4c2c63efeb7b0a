-- ===== src/CallManager/View.antt =====
-- What the observer of a call manager sees (src/callmanager.cc).
use webrtc_peerconnection_cl.Prelude.{
  ◌≡◌, refl, ap, ◌∙◌, List, [], ◌∷◌, ◌++◌, String, true, false, List, [], ◌∷◌, arith, eq_iff,
}
use webrtc_peerconnection_cl.CallManager.{
  run, CallState, Manager, Event, Effect, call_state_changed, set_signal_transport,
  register_observer, initiates, cancels, accepts, ends, establishes, expires, rejects, gets_request,
  gets_response, gets_cancel, gets_end, step, initiate_call, cancel_call, accept_call, reject_call,
  end_call, notify_peer_connection_established, handle_call_request, handle_call_response,
  handle_call_cancel, handle_call_end, timer_expires,
}
use webrtc_peerconnection_cl.CallManager.Invariant.{Inv, AllFresh, step-Inv}

-- The state and the peer that the observer was last told.
abbrev pub View : Type 0
View = CallState × String

abbrev pub seen1 : Effect → View → View
seen1 (call_state_changed state peer) v = (state, peer)
seen1 _ v = v

abbrev pub seen : List Effect → View → View
seen [] v = v
seen (e ∷ es) v = seen es (seen1 e v)

abbrev pub view : Manager → View
view m = (m.call_state, m.current_peer)

abbrev pub KeepsObserver : Event → Type 0
KeepsObserver (register_observer b) = b ≡ true
KeepsObserver _ = Unit {0}

pub step-observer :
    (e : Event) (m : Manager) → KeepsObserver e → m.observer ≡ true → (step e m).0.observer ≡ true
unfolding step initiate_call
step-observer (initiates is_connected target call_id) m k o = ground arith
step-observer (set_signal_transport b) m k o = ground arith
step-observer (register_observer b) m k o = ground arith
step-observer cancels m k o = unfold cancel_call in ground arith
step-observer accepts m k o = unfold accept_call in ground arith
step-observer ends m k o = unfold end_call in ground arith
step-observer establishes m k o = unfold notify_peer_connection_established in ground arith
step-observer expires m k o = unfold timer_expires in ground arith
step-observer (rejects reason) m k o = unfold reject_call in ground arith
step-observer (gets_request from call_id) m k o = unfold handle_call_request in ground arith
step-observer (gets_response from call_id true reason) m k o =
    unfold handle_call_response in ground arith
step-observer (gets_response from call_id false reason) m k o =
    unfold handle_call_response in ground arith
step-observer (gets_cancel from call_id reason) m k o = unfold handle_call_cancel in ground arith
step-observer (gets_end from call_id reason) m k o = unfold handle_call_end in ground arith

pub step-seen :
    (e : Event) (m : Manager)
    → m.observer ≡ true
    → Inv m
    → seen (step e m).1 (view m) ≡ view (step e m).0
unfolding step initiate_call
step-seen (initiates is_connected target call_id) m o v = ground arith
step-seen (set_signal_transport b) m o v = ground arith
step-seen (register_observer b) m o v = ground arith
step-seen cancels m o v = unfold cancel_call in ground arith
step-seen accepts m o v = unfold accept_call in ground arith
step-seen ends m o v = unfold end_call in ground arith
step-seen establishes m o v = unfold notify_peer_connection_established in ground arith
step-seen expires m o v = unfold timer_expires in ground arith
step-seen (rejects reason) m o v = unfold reject_call in ground arith
step-seen (gets_request from call_id) m o v = unfold handle_call_request in ground arith
step-seen (gets_response from call_id true reason) m o v =
    unfold handle_call_response in ground (arith, eq_iff m.current_peer from)
step-seen (gets_response from call_id false reason) m o v =
    unfold handle_call_response in ground arith
step-seen (gets_cancel from call_id reason) m o v = unfold handle_call_cancel in ground arith
step-seen (gets_end from call_id reason) m o v = unfold handle_call_end in ground arith

seen-append : (xs ys : List Effect) (v : View) → seen (xs ++ ys) v ≡ seen ys (seen xs v)
seen-append [] ys v = refl
seen-append (x ∷ xs) ys v = seen-append xs ys (seen1 x v)

abbrev pub AllKeepObserver : List Event → Type 0
AllKeepObserver [] = Unit {0}
AllKeepObserver (e ∷ es) = KeepsObserver e × AllKeepObserver es

-- While an observer stays registered, over any history from a consistent manager, the last state
-- change that it was notified of is the manager's state, with the manager's peer.
pub run-seen :
    (es : List Event) (m : Manager)
    → AllFresh es
    → AllKeepObserver es
    → m.observer ≡ true
    → Inv m
    → seen (run es m).1 (view m) ≡ view (run es m).0
unfolding run
run-seen [] m f k o v = refl
run-seen (e ∷ es) m f k o v =
    seen-append (step e m).1 (run es (step e m).0).1 (view m)
    ∙ (ap (seen (run es (step e m).0).1) (step-seen e m o v)
        ∙ run-seen es (step e m).0 f.1 k.1 (step-observer e m k.0 o) (step-Inv e m f.0 v))
