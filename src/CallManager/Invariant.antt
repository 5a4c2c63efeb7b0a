-- ===== src/CallManager/Invariant.antt =====
-- What holds of a call manager between two events (src/callmanager.cc).
use webrtc_peerconnection_cl.Prelude.{◌≡◌, ◌≢◌, true, false, List, [], ◌∷◌, arith, eq_iff}
use webrtc_peerconnection_cl.CallManager.{
  idle, calling, receiving, ending, Manager, new_manager, Event, set_signal_transport,
  register_observer, initiates, cancels, accepts, ends, establishes, expires, rejects, gets_request,
  gets_response, gets_cancel, gets_end, step, run, initiate_call, cancel_call, accept_call,
  reject_call, end_call, notify_peer_connection_established, handle_call_request,
  handle_call_response, handle_call_cancel, handle_call_end, timer_expires,
}

pub record Inv (m : Manager) : Type 0 where
  pub idle_peer : m.call_state ≡ idle → m.current_peer ≡ ""
  pub idle_call : m.call_state ≡ idle → m.current_call_id ≡ ""
  pub idle_role : m.call_state ≡ idle → m.is_caller ≡ false
  pub busy_call : m.call_state ≢ idle → m.current_call_id ≢ ""
  pub settled : m.call_state ≢ ending
  pub calling_role : m.call_state ≡ calling → m.is_caller ≡ true
  pub receiving_role : m.call_state ≡ receiving → m.is_caller ≡ false

-- `GenerateCallId` never returns the empty text.
abbrev pub IsFresh : Event → Type 0
IsFresh (initiates is_connected target call_id) = call_id ≢ ""
IsFresh _ = Unit {0}

-- Every event keeps the invariant.
pub step-Inv : (e : Event) (m : Manager) → IsFresh e → Inv m → Inv (step e m).0
unfolding step initiate_call
step-Inv (initiates is_connected target call_id) m f v = ground arith
step-Inv (set_signal_transport b) m f v = ground arith
step-Inv (register_observer b) m f v = ground arith
step-Inv cancels m f v = unfold cancel_call in ground arith
step-Inv accepts m f v = unfold accept_call in ground arith
step-Inv ends m f v = unfold end_call in ground arith
step-Inv establishes m f v = unfold notify_peer_connection_established in ground arith
step-Inv expires m f v = unfold timer_expires in ground arith
step-Inv (rejects reason) m f v = unfold reject_call in ground arith
step-Inv (gets_request from call_id) m f v =
    unfold handle_call_request in ground (arith, eq_iff call_id "")
step-Inv (gets_response from call_id accepted reason) m f v =
    unfold handle_call_response in ground arith
step-Inv (gets_cancel from call_id reason) m f v = unfold handle_call_cancel in ground arith
step-Inv (gets_end from call_id reason) m f v = unfold handle_call_end in ground arith

abbrev pub AllFresh : List Event → Type 0
AllFresh [] = Unit {0}
AllFresh (e ∷ es) = IsFresh e × AllFresh es

pub run-Inv : (es : List Event) (m : Manager) → AllFresh es → Inv m → Inv (run es m).0
unfolding run
run-Inv [] m f v = v
run-Inv (e ∷ es) m f v = run-Inv es (step e m).0 f.1 (step-Inv e m f.0 v)

pub new_manager-Inv : Inv new_manager
new_manager-Inv = ground arith

-- After any history of a new manager whose generated identifiers are not empty: it is idle exactly
-- when it holds no call identifier; an idle manager names no peer and is not the caller; it is the
-- caller in `calling` and not in `receiving`; and it never rests in the transient state `ending`.
pub run-new_manager-Inv : (es : List Event) → AllFresh es → Inv (run es new_manager).0
run-new_manager-Inv es f = run-Inv es new_manager f new_manager-Inv
