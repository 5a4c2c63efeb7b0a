-- ===== src/CallManager.antt =====
-- src/callmanager.cc: the state machine of one call. The mutex sections of an operation and the
-- calls between them run in order, as on the one call-control thread; `Effect` lists the calls on
-- the signalling transport and on the observer. `IsConnected()` and the fresh identifier of
-- `GenerateCallId` are arguments.
pub mod State
pub mod Invariant
pub mod View
pub mod Stale
pub mod Timer
mod Tests
pub use State.{
  CallState, idle, calling, receiving, connecting, connected, ending, state_code, is_state,
  is_empty, Effect, send_call_request, send_call_response, send_call_cancel, send_call_end,
  call_state_changed, incoming_call, call_accepted, call_rejected, call_cancelled, call_ended,
  call_timeout, need_create_peer_connection, need_close_peer_connection, Manager, new_manager,
  next_generation,
}
use webrtc_peerconnection_cl.Prelude.{
  ℕ, ◌+◌, ◌%◌, ◌^◌, String, Bool, true, false, not, ◌&&◌, ◌||◌, Option, none, some, List, [], ◌∷◌,
  ◌==◌, str_eq, if◌then◌else◌, Act, skip, emit, when, modify, ◌⨾◌,
}

abbrev pub ManagerAct : Type 0
ManagerAct = Act Manager Effect

unfoldable pub stop_timer_locked : Manager → Manager
stop_timer_locked m = record m { timer_generation = next_generation m.timer_generation }

-- The old thread is stopped and joined, and a new one captures the new generation.
unfoldable pub start_timer : Manager → Manager
start_timer m =
    let g = next_generation m.timer_generation in record m { timer_generation = g; timer = some g }

unfoldable pub set_call_state : CallState → ManagerAct
set_call_state state m =
    if is_state m.call_state state
    then (m, [])
    else (when m.observer (emit (call_state_changed state m.current_peer)))
        (record m { call_state = state })

unfoldable pub cleanup_call : ManagerAct
unfolding stop_timer_locked
cleanup_call m =
    (when (not (is_state m.call_state idle) && m.observer) (emit (call_state_changed idle "")))
      (record (stop_timer_locked m) {
        call_state = idle;
        current_peer = "";
        current_call_id = "";
        is_caller = false;
      })

unfoldable pub initiate_call : Bool → String → String → Manager → Bool × (Manager × List Effect)
unfolding set_call_state start_timer
initiate_call is_connected target call_id m =
    if not m.has_transport || not is_connected || not (is_state m.call_state idle)
    then (false, (m, []))
    else (
      true,
      (set_call_state calling ⨾ emit (send_call_request target call_id) ⨾ modify start_timer)
          (record m { current_peer = target; current_call_id = call_id; is_caller = true }),
    )

unfoldable pub cancel_call : ManagerAct
unfolding cleanup_call
cancel_call m =
    if not (is_state m.call_state calling)
    then (m, [])
    else (when (m.has_transport && not (is_empty m.current_peer))
            (emit (send_call_cancel m.current_peer m.current_call_id "cancelled"))
          ⨾ cleanup_call)
        m

unfoldable pub accept_call : ManagerAct
unfolding set_call_state
accept_call m =
    if not (is_state m.call_state receiving) || not m.has_transport
    then (m, [])
    else (emit (send_call_response m.current_peer m.current_call_id true "")
          ⨾ set_call_state connecting
          ⨾ when m.observer (emit (need_create_peer_connection m.current_peer false)))
        m

unfoldable pub reject_call : String → ManagerAct
unfolding cleanup_call
reject_call reason m =
    if not (is_state m.call_state receiving)
    then (m, [])
    else (when (m.has_transport && not (is_empty m.current_peer)) (
            emit (
              send_call_response m.current_peer m.current_call_id false
                (if is_empty reason then "rejected" else reason)))
          ⨾ cleanup_call)
        m

unfoldable pub end_call : ManagerAct
unfolding cleanup_call
end_call m =
    if is_state m.call_state idle || is_state m.call_state ending
    then (m, [])
    else (when (m.has_transport && not (is_empty m.current_peer))
            (emit (send_call_end m.current_peer m.current_call_id "hangup"))
          ⨾ when m.observer
              (emit need_close_peer_connection ⨾ emit (call_ended m.current_peer "hangup"))
          ⨾ cleanup_call)
        (record m { call_state = ending })

abbrev pub is_in_call : Manager → Bool
is_in_call m = not (is_state m.call_state idle)

unfoldable pub notify_peer_connection_established : ManagerAct
notify_peer_connection_established m =
    if not (is_state m.call_state connecting)
    then (m, [])
    else (when m.observer (
          emit (call_state_changed connected m.current_peer) ⨾ emit (call_accepted m.current_peer)))
        (record m { call_state = connected })

unfoldable pub handle_call_request : String → String → ManagerAct
handle_call_request from call_id m =
    if is_empty call_id
    then (m, [])
    else if not (is_state m.call_state idle)
    then when m.has_transport (emit (send_call_response from call_id false "busy")) m
    else (when m.observer (emit (call_state_changed receiving from) ⨾ emit (incoming_call from)))
        (record m {
          current_peer = from;
          current_call_id = call_id;
          is_caller = false;
          call_state = receiving;
        })

-- `current_peer_ != from || current_call_id_ != call_id || call_id.empty()`
abbrev pub is_stale : String → String → Manager → Bool
is_stale from call_id m =
    not (str_eq m.current_peer from) || not (str_eq m.current_call_id call_id) || is_empty call_id

-- The part after the lock, with the observer present.
unfoldable pub finish_response : String → Bool → String → ManagerAct
unfolding cleanup_call
finish_response from true reason =
    emit (call_state_changed connecting from)
    ⨾ emit (call_accepted from)
    ⨾ emit (need_create_peer_connection from true)
finish_response from false reason =
    emit (call_state_changed idle from) ⨾ emit (call_rejected from reason) ⨾ cleanup_call

unfoldable pub handle_call_response : String → String → Bool → String → ManagerAct
unfolding stop_timer_locked finish_response
handle_call_response from call_id accepted reason m =
    if not (is_state m.call_state calling) || is_stale from call_id m
    then (m, [])
    else (when m.observer (finish_response from accepted reason)) (record (stop_timer_locked m) {
      call_state = if accepted then connecting else m.call_state;
    })

unfoldable pub handle_call_cancel : String → String → String → ManagerAct
unfolding cleanup_call
handle_call_cancel from call_id reason m =
    if not (is_state m.call_state receiving) || is_stale from call_id m
    then (m, [])
    else (when m.observer (emit (call_cancelled from reason)) ⨾ cleanup_call) m

unfoldable pub handle_call_end : String → String → String → ManagerAct
unfolding cleanup_call
handle_call_end from call_id reason m =
    if is_state m.call_state idle || is_state m.call_state ending || is_stale from call_id m
    then (m, [])
    else (when m.observer (emit (call_ended from reason) ⨾ emit need_close_peer_connection)
          ⨾ cleanup_call)
        m

on_call_request_timeout : ManagerAct
unfolding cleanup_call
on_call_request_timeout m =
    if not (is_state m.call_state calling)
    then (m, [])
    else (when m.observer (emit call_timeout) ⨾ cleanup_call) m

-- The timer thread past its deadline: it compares generations, and ends.
unfoldable pub timer_expires : ManagerAct
unfolding on_call_request_timeout
timer_expires m = elim m.timer [
  | none ↦ (m, [])
  | some generation ↦
      (when (m.timer_generation == generation) on_call_request_timeout) (record m { timer = none })
]

pub data Event : Type 0 where
  set_signal_transport register_observer : Bool → Event
  initiates : Bool → String → String → Event
  cancels accepts ends establishes expires : Event
  rejects : String → Event
  gets_request : String → String → Event
  gets_response : String → String → Bool → String → Event
  gets_cancel gets_end : String → String → String → Event

unfoldable pub step : Event → ManagerAct
step (set_signal_transport b) m = (record m { has_transport = b }, [])
step (register_observer b) m = (record m { observer = b }, [])
step (initiates is_connected target call_id) m = (initiate_call is_connected target call_id m).1
step cancels m = cancel_call m
step accepts m = accept_call m
step ends m = end_call m
step establishes m = notify_peer_connection_established m
step expires m = timer_expires m
step (rejects reason) m = reject_call reason m
step (gets_request from call_id) m = handle_call_request from call_id m
step (gets_response from call_id accepted reason) m =
    handle_call_response from call_id accepted reason m
step (gets_cancel from call_id reason) m = handle_call_cancel from call_id reason m
step (gets_end from call_id reason) m = handle_call_end from call_id reason m

pub run : List Event → ManagerAct
run [] = skip
run (e ∷ es) = step e ⨾ run es
