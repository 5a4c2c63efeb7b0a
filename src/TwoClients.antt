-- ===== src/TwoClients.antt =====
-- Two clients and a server between them that passes each message on to the client that it names:
-- the call manager of one (src/callmanager.cc), its messages (src/signalclient.cc,
-- src/signaling_codec.cc), and their way through the dispatcher of the other
-- (src/signal_message_dispatcher.cc) to the call manager there (src/call_coordinator.cc).
pub mod Relay
pub mod Setup
pub mod Agreement
pub mod Media
mod Tests
use webrtc_peerconnection_cl.Prelude.{
  String, List, [], ◌∷◌, ◌++◌, ℤ, Act, skip, ◌⨾◌, emit, Bool, true, Option, none, some, str_eq,
  if◌then◌else◌,
}
use webrtc_peerconnection_cl.Json.{JsonLib}
use webrtc_peerconnection_cl.CallManager.{
  Effect, send_call_request, send_call_response, send_call_cancel, send_call_end, Manager,
  initiate_call, accept_call, end_call, handle_call_request, handle_call_response,
  handle_call_cancel, handle_call_end,
}
use webrtc_peerconnection_cl.Codec.Build.{
  build_call_request_message, build_call_response_message, build_call_cancel_message,
  build_call_end_message,
}
use webrtc_peerconnection_cl.Codec.Parse.{returned, returned_false, threw}
use webrtc_peerconnection_cl.Coordinator.Signals.{
  SignalCall, request_call, response_call, cancel_call_call, end_call_call,
}
use webrtc_peerconnection_cl.TwoClients.Relay.{on_message}
use webrtc_peerconnection_cl.Dispatcher.{dispatch_signaling_message}

-- What the coordinator's callbacks pass on to the call manager.
unfoldable pub manager_call : SignalCall → Act Manager Effect
manager_call (request_call from call_id) = handle_call_request from call_id
manager_call (response_call from call_id accepted reason) =
    handle_call_response from call_id accepted reason
manager_call (cancel_call_call from call_id reason) = handle_call_cancel from call_id reason
manager_call (end_call_call from call_id reason) = handle_call_end from call_id reason
manager_call _ = skip

unfoldable pub manager_calls : List SignalCall → Act Manager Effect
unfolding manager_call
manager_calls [] = skip
manager_calls (c ∷ cs) = manager_call c ⨾ manager_calls cs

module _ (J : JsonLib) where
  open J use {Wire}

  -- A message is sent before the later ones; the exception of its building ends them all.
  abbrev pub send_first : Option Wire → List Wire → List Wire
  send_first none rest = []
  send_first (some w) rest = w ∷ rest

  -- The messages that a client of that name sends when its call manager makes these calls.
  unfoldable pub wires : ℤ → String → List Effect → List Wire
  wires now_ms from [] = []
  wires now_ms from (send_call_request to call_id ∷ es) =
      send_first (build_call_request_message J now_ms from to call_id) (wires now_ms from es)
  wires now_ms from (send_call_response to call_id accepted reason ∷ es) =
      send_first (build_call_response_message J from to call_id accepted reason)
        (wires now_ms from es)
  wires now_ms from (send_call_cancel to call_id reason ∷ es) =
      send_first (build_call_cancel_message J from to call_id reason) (wires now_ms from es)
  wires now_ms from (send_call_end to call_id reason ∷ es) =
      send_first (build_call_end_message J from to call_id reason) (wires now_ms from es)
  wires now_ms from (_ ∷ es) = wires now_ms from es

  -- A text at a client, which observes its signalling client.
  unfoldable pub receive_wire : Wire → Act Manager Effect
  unfolding manager_calls
  receive_wire message = elim (dispatch_signaling_message J true message) [
    | threw ↦ skip
    | returned_false error ↦ skip
    | returned result ↦ manager_calls result.1
  ]

  -- A message of one client at the server, which passes it on to the client that it is addressed
  -- to: to `receiver`, or past it.
  unfoldable pub take_wire : String → String → Wire → Act Manager Effect
  unfolding receive_wire on_message
  take_wire sender receiver message = elim (on_message J sender message) [
    | none ↦ skip
    | some passed ↦ if str_eq passed.0 receiver then receive_wire passed.1 else skip
  ]

  unfoldable pub take_wires : String → String → List Wire → Act Manager Effect
  unfolding take_wire
  take_wires sender receiver [] = skip
  take_wires sender receiver (w ∷ ws) = take_wire sender receiver w ⨾ take_wires sender receiver ws

  -- One client calls the other, which accepts; the callee's last step and the caller's, and what they
  -- made each call manager ask for.
  unfoldable pub set_up :
      ℤ
      → String
      → String
      → String
      → Manager
      → Manager
      → (Manager × List Effect) × (Manager × List Effect)
  unfolding wires take_wires
  set_up now_ms caller callee call_id a b =
      let calling = (initiate_call true callee call_id a).1 in
      let ringing = take_wires caller callee (wires now_ms caller calling.1) b in
      let accepted = accept_call ringing.0 in
      (take_wires callee caller (wires now_ms callee accepted.1) calling.0, accepted)

  -- The client of the first name hangs up, the other one is told.
  unfoldable pub hang_up :
      ℤ → String → String → Manager → Manager → (Manager × List Effect) × (Manager × List Effect)
  unfolding wires take_wires
  hang_up now_ms leaver other a b =
      let ended = end_call a in (ended, take_wires leaver other (wires now_ms leaver ended.1) b)
