-- ===== src/Dispatcher.antt =====
-- src/signal_message_dispatcher.cc: one received text becomes at most one call on the signalling
-- client's observer, and an outcome for the client itself.
pub mod Delivery
use webrtc_peerconnection_cl.Prelude.{
  String, Bool, true, false, List, [], ◌∷◌, if◌then◌else◌, emit, when,
}
use webrtc_peerconnection_cl.SignalTypes.{IceServerConfig}
use webrtc_peerconnection_cl.CallManager.{is_empty}
use webrtc_peerconnection_cl.Json.{JsonLib}
use webrtc_peerconnection_cl.Codec.{
  registered, client_list, user_offline, call_request, call_response, call_cancel, call_end, offer,
  answer, ice_candidate, unknown, ParsedSignalingMessage,
}
use webrtc_peerconnection_cl.Codec.Parse.{
  CodecResult, returned, returned_false, threw, parse_signaling_message,
}
use webrtc_peerconnection_cl.Coordinator.Signals.{
  SignalCall, ice_servers_call, client_list_call, user_offline_call, request_call, response_call,
  cancel_call_call, end_call_call, offer_call, answer_call, ice_candidate_call,
}

pub record SignalMessageDispatchOutcome : Type 0 where
  pub success : Bool
  pub error : String
  pub has_ice_servers : Bool
  pub request_client_list : Bool
  pub ice_servers : List IceServerConfig

-- The default-constructed outcome.
abbrev pub success_outcome : SignalMessageDispatchOutcome
success_outcome = record {
  success = true;
  error = "";
  has_ice_servers = false;
  request_client_list = false;
  ice_servers = [];
}

-- The observer's call of the `switch`.
unfoldable pub observer_calls : ParsedSignalingMessage → List SignalCall
observer_calls m = elim m.type [
  | registered ↦ ice_servers_call m.ice_servers ∷ []
  | client_list ↦ client_list_call m.clients ∷ []
  | user_offline ↦ user_offline_call m.offline_client_id ∷ []
  | call_request ↦ request_call m.from m.call_id ∷ []
  | call_response ↦ response_call m.from m.call_id m.accepted m.reason ∷ []
  | call_cancel ↦ cancel_call_call m.from m.call_id m.reason ∷ []
  | call_end ↦ end_call_call m.from m.call_id m.reason ∷ []
  | offer ↦ offer_call m.from m.session_description ∷ []
  | answer ↦ answer_call m.from m.session_description ∷ []
  | ice_candidate ↦ ice_candidate_call m.from m.ice_candidate_payload ∷ []
  | unknown ↦ []
]

-- What the `switch` writes into the outcome.
unfoldable pub outcome_of : ParsedSignalingMessage → SignalMessageDispatchOutcome
outcome_of m = elim m.type [
  | registered ↦ record success_outcome {
    has_ice_servers = true;
    ice_servers = m.ice_servers;
    request_client_list = true;
  }
  | client_list ↦ success_outcome
  | user_offline ↦ success_outcome
  | call_request ↦ success_outcome
  | call_response ↦ success_outcome
  | call_cancel ↦ success_outcome
  | call_end ↦ success_outcome
  | offer ↦ success_outcome
  | answer ↦ success_outcome
  | ice_candidate ↦ success_outcome
  | unknown ↦ success_outcome
]

unfoldable pub failure_outcome : String → SignalMessageDispatchOutcome
failure_outcome parse_error = record success_outcome {
  success = false;
  error = if is_empty parse_error then "Failed to parse signaling message." else parse_error;
}

module _ (J : JsonLib) where
  open J use {Wire}

  -- `observer`: the pointer is not null. `threw`: the exception of the codec, uncaught here too.
  unfoldable pub dispatch_signaling_message :
      Bool → Wire → CodecResult (SignalMessageDispatchOutcome × List SignalCall)
  dispatch_signaling_message observer message = elim (parse_signaling_message J message) [
    | threw ↦ threw
    | returned_false parse_error ↦ returned (failure_outcome parse_error, [])
    | returned parsed ↦ returned (outcome_of parsed, if observer then observer_calls parsed else [])
  ]
