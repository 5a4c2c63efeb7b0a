-- ===== src/SignalClient/Sending.antt =====
-- src/signalclient.cc: the messages that the client is asked to send. Where a message cannot be
-- built, the exception leaves the operation and nothing is queued.
use webrtc_peerconnection_cl.Prelude.{String, Bool, ℤ}
use webrtc_peerconnection_cl.SignalTypes.{SessionDescriptionPayload, IceCandidatePayload}
use webrtc_peerconnection_cl.Json.{JsonLib}
use webrtc_peerconnection_cl.Codec.Build.{
  build_call_request_message, build_call_response_message, build_call_cancel_message,
  build_call_end_message, build_offer_message, build_answer_message, build_ice_candidate_message,
  build_list_clients_message,
}
use webrtc_peerconnection_cl.SignalClient.{ClientAct, queue_built}

module _ (J : JsonLib) where
  -- `now_ms`: the system clock.
  unfoldable pub send_call_request : ℤ → String → String → ClientAct J
  unfolding queue_built build_call_request_message
  send_call_request now_ms to call_id s =
      (queue_built J (build_call_request_message J now_ms s.client_id to call_id) s).1

  unfoldable pub send_call_response : String → String → Bool → String → ClientAct J
  unfolding queue_built build_call_response_message
  send_call_response to call_id accepted reason s =
      (queue_built J (build_call_response_message J s.client_id to call_id accepted reason) s).1

  unfoldable pub send_call_cancel : String → String → String → ClientAct J
  unfolding queue_built build_call_cancel_message
  send_call_cancel to call_id reason s =
      (queue_built J (build_call_cancel_message J s.client_id to call_id reason) s).1

  unfoldable pub send_call_end : String → String → String → ClientAct J
  unfolding queue_built build_call_end_message
  send_call_end to call_id reason s =
      (queue_built J (build_call_end_message J s.client_id to call_id reason) s).1

  unfoldable pub send_offer : String → SessionDescriptionPayload → ClientAct J
  unfolding queue_built build_offer_message
  send_offer to sdp s = (queue_built J (build_offer_message J s.client_id to sdp) s).1

  unfoldable pub send_answer : String → SessionDescriptionPayload → ClientAct J
  unfolding queue_built build_answer_message
  send_answer to sdp s = (queue_built J (build_answer_message J s.client_id to sdp) s).1

  unfoldable pub send_ice_candidate : String → IceCandidatePayload → ClientAct J
  unfolding queue_built build_ice_candidate_message
  send_ice_candidate to candidate s =
      (queue_built J (build_ice_candidate_message J s.client_id to candidate) s).1

  unfoldable pub request_client_list : ClientAct J
  unfolding queue_built build_list_clients_message
  request_client_list s = (queue_built J (build_list_clients_message J s.client_id) s).1
