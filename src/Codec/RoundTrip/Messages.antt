-- ===== src/Codec/RoundTrip/Messages.antt =====
-- The messages of a call, and when each can be written (src/signaling_codec.cc).
use webrtc_peerconnection_cl.Prelude.{◌≡◌, String, Bool, true, Option, ℤ}
use webrtc_peerconnection_cl.SignalTypes.{SessionDescriptionPayload, IceCandidatePayload}
use webrtc_peerconnection_cl.Json.{JsonLib, is_signed}
use webrtc_peerconnection_cl.Codec.{
  call_request, call_response, call_cancel, call_end, offer, answer, ice_candidate,
  ParsedSignalingMessage, blank_message,
}
use webrtc_peerconnection_cl.Codec.Build.{
  build_call_request_message, build_call_response_message, build_call_cancel_message,
  build_call_end_message, build_offer_message, build_answer_message, build_ice_candidate_message,
}

-- The messages of a call that a client sends to its peer.
pub data Sent : Type 0 where
  sent_request : ℤ → String → Sent
  sent_response : String → Bool → String → Sent
  sent_cancel sent_end : String → String → Sent
  sent_offer sent_answer : SessionDescriptionPayload → Sent
  sent_candidate : IceCandidatePayload → Sent

-- The message that the receiver is meant to see.
abbrev pub meant : String → Sent → ParsedSignalingMessage
meant from (sent_request now_ms call_id) = record blank_message {
  type = call_request;
  from = from;
  call_id = call_id;
}
meant from (sent_response call_id accepted reason) = record blank_message {
  type = call_response;
  from = from;
  call_id = call_id;
  accepted = accepted;
  reason = reason;
}
meant from (sent_cancel call_id reason) = record blank_message {
  type = call_cancel;
  from = from;
  call_id = call_id;
  reason = reason;
}
meant from (sent_end call_id reason) = record blank_message {
  type = call_end;
  from = from;
  call_id = call_id;
  reason = reason;
}
meant from (sent_offer sdp) = record blank_message {
  type = offer;
  from = from;
  session_description = sdp;
}
meant from (sent_answer sdp) = record blank_message {
  type = answer;
  from = from;
  session_description = sdp;
}
meant from (sent_candidate i) = record blank_message {
  type = ice_candidate;
  from = from;
  ice_candidate_payload = i;
}

module _ (J : JsonLib) where
  open J use {
    Json, Wire, parse, dump, is_object, is_array, is_string, is_null, find, elements, get_string,
    get_bool, get_int, null, string, boolean, integer, object, set, parse-dump, is_object-object,
    is_null-object, find-object, is_object-set, is_null-set, find-set, get_string-string,
    get_bool-boolean, get_int-integer, is_utf8, is_writable, is_utf8-ascii, is_writable-string,
    is_writable-boolean, is_writable-integer, is_writable-object,
  }

  unfoldable pub build : String → String → Sent → Option Wire
  unfolding build_call_request_message build_call_response_message build_call_cancel_message
      build_call_end_message build_offer_message build_answer_message build_ice_candidate_message
  build from to (sent_request now_ms call_id) = build_call_request_message J now_ms from to call_id
  build from to (sent_response call_id accepted reason) =
      build_call_response_message J from to call_id accepted reason
  build from to (sent_cancel call_id reason) = build_call_cancel_message J from to call_id reason
  build from to (sent_end call_id reason) = build_call_end_message J from to call_id reason
  build from to (sent_offer sdp) = build_offer_message J from to sdp
  build from to (sent_answer sdp) = build_answer_message J from to sdp
  build from to (sent_candidate i) = build_ice_candidate_message J from to i

  -- The texts of a message are UTF-8, and its numbers have their C++ types.
  abbrev pub CanBeWritten : Sent → Type 0
  CanBeWritten (sent_request now_ms call_id) =
      (is_utf8 call_id ≡ true) × (is_signed 64 now_ms ≡ true)
  CanBeWritten (sent_response call_id accepted reason) =
      (is_utf8 call_id ≡ true) × (is_utf8 reason ≡ true)
  CanBeWritten (sent_cancel call_id reason) = (is_utf8 call_id ≡ true) × (is_utf8 reason ≡ true)
  CanBeWritten (sent_end call_id reason) = (is_utf8 call_id ≡ true) × (is_utf8 reason ≡ true)
  CanBeWritten (sent_offer sdp) =
      (is_utf8 sdp.call_id ≡ true) × (is_utf8 sdp.type ≡ true) × (is_utf8 sdp.sdp ≡ true)
  CanBeWritten (sent_answer sdp) =
      (is_utf8 sdp.call_id ≡ true) × (is_utf8 sdp.type ≡ true) × (is_utf8 sdp.sdp ≡ true)
  CanBeWritten (sent_candidate i) =
      (is_utf8 i.call_id ≡ true)
      × (is_utf8 i.sdp_mid ≡ true)
      × (is_signed 32 i.sdp_mline_index ≡ true)
      × (is_utf8 i.candidate ≡ true)

  -- And so are the names of the sender and the addressee.
  abbrev pub Names : String → String → Type 0
  Names from to = (is_utf8 from ≡ true) × (is_utf8 to ≡ true)
