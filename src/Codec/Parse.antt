-- ===== src/Codec/Parse.antt =====
-- src/signaling_codec.cc: the messages that the client receives.
mod Payload
use webrtc_peerconnection_cl.Prelude.{
  String, Bool, false, not, Option, none, some, List, [], ◌∷◌, ℤ, negsuc, if◌then◌else◌,
  text_append,
}
use webrtc_peerconnection_cl.SignalTypes.{
  ClientInfo, IceServerConfig, SessionDescriptionPayload, IceCandidatePayload,
}
use webrtc_peerconnection_cl.CallManager.{is_empty}
use webrtc_peerconnection_cl.Json.{JsonLib, parsed, parse_error}
use webrtc_peerconnection_cl.Codec.{
  SignalingMessageType, registered, client_list, user_offline, call_request, call_response,
  call_cancel, call_end, offer, answer, ice_candidate, unknown, ParsedSignalingMessage,
  blank_message, parse_message_type,
}
unfoldable pub use webrtc_peerconnection_cl.Codec.Parse.Payload.{
  ◌>>=◌, value_string, value_bool, parse_call_id, nested_description, parse_session_description,
  candidate_object, parse_mline_index, parse_sdp_mid, parse_ice_candidate, parse_ice_servers,
  parse_client_list,
}

-- What a call of the parser comes to: a message, `false` with an error text, or an exception of
-- the JSON library, which is caught only round `json::parse`.
pub data CodecResult {ℓ} (A : Type ℓ) : Type ℓ where
  returned : A → CodecResult A
  returned_false : String → CodecResult A
  threw : CodecResult A

abbrev pub or_threw : {A : Type 0} → Option A → CodecResult A
or_threw none = threw
or_threw (some a) = returned a

module _ (J : JsonLib) where
  open J use {
    Json, Wire, parse, is_object, is_array, is_string, find, elements, get_string, get_bool,
    get_int, object,
  }

  -- The `switch` on the message type.
  unfoldable pub parse_body :
      SignalingMessageType → Json → ParsedSignalingMessage → Option ParsedSignalingMessage
  parse_body registered payload m = do
    servers ← parse_ice_servers J payload
    some (record m { ice_servers = servers })
  parse_body client_list payload m = do
    clients ← parse_client_list J payload
    some (record m { clients = clients })
  parse_body user_offline payload m = do
    id ← value_string J payload "clientId" ""
    some (record m { offline_client_id = id })
  parse_body call_request payload m = do
    call_id ← parse_call_id J payload
    some (record m { call_id = call_id })
  parse_body call_response payload m = do
    call_id ← parse_call_id J payload
    accepted ← value_bool J payload "accepted" false
    reason ← value_string J payload "reason" ""
    some (record m { call_id = call_id; accepted = accepted; reason = reason })
  parse_body call_cancel payload m = do
    call_id ← parse_call_id J payload
    reason ← value_string J payload "reason" ""
    some (record m { call_id = call_id; reason = reason })
  parse_body call_end payload m = do
    call_id ← parse_call_id J payload
    reason ← value_string J payload "reason" ""
    some (record m { call_id = call_id; reason = reason })
  parse_body offer payload m = do
    sdp ← parse_session_description J payload "offer"
    some (record m { session_description = sdp })
  parse_body answer payload m = do
    sdp ← parse_session_description J payload "answer"
    some (record m { session_description = sdp })
  parse_body ice_candidate payload m = do
    i ← parse_ice_candidate J payload
    some (record m { ice_candidate_payload = i })
  parse_body unknown payload m = some m

  unfoldable pub payload_of : Json → Json
  payload_of envelope = elim (find envelope "payload") [
    | none ↦ object []
    | some payload ↦ if is_object payload then payload else object []
  ]

  unfoldable pub parse_envelope : Json → Option ParsedSignalingMessage
  parse_envelope envelope = do
    text ← value_string J envelope "type" ""
    from ← value_string J envelope "from" ""
    let type = parse_message_type text
    parse_body type (payload_of envelope) (record blank_message { type = type; from = from })

  -- What follows the parsing of the text.
  unfoldable pub read_envelope : Json → CodecResult ParsedSignalingMessage
  read_envelope envelope =
      if not (is_object envelope)
      then returned blank_message
      else or_threw (parse_envelope envelope)

  unfoldable pub parse_signaling_message : Wire → CodecResult ParsedSignalingMessage
  parse_signaling_message message = elim (parse message) [
    | parse_error what ↦ returned_false (text_append "Invalid JSON from signaling server: " what)
    | parsed envelope ↦ read_envelope envelope
  ]
