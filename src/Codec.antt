-- ===== src/Codec.antt =====
-- src/signaling_codec.cc, include/signaling_codec.h: the messages of the signalling server. The
-- parsing functions return `none` where the JSON library throws.
pub mod Build
pub mod Parse
pub mod Envelope
pub mod RoundTrip
pub mod Errors
pub mod Sample
mod Tests
use webrtc_peerconnection_cl.Prelude.{
  String, Bool, true, false, Option, none, some, List, [], ◌∷◌, ℤ, negsuc, str_eq, if◌then◌else◌,
}
use webrtc_peerconnection_cl.SignalTypes.{
  ClientInfo, IceServerConfig, SessionDescriptionPayload, IceCandidatePayload,
}

pub data SignalingMessageType : Type 0 where
  registered client_list user_offline call_request call_response call_cancel call_end offer answer
        ice_candidate unknown :
      SignalingMessageType

pub record ParsedSignalingMessage : Type 0 where
  pub type : SignalingMessageType
  pub from : String
  pub ice_servers : List IceServerConfig
  pub clients : List ClientInfo
  pub offline_client_id : String
  pub call_id : String
  pub accepted : Bool
  pub reason : String
  pub session_description : SessionDescriptionPayload
  pub ice_candidate_payload : IceCandidatePayload

-- The default-constructed message.
abbrev pub blank_message : ParsedSignalingMessage
blank_message = record {
  type = unknown;
  from = "";
  ice_servers = [];
  clients = [];
  offline_client_id = "";
  call_id = "";
  accepted = false;
  reason = "";
  session_description = record { call_id = ""; type = ""; sdp = "" };
  ice_candidate_payload = record {
    call_id = "";
    sdp_mid = "";
    sdp_mline_index = negsuc 0;
    candidate = "";
  };
}

unfoldable pub parse_message_type : String → SignalingMessageType
parse_message_type text =
    if str_eq text "registered"
    then registered
    else if str_eq text "client-list"
    then client_list
    else if str_eq text "user-offline"
    then user_offline
    else if str_eq text "call-request"
    then call_request
    else if str_eq text "call-response"
    then call_response
    else if str_eq text "call-cancel"
    then call_cancel
    else if str_eq text "call-end"
    then call_end
    else if str_eq text "offer"
    then offer
    else if str_eq text "answer"
    then answer
    else if str_eq text "ice-candidate"
    then ice_candidate
    else unknown
