-- ===== src/Codec/Build.antt =====
-- src/signaling_codec.cc: the messages that the client sends; `none` is the exception that `dump`
-- throws on a text that is not UTF-8.
use webrtc_peerconnection_cl.Prelude.{String, Option, Bool, not, [], ◌∷◌, ℤ, if◌then◌else◌}
use webrtc_peerconnection_cl.SignalTypes.{SessionDescriptionPayload, IceCandidatePayload}
use webrtc_peerconnection_cl.CallManager.{is_empty}
use webrtc_peerconnection_cl.Json.{JsonLib}

module _ (J : JsonLib) where
  open J use {Json, Wire, dump, is_null, null, string, boolean, integer, object, set}

  unfoldable pub build_message_envelope : String → String → String → Json → Json
  build_message_envelope type from to payload =
      let message = object (("type", string type) ∷ ("from", string from) ∷ []) in
      let addressed = if not (is_empty to) then set "to" (string to) message else message in
      if not (is_null payload) then set "payload" payload addressed else addressed

  -- `if (!reason.empty()) payload["reason"] = reason;`
  unfoldable pub with_reason : String → Json → Json
  with_reason reason payload =
      if not (is_empty reason) then set "reason" (string reason) payload else payload

  unfoldable pub build_register_message : String → Option Wire
  unfolding build_message_envelope
  build_register_message from = dump (build_message_envelope "register" from "" null)

  unfoldable pub build_list_clients_message : String → Option Wire
  unfolding build_message_envelope
  build_list_clients_message from = dump (build_message_envelope "list-clients" from "" null)

  -- `now_ms`: the system clock.
  unfoldable pub build_call_request_message : ℤ → String → String → String → Option Wire
  unfolding build_message_envelope
  build_call_request_message now_ms from to call_id = dump (
      build_message_envelope "call-request" from to
        (object (("callId", string call_id) ∷ ("timestamp", integer now_ms) ∷ [])))

  unfoldable pub build_call_response_message :
      String → String → String → Bool → String → Option Wire
  unfolding build_message_envelope with_reason
  build_call_response_message from to call_id accepted reason = dump (
      build_message_envelope "call-response" from to (
        with_reason reason
          (object (("callId", string call_id) ∷ ("accepted", boolean accepted) ∷ []))))

  unfoldable pub build_call_cancel_message : String → String → String → String → Option Wire
  unfolding build_message_envelope with_reason
  build_call_cancel_message from to call_id reason = dump (
      build_message_envelope "call-cancel" from to
        (with_reason reason (object (("callId", string call_id) ∷ []))))

  unfoldable pub build_call_end_message : String → String → String → String → Option Wire
  unfolding build_message_envelope with_reason
  build_call_end_message from to call_id reason = dump (
      build_message_envelope "call-end" from to
        (with_reason reason (object (("callId", string call_id) ∷ []))))

  unfoldable pub sdp_payload : SessionDescriptionPayload → Json
  sdp_payload sdp = object (
      ("callId", string sdp.call_id)
      ∷ ("sdp", object (("type", string sdp.type) ∷ ("sdp", string sdp.sdp) ∷ []))
      ∷ [])

  unfoldable pub build_offer_message : String → String → SessionDescriptionPayload → Option Wire
  unfolding build_message_envelope sdp_payload
  build_offer_message from to sdp = dump (build_message_envelope "offer" from to (sdp_payload sdp))

  unfoldable pub build_answer_message : String → String → SessionDescriptionPayload → Option Wire
  unfolding build_message_envelope sdp_payload
  build_answer_message from to sdp =
      dump (build_message_envelope "answer" from to (sdp_payload sdp))

  unfoldable pub build_ice_candidate_message : String → String → IceCandidatePayload → Option Wire
  unfolding build_message_envelope
  build_ice_candidate_message from to i = dump (
      build_message_envelope "ice-candidate" from to (
        object (
          ("callId", string i.call_id)
          ∷ (
            "candidate",
            object (
                ("sdpMid", string i.sdp_mid)
                ∷ ("sdpMLineIndex", integer i.sdp_mline_index)
                ∷ ("candidate", string i.candidate)
                ∷ []),
          )
          ∷ [])))
