-- ===== src/Codec/RoundTrip/Payloads.antt =====
-- What each message of a call is built from, and its payload read back (src/signaling_codec.cc).
use webrtc_peerconnection_cl.Prelude.{
  ◌≡◌, refl, sym, ap, inl, inr, String, true, false, some, List, arith, pos, negsuc, [], ◌∷◌, ℤ,
  Bool-cases, eq_iff,
}
use webrtc_peerconnection_cl.SignalTypes.{SessionDescriptionPayload, IceCandidatePayload}
use webrtc_peerconnection_cl.CallManager.{is_empty}
use webrtc_peerconnection_cl.Json.{JsonLib, is_ascii, is_signed}
use webrtc_peerconnection_cl.Codec.{blank_message, parse_message_type}
use webrtc_peerconnection_cl.Codec.Build.{
  build_message_envelope, build_call_request_message, build_call_response_message,
  build_call_cancel_message, build_call_end_message, build_offer_message, sdp_payload, with_reason,
  build_answer_message, build_ice_candidate_message,
}
use webrtc_peerconnection_cl.Codec.Parse.{
  parse_session_description, parse_ice_candidate, parse_body, nested_description, candidate_object,
  parse_mline_index, parse_sdp_mid,
}
use webrtc_peerconnection_cl.Codec.Envelope.{
  reason-writable, read_string, read_fallback, read_bool, object-IsPayload, reason-IsPayload,
  find-reason, read_reason, read_members, read_reasoned,
}
use webrtc_peerconnection_cl.Codec.RoundTrip.Messages.{
  Sent, sent_request, sent_response, sent_cancel, sent_end, sent_offer, sent_answer, sent_candidate,
  meant, CanBeWritten, build,
}

module _ (J : JsonLib) where
  open J use {
    Json, Wire, parse, dump, is_object, is_array, is_string, is_null, find, elements, get_string,
    get_bool, get_int, null, string, boolean, integer, object, set, parse-dump, is_object-object,
    is_null-object, find-object, is_object-set, is_null-set, find-set, get_string-string,
    get_bool-boolean, get_int-integer, is_utf8, is_writable, is_utf8-ascii, is_writable-string,
    is_writable-boolean, is_writable-integer, is_writable-object,
  }

  abbrev candidate_fields : IceCandidatePayload → List (String × Json)
  candidate_fields i =
      ("sdpMid", string i.sdp_mid)
      ∷ ("sdpMLineIndex", integer i.sdp_mline_index)
      ∷ ("candidate", string i.candidate)
      ∷ []

  writable_sdp :
      (sdp : SessionDescriptionPayload)
      → (is_utf8 sdp.call_id ≡ true) × (is_utf8 sdp.type ≡ true) × (is_utf8 sdp.sdp ≡ true)
      → is_writable (sdp_payload J sdp) ≡ true
  unfolding sdp_payload
  writable_sdp sdp h = is_writable-object _ (
    is_utf8-ascii "callId" refl,
    is_writable-string sdp.call_id h.0,
    (
      is_utf8-ascii "sdp" refl,
      is_writable-object _ (
        is_utf8-ascii "type" refl,
        is_writable-string sdp.type h.1,
        (is_utf8-ascii "sdp" refl, is_writable-string sdp.sdp h.2, tt),
      ),
      tt,
    ),
  )

  writable_id :
      (call_id k : String) (v : Json)
      → is_utf8 call_id ≡ true
      → is_ascii k ≡ true
      → is_writable v ≡ true
      → is_writable (object (("callId", string call_id) ∷ (k, v) ∷ [])) ≡ true
  writable_id call_id k v h a w =
      is_writable-object _
        (is_utf8-ascii "callId" refl, is_writable-string call_id h, (is_utf8-ascii k a, w, tt))

  writable_reasoned :
      (call_id reason : String)
      → is_utf8 call_id ≡ true
      → is_utf8 reason ≡ true
      → is_writable (with_reason J reason (object (("callId", string call_id) ∷ []))) ≡ true
  writable_reasoned call_id reason h r =
      reason-writable J reason _ r
        (is_writable-object _ (is_utf8-ascii "callId" refl, is_writable-string call_id h, tt))

  signed-wider : (i : ℤ) → is_signed 32 i ≡ true → is_signed 64 i ≡ true
  signed-wider (pos n) h = ground arith
  signed-wider (negsuc n) h = ground arith

  writable_candidate :
      (i : IceCandidatePayload)
      → CanBeWritten J (sent_candidate i)
      → is_writable
          (object (("callId", string i.call_id) ∷ ("candidate", object (candidate_fields i)) ∷ []))
        ≡ true
  writable_candidate i h = writable_id i.call_id "candidate" _ h.0 refl (
      is_writable-object _ (
        is_utf8-ascii "sdpMid" refl,
        is_writable-string i.sdp_mid h.1,
        (
          is_utf8-ascii "sdpMLineIndex" refl,
          is_writable-integer i.sdp_mline_index (signed-wider i.sdp_mline_index h.2),
          (is_utf8-ascii "candidate" refl, is_writable-string i.candidate h.3, tt),
        ),
      ))

  read_sdp :
      (sdp : SessionDescriptionPayload) (fallback : String)
      → parse_session_description J (sdp_payload J sdp) fallback ≡ some sdp
  unfolding parse_session_description nested_description sdp_payload
  read_sdp sdp fallback =
      let inner : List (String × Json) = ("type", string sdp.type) ∷ ("sdp", string sdp.sdp) ∷ [] in
      let ms : List (String × Json) = ("callId", string sdp.call_id) ∷ ("sdp", object inner) ∷ [] in
      let o = is_object-object inner in
      simp (
        parse_session_description,
        nested_description,
        read_members J ms sdp.call_id refl refl,
        find-object ms "sdp",
        o,
        read_string J (object inner) "type" sdp.type fallback o (find-object inner "type"),
        read_string J (object inner) "sdp" sdp.sdp "" o (find-object inner "sdp"),
      )

  read_mid :
      (i : IceCandidatePayload) → parse_sdp_mid J (object (candidate_fields i)) ≡ some i.sdp_mid
  unfolding parse_sdp_mid
  read_mid i =
      let fs = candidate_fields i in
      let o = is_object-object fs in
      let m = read_string J (object fs) "sdpMid" i.sdp_mid "" o (find-object fs "sdpMid") in
      let n = read_fallback J (object fs) "sdp_mid" "" o (find-object fs "sdp_mid") in
      elim (Bool-cases (is_empty i.sdp_mid)) [
        | inl y ↦ simp (parse_sdp_mid, m, y, n) (ap some (sym ((eq_iff i.sdp_mid "").0 y)))
        | inr e ↦ simp (parse_sdp_mid, m, e)
      ]

  read_candidate :
      (i : IceCandidatePayload)
      → is_signed 32 i.sdp_mline_index ≡ true
      → parse_ice_candidate J
          (object (("callId", string i.call_id) ∷ ("candidate", object (candidate_fields i)) ∷ []))
        ≡ some i
  unfolding parse_ice_candidate candidate_object parse_mline_index
  read_candidate i m =
      let fs = candidate_fields i in
      let ms : List (String × Json) =
        ("callId", string i.call_id) ∷ ("candidate", object fs) ∷ [] in
      let o = is_object-object fs in
      simp (
        parse_ice_candidate,
        candidate_object,
        parse_mline_index,
        read_members J ms i.call_id refl refl,
        find-object ms "candidate",
        o,
        read_mid i,
        find-object fs "sdpMLineIndex",
        get_int-integer i.sdp_mline_index m,
        read_string J (object fs) "candidate" i.candidate "" o (find-object fs "candidate"),
      )

  abbrev pub type_text : Sent → String
  type_text (sent_request now_ms call_id) = "call-request"
  type_text (sent_response call_id accepted reason) = "call-response"
  type_text (sent_cancel call_id reason) = "call-cancel"
  type_text (sent_end call_id reason) = "call-end"
  type_text (sent_offer sdp) = "offer"
  type_text (sent_answer sdp) = "answer"
  type_text (sent_candidate i) = "ice-candidate"

  abbrev pub payload : Sent → Json
  payload (sent_request now_ms call_id) =
      object (("callId", string call_id) ∷ ("timestamp", integer now_ms) ∷ [])
  payload (sent_response call_id accepted reason) =
      with_reason J reason
        (object (("callId", string call_id) ∷ ("accepted", boolean accepted) ∷ []))
  payload (sent_cancel call_id reason) =
      with_reason J reason (object (("callId", string call_id) ∷ []))
  payload (sent_end call_id reason) =
      with_reason J reason (object (("callId", string call_id) ∷ []))
  payload (sent_offer sdp) = sdp_payload J sdp
  payload (sent_answer sdp) = sdp_payload J sdp
  payload (sent_candidate i) =
      object (("callId", string i.call_id) ∷ ("candidate", object (candidate_fields i)) ∷ [])

  pub build-envelope :
      (from to : String) (s : Sent)
      → build J from to s ≡ dump (build_message_envelope J (type_text s) from to (payload s))
  unfolding build build_call_request_message build_call_response_message build_call_cancel_message
      build_call_end_message build_offer_message build_answer_message build_ice_candidate_message
  build-envelope from to (sent_request now_ms call_id) = refl
  build-envelope from to (sent_response call_id accepted reason) = refl
  build-envelope from to (sent_cancel call_id reason) = refl
  build-envelope from to (sent_end call_id reason) = refl
  build-envelope from to (sent_offer sdp) = refl
  build-envelope from to (sent_answer sdp) = refl
  build-envelope from to (sent_candidate i) = refl

  pub payload-IsPayload :
      (s : Sent) → (is_object (payload s) ≡ true) × (is_null (payload s) ≡ false)
  unfolding sdp_payload
  payload-IsPayload (sent_request now_ms call_id) = object-IsPayload J _
  payload-IsPayload (sent_response call_id accepted reason) = reason-IsPayload J reason _
  payload-IsPayload (sent_cancel call_id reason) = reason-IsPayload J reason _
  payload-IsPayload (sent_end call_id reason) = reason-IsPayload J reason _
  payload-IsPayload (sent_offer sdp) = object-IsPayload J _
  payload-IsPayload (sent_answer sdp) = object-IsPayload J _
  payload-IsPayload (sent_candidate i) = object-IsPayload J _

  pub type-ascii : (s : Sent) → is_utf8 (type_text s) ≡ true
  type-ascii (sent_request now_ms call_id) = is_utf8-ascii "call-request" refl
  type-ascii (sent_response call_id accepted reason) = is_utf8-ascii "call-response" refl
  type-ascii (sent_cancel call_id reason) = is_utf8-ascii "call-cancel" refl
  type-ascii (sent_end call_id reason) = is_utf8-ascii "call-end" refl
  type-ascii (sent_offer sdp) = is_utf8-ascii "offer" refl
  type-ascii (sent_answer sdp) = is_utf8-ascii "answer" refl
  type-ascii (sent_candidate i) = is_utf8-ascii "ice-candidate" refl

  pub payload-writable : (s : Sent) → CanBeWritten J s → is_writable (payload s) ≡ true
  payload-writable (sent_request now_ms call_id) h =
      writable_id call_id "timestamp" _ h.0 refl (is_writable-integer now_ms h.1)
  payload-writable (sent_response call_id accepted reason) h =
      reason-writable J reason _ h.1
        (writable_id call_id "accepted" _ h.0 refl (is_writable-boolean accepted))
  payload-writable (sent_cancel call_id reason) h = writable_reasoned call_id reason h.0 h.1
  payload-writable (sent_end call_id reason) h = writable_reasoned call_id reason h.0 h.1
  payload-writable (sent_offer sdp) h = writable_sdp sdp h
  payload-writable (sent_answer sdp) h = writable_sdp sdp h
  payload-writable (sent_candidate i) h = writable_candidate i h

  -- The payload is read back to the message that was meant.
  pub body-meant :
      (from : String) (s : Sent)
      → CanBeWritten J s
      → parse_body J
          (parse_message_type (type_text s))
          (payload s)
          (record blank_message { type = parse_message_type (type_text s); from = from })
        ≡ some (meant from s)
  unfolding parse_body parse_message_type
  body-meant from (sent_request now_ms call_id) h =
      let ms : List (String × Json) =
        ("callId", string call_id) ∷ ("timestamp", integer now_ms) ∷ [] in
      simp (read_members J ms call_id refl refl)
  body-meant from (sent_response call_id accepted reason) h =
      let ms : List (String × Json) =
        ("callId", string call_id) ∷ ("accepted", boolean accepted) ∷ [] in
      let v = reason-IsPayload J reason ms in
      simp (
        read_reasoned J reason ms call_id refl refl,
        read_bool J _ "accepted" accepted false v.0 (find-reason J reason "accepted" ms refl),
        read_reason J reason ms refl,
      )
  body-meant from (sent_cancel call_id reason) h =
      let ms : List (String × Json) = ("callId", string call_id) ∷ [] in
      simp (read_reasoned J reason ms call_id refl refl, read_reason J reason ms refl)
  body-meant from (sent_end call_id reason) h =
      let ms : List (String × Json) = ("callId", string call_id) ∷ [] in
      simp (read_reasoned J reason ms call_id refl refl, read_reason J reason ms refl)
  body-meant from (sent_offer sdp) h = simp (read_sdp sdp "offer")
  body-meant from (sent_answer sdp) h = simp (read_sdp sdp "answer")
  body-meant from (sent_candidate i) h = simp (read_candidate i h.2)
