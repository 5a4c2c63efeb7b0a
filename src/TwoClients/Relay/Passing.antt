-- ===== src/TwoClients/Relay/Passing.antt =====
-- A message of a call passes the server (webrtc-signaling-server/main.go) unchanged.
use webrtc_peerconnection_cl.Prelude.{
  ◌≡◌, ◌≢◌, refl, arith, eq_iff, ◌∙◌, ap, String, true, false, some, List, [], ◌∷◌,
}
use webrtc_peerconnection_cl.CallManager.{is_empty}
use webrtc_peerconnection_cl.Json.{JsonLib, parsed}
use webrtc_peerconnection_cl.Codec.Parse.{
  returned, or_threw, payload_of, read_envelope, parse_signaling_message,
}
use webrtc_peerconnection_cl.Codec.Build.{build_message_envelope}
use webrtc_peerconnection_cl.Codec.Envelope.{
  find-envelope, envelope-object, envelope-writable, parse-members,
}
use webrtc_peerconnection_cl.Codec.Errors.{find-to}
use webrtc_peerconnection_cl.Codec.RoundTrip.{
  Sent, sent_request, sent_response, sent_cancel, sent_end, sent_offer, sent_answer, sent_candidate,
  build, meant, Names, CanBeWritten, type_text, payload, build-envelope, payload-IsPayload,
  type-ascii, payload-writable, body-meant,
}
use webrtc_peerconnection_cl.TwoClients.Relay.{
  is_relayed, WebRtcMessage, text_field, unmarshal, text_member, payload_member, marshal,
  relay_message, on_message,
}

module _ (J : JsonLib) where
  open J use {
    Json, Wire, parse, dump, is_object, is_null, find, get_string, string, object, parse-dump,
    is_object-object, find-object, get_string-string, is_object-string, is_writable, is_utf8,
    is_utf8-ascii, is_writable-string, is_writable-object, is_null-string,
  }

  relayed : (s : Sent) → is_relayed (type_text J s) ≡ true
  unfolding is_relayed
  relayed (sent_request now_ms call_id) = refl
  relayed (sent_response call_id accepted reason) = refl
  relayed (sent_cancel call_id reason) = refl
  relayed (sent_end call_id reason) = refl
  relayed (sent_offer sdp) = refl
  relayed (sent_answer sdp) = refl
  relayed (sent_candidate i) = refl

  field-string :
      (j : Json) (key value : String)
      → find j key ≡ some (string value)
      → text_field J j key ≡ some value
  unfolding text_field
  field-string j key value f = simp (text_field, f, is_null-string, get_string-string)

  abbrev message : String → String → Sent → WebRtcMessage J
  message from to s = record {
    type = type_text J s;
    from = from;
    to = to;
    payload = some (payload J s);
  }

  unmarshal-build :
      (from to : String) (s : Sent)
      → is_empty to ≡ false
      → unmarshal J (build_message_envelope J (type_text J s) from to (payload J s))
        ≡ some (message from to s)
  unfolding unmarshal
  unmarshal-build from to s named =
      let v = payload-IsPayload J s in
      let e = build_message_envelope J (type_text J s) from to (payload J s) in
      simp (
        unmarshal,
        envelope-object J (type_text J s) from to (payload J s) v,
        field-string e "type" (type_text J s)
            (find-envelope J (type_text J s) from to "type" (payload J s) v refl),
        field-string e "from" from
            (find-envelope J (type_text J s) from to "from" (payload J s) v refl),
        field-string e "to" to (find-to J (type_text J s) from to (payload J s) v.1 named),
        find-envelope J (type_text J s) from to "payload" (payload J s) v refl,
      )

  -- What the server writes.
  abbrev members : String → String → Sent → List (String × Json)
  members from to s =
      ("type", string (type_text J s))
      ∷ ("from", string from)
      ∷ ("to", string to)
      ∷ ("payload", payload J s)
      ∷ []

  marshal-message :
      (from to : String) (s : Sent)
      → is_empty from ≡ false
      → is_empty to ≡ false
      → marshal J (message from to s) ≡ dump (object (members from to s))
  unfolding marshal text_member payload_member
  marshal-message from to s f t = simp (marshal, text_member, f, t, payload_member)

  members-writable :
      (from to : String) (s : Sent)
      → Names J from to
      → CanBeWritten J s
      → is_writable (object (members from to s)) ≡ true
  members-writable from to s names h = is_writable-object _ (
    is_utf8-ascii "type" refl,
    is_writable-string (type_text J s) (type-ascii J s),
    (
      is_utf8-ascii "from" refl,
      is_writable-string from names.0,
      (
        is_utf8-ascii "to" refl,
        is_writable-string to names.1,
        (is_utf8-ascii "payload" refl, payload-writable J s h, tt),
      ),
    ),
  )

  members-meant :
      (from to : String) (s : Sent) (w : Wire)
      → CanBeWritten J s
      → parse w ≡ parsed (object (members from to s))
      → parse_signaling_message J w ≡ returned (meant from s)
  unfolding parse_signaling_message read_envelope payload_of
  members-meant from to s w h read =
      let ms = members from to s in
      let v = payload-IsPayload J s in
      let there : payload_of J (object ms) ≡ payload J s =
        simp (payload_of, find-object ms "payload", v.0) in
      let parsed_envelope =
        parse-members J (object ms) (type_text J s) from (payload J s) (is_object-object ms)
          (find-object ms "type") (find-object ms "from") there
        ∙ body-meant J from s h in
      simp (parse_signaling_message, read_envelope, read, is_object-object ms)
        (ap or_threw parsed_envelope)

  -- A message of a call that a client builds for an addressee is passed on to that addressee, who
  -- parses what was meant.
  pub build_then_relay :
      (from to : String) (s : Sent)
      → from ≢ ""
      → to ≢ ""
      → Names J from to
      → CanBeWritten J s
      → (w w' : Wire) × (build J from to s ≡ some w)
        × (on_message J from w ≡ some (to, w'))
        × (parse_signaling_message J w' ≡ returned (meant from s))
  unfolding on_message relay_message
  build_then_relay from to s f t names h =
      let sender : is_empty from ≡ false = ground (arith, eq_iff from "") in
      let named : is_empty to ≡ false = ground (arith, eq_iff to "") in
      let v = payload-IsPayload J s in
      let (w, written, read) =
        parse-dump (build_message_envelope J (type_text J s) from to (payload J s)) (
          envelope-writable J (type_text J s) from to (payload J s) v (type-ascii J s) names.0
            names.1 (payload-writable J s h)) in
      let (w', rewritten, reread) =
        parse-dump (object (members from to s)) (members-writable from to s names h) in
      (
        w,
        w',
        build-envelope J from to s ∙ written,
        simp (
          on_message,
          relay_message,
          read,
          unmarshal-build from to s named,
          relayed s,
          named,
          marshal-message from to s sender named,
          rewritten,
        ),
        members-meant from to s w' h reread,
      )
