-- ===== src/Codec/Errors.antt =====
-- What the parser makes of texts that are no message, and what cannot be built
-- (src/signaling_codec.cc).
use webrtc_peerconnection_cl.Prelude.{
  ◌≡◌, ◌≢◌, ◌⊎◌, inl, inr, refl, ◌∙◌, arith, eq_iff, String, true, false, none, some, text_append,
}
use webrtc_peerconnection_cl.Json.{JsonLib, parsed, parse_error}
use webrtc_peerconnection_cl.CallManager.{is_empty}
use webrtc_peerconnection_cl.Codec.Build.{build_message_envelope}
use webrtc_peerconnection_cl.Codec.Envelope.{find-envelope}
use webrtc_peerconnection_cl.Codec.RoundTrip.{
  Sent, build, build-envelope, type_text, payload, payload-IsPayload,
}
use webrtc_peerconnection_cl.Codec.{blank_message}
use webrtc_peerconnection_cl.Codec.Parse.{
  returned, returned_false, read_envelope, parse_signaling_message,
}

module _ (J : JsonLib) where
  open J use {
    Json, Wire, parse, dump, is_utf8, is_object, is_null, find, string, set, find-set,
    is_object-set, is_object-object, dump-member, dump-string,
  }

  -- A text that is no JSON gives `false` and an error that quotes the library; JSON that is no
  -- object gives the blank message of unknown type, with no error.
  pub not_a_message :
      (w : Wire) (what : String) (v : Wire) (j : Json)
      → parse w ≡ parse_error what
      → parse v ≡ parsed j
      → is_object j ≡ false
      → (parse_signaling_message J w
          ≡ returned_false (text_append "Invalid JSON from signaling server: " what))
        × (parse_signaling_message J v ≡ returned blank_message)
  unfolding parse_signaling_message read_envelope
  not_a_message w what v j e p n =
      (simp (parse_signaling_message, e), simp (parse_signaling_message, read_envelope, p, n))

  -- The addressee of an envelope.
  pub find-to :
      (type from to : String) (p : Json)
      → is_null p ≡ false
      → is_empty to ≡ false
      → find (build_message_envelope J type from to p) "to" ≡ some (string to)
  unfolding build_message_envelope
  find-to type from to p v n = simp (n, v, find-set, is_object-set, is_object-object)

  -- The name of the sender is not UTF-8, or the addressee is named and its name is not.
  abbrev pub IsMisnamed : String → String → Type 0
  IsMisnamed from to = (is_utf8 from ≡ false) ⊎ ((to ≢ "") × (is_utf8 to ≡ false))

  envelope_throws :
      (type from to : String) (p : Json)
      → (is_object p ≡ true) × (is_null p ≡ false)
      → IsMisnamed from to
      → dump (build_message_envelope J type from to p) ≡ none
  envelope_throws type from to p v (inl bad) =
      dump-member _ (string from) "from" (find-envelope J type from to "from" p v refl)
        (dump-string from bad)
  envelope_throws type from to p v (inr (named, bad)) =
      let there : is_empty to ≡ false = ground (arith, eq_iff to "") in
      dump-member _ (string to) "to" (find-to type from to p v.1 there) (dump-string to bad)

  -- When the sender's name is not UTF-8, or the addressee has a name that is not, then every
  -- message of a call ends in the library's exception while it is built, whatever it says: there is
  -- nothing to send.
  pub build_throws : (from to : String) (s : Sent) → IsMisnamed from to → build J from to s ≡ none
  build_throws from to s h =
      build-envelope J from to s
      ∙ envelope_throws (type_text J s) from to (payload J s) (payload-IsPayload J s) h
