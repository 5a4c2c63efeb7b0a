-- ===== src/Codec/RoundTrip.antt =====
-- What one client builds, another one parses (src/signaling_codec.cc).
mod Messages
mod Payloads
use webrtc_peerconnection_cl.Prelude.{◌≡◌, sym, ◌∙◌, String, some}
use webrtc_peerconnection_cl.Json.{JsonLib}
use webrtc_peerconnection_cl.Codec.Parse.{returned, parse_signaling_message}
use webrtc_peerconnection_cl.Codec.Envelope.{parse-dumped}
unfoldable pub use webrtc_peerconnection_cl.Codec.RoundTrip.Messages.{build}
pub use webrtc_peerconnection_cl.Codec.RoundTrip.Messages.{
  Sent, sent_request, sent_response, sent_cancel, sent_end, sent_offer, sent_answer, sent_candidate,
  meant, Names, CanBeWritten,
}
pub use webrtc_peerconnection_cl.Codec.RoundTrip.Payloads.{
  type_text, payload, build-envelope, payload-IsPayload, type-ascii, payload-writable, body-meant,
}

module _ (J : JsonLib) where
  open J use {Wire}

  -- Whatever the names, the identifier, the reason, the description and the candidate are (empty
  -- texts too), as long as they are UTF-8, a message of a call that one client builds is parsed by
  -- another without an error, to the message that was meant, with the sender's name: the building
  -- throws nothing. The time of a request is a number of 64 bits, the line index of a candidate one
  -- of 32.
  pub build_then_parse :
      (from to : String) (s : Sent)
      → Names J from to
      → CanBeWritten J s
      → (w : Wire) × (build J from to s ≡ some w)
        × (parse_signaling_message J w ≡ returned (meant from s))
  build_then_parse from to s names h =
      let (w, written, read) =
        parse-dumped J (type_text J s) from to (payload J s) (payload-IsPayload J s)
          (type-ascii J s) names (payload-writable J s h) (body-meant J from s h) in
      (w, build-envelope J from to s ∙ written, read)
