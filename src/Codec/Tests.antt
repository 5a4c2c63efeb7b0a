-- ===== src/Codec/Tests.antt =====
-- The codec and the dispatcher at concrete inputs (src/signaling_codec.cc).
use webrtc_peerconnection_cl.Prelude.{◌≡◌, refl, true, false, none, some, inl, [], ◌∷◌, pos}
use webrtc_peerconnection_cl.Codec.Parse.{returned, parse_signaling_message}
use webrtc_peerconnection_cl.Codec.RoundTrip.{
  Sent, sent_candidate, sent_response, build, meant, build_then_parse,
}
use webrtc_peerconnection_cl.Codec.Errors.{build_throws}
use webrtc_peerconnection_cl.Codec.Sample.{sample_json}
use webrtc_peerconnection_cl.Dispatcher.{success_outcome, dispatch_signaling_message}
use webrtc_peerconnection_cl.Dispatcher.Delivery.{arrival, build_then_dispatch}

abbrev candidate_sent : Sent
candidate_sent =
    sent_candidate
      (record { call_id = "c1"; sdp_mid = "0"; sdp_mline_index = pos 0; candidate = "host" })

build_then_parse_example :
    (w : sample_json.Wire) × (build sample_json "alice" "bob" candidate_sent ≡ some w)
    × (parse_signaling_message sample_json w ≡ returned (meant "alice" candidate_sent))
build_then_parse_example =
    build_then_parse sample_json "alice" "bob" candidate_sent (refl, refl) (refl, refl, refl, refl)

abbrev refusal : Sent
refusal = sent_response "c1" false "busy"

build_then_dispatch_example :
    (w : sample_json.Wire) × (build sample_json "bob" "" refusal ≡ some w)
    × (dispatch_signaling_message sample_json true w
        ≡ returned (success_outcome, arrival "bob" refusal ∷ []))
    × (dispatch_signaling_message sample_json false w ≡ returned (success_outcome, []))
build_then_dispatch_example =
    build_then_dispatch sample_json "bob" "" refusal (refl, refl) (refl, refl)

build_throws_example : build sample_json "Zoë" "bob" refusal ≡ none
build_throws_example = build_throws sample_json "Zoë" "bob" refusal (inl refl)
