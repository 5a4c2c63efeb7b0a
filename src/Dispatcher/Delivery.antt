-- ===== src/Dispatcher/Delivery.antt =====
-- From the call on one client's signalling client to the call on the other's observer
-- (src/signaling_codec.cc, src/signal_message_dispatcher.cc).
use webrtc_peerconnection_cl.Prelude.{◌≡◌, refl, String, some, true, false, [], ◌∷◌}
use webrtc_peerconnection_cl.Json.{JsonLib}
use webrtc_peerconnection_cl.Codec.Parse.{returned, parse_signaling_message}
use webrtc_peerconnection_cl.Codec.RoundTrip.{
  Sent, sent_request, sent_response, sent_cancel, sent_end, sent_offer, sent_answer, sent_candidate,
  build, meant, build_then_parse, Names, CanBeWritten,
}
use webrtc_peerconnection_cl.Coordinator.Signals.{
  SignalCall, request_call, response_call, cancel_call_call, end_call_call, offer_call, answer_call,
  ice_candidate_call,
}
use webrtc_peerconnection_cl.Dispatcher.{
  success_outcome, observer_calls, outcome_of, dispatch_signaling_message,
}

-- The call on the receiver's observer.
abbrev pub arrival : String → Sent → SignalCall
arrival from (sent_request now_ms call_id) = request_call from call_id
arrival from (sent_response call_id accepted reason) = response_call from call_id accepted reason
arrival from (sent_cancel call_id reason) = cancel_call_call from call_id reason
arrival from (sent_end call_id reason) = end_call_call from call_id reason
arrival from (sent_offer sdp) = offer_call from sdp
arrival from (sent_answer sdp) = answer_call from sdp
arrival from (sent_candidate i) = ice_candidate_call from i

meant-delivered :
    (from : String) (s : Sent)
    → (outcome_of (meant from s) ≡ success_outcome)
      × (observer_calls (meant from s) ≡ arrival from s ∷ [])
unfolding outcome_of observer_calls
meant-delivered from (sent_request now_ms call_id) = (refl, refl)
meant-delivered from (sent_response call_id accepted reason) = (refl, refl)
meant-delivered from (sent_cancel call_id reason) = (refl, refl)
meant-delivered from (sent_end call_id reason) = (refl, refl)
meant-delivered from (sent_offer sdp) = (refl, refl)
meant-delivered from (sent_answer sdp) = (refl, refl)
meant-delivered from (sent_candidate i) = (refl, refl)

module _ (J : JsonLib) where
  pub meant_dispatched :
      (from : String) (s : Sent) (w : J.Wire)
      → parse_signaling_message J w ≡ returned (meant from s)
      → dispatch_signaling_message J true w ≡ returned (success_outcome, arrival from s ∷ [])
  unfolding dispatch_signaling_message
  meant_dispatched from s w read =
      simp
        (dispatch_signaling_message, read, (meant-delivered from s).0, (meant-delivered from s).1)

  -- Every message of a call whose texts, names and numbers can be written is built, and arrives at
  -- the other's observer as exactly one call, with the sender's name and the same data, and with a
  -- successful outcome that asks for nothing; without an observer the outcome is the same and
  -- nobody is called. The texts are UTF-8; the time of a request is a number of 64 bits, the line
  -- index of a candidate one of 32.
  pub build_then_dispatch :
      (from to : String) (s : Sent)
      → Names J from to
      → CanBeWritten J s
      → (w : J.Wire) × (build J from to s ≡ some w)
        × (dispatch_signaling_message J true w ≡ returned (success_outcome, arrival from s ∷ []))
        × (dispatch_signaling_message J false w ≡ returned (success_outcome, []))
  unfolding dispatch_signaling_message
  build_then_dispatch from to s names h =
      let (w, built, read) = build_then_parse J from to s names h in
      (
        w,
        built,
        meant_dispatched from s w read,
        simp (dispatch_signaling_message, read, (meant-delivered from s).0),
      )
