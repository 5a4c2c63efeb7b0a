-- ===== src/TwoClients/Media/Delivery.antt =====
-- One message about media on its way from the engine of one client to the engine of the other
-- (src/call_coordinator.cc).
use webrtc_peerconnection_cl.Prelude.{
  ◌≡◌, ◌≢◌, refl, sym, ap, ◌∙◌, String, true, false, [], ℤ, arith, eq_iff, str_eq, is_negative,
}
use webrtc_peerconnection_cl.SignalTypes.{SessionDescriptionPayload, IceCandidatePayload}
use webrtc_peerconnection_cl.Json.{JsonLib}
use webrtc_peerconnection_cl.Codec.RoundTrip.{Sent, sent_offer, sent_answer, sent_candidate, build}
use webrtc_peerconnection_cl.Dispatcher.Delivery.{arrival}
use webrtc_peerconnection_cl.TwoClients.{send_first}
use webrtc_peerconnection_cl.TwoClients.Setup.{CanPass, relayed_call}
use webrtc_peerconnection_cl.Ports.{
  EnginePort, offer_created, answer_created, ice_candidate_generated,
}
use webrtc_peerconnection_cl.Coordinator.{Coordinator}
use webrtc_peerconnection_cl.Coordinator.Control.{on_notice}
use webrtc_peerconnection_cl.Coordinator.Signals.{
  on_signal, process_offer, process_answer, process_ice_candidate,
}
use webrtc_peerconnection_cl.Coordinator.Routing.{engine_call-same}
use webrtc_peerconnection_cl.TwoClients.Media.{
  media_wires, on_signals, receive_media, take_media, take_all_media,
}

module _ (J : JsonLib) (P : EnginePort) where
  open P use {Engine, has_peer_connection, set_remote_offer, set_remote_answer, add_ice_candidate}

  -- A message reaches the coordinator of its addressee as one call.
  one_call :
      (from to : String) (s : Sent) (c : Coordinator Engine)
      → CanPass J from to s
      → c.signal_observed ≡ true
      → (take_all_media J P from to (send_first J (build J from to s) []) c).0
        ≡ (on_signal P (arrival from s) c).0
  unfolding take_all_media take_media receive_media on_signals
  one_call from to s c can o =
      let (w, w', built, passed, dispatched) = relayed_call J from to s can in
      let addressed : str_eq to to ≡ true = ground (arith, eq_iff to to) in
      simp
        (
          built, send_first, take_all_media, take_media, passed, addressed, receive_media, o,
          dispatched, on_signals,
        )
        refl

  pub answer_arrives :
      (sdp : SessionDescriptionPayload) (c : Coordinator Engine)
      → sdp.call_id ≡ c.manager.current_call_id
      → sdp.call_id ≢ ""
      → sdp.sdp ≢ ""
      → (process_answer P c.current_peer_id sdp c).0
        ≡ record c { engine = (set_remote_answer sdp.sdp c.engine).0 }
  unfolding process_answer
  answer_arrives sdp c h n m = ground (
    arith,
    eq_iff sdp.call_id "",
    eq_iff sdp.sdp "",
    eq_iff sdp.call_id c.manager.current_call_id,
    eq_iff c.current_peer_id c.current_peer_id,
    engine_call-same P (set_remote_answer sdp.sdp) c,
  )

  candidate_arrives :
      (i : IceCandidatePayload) (c : Coordinator Engine)
      → i.call_id ≡ c.manager.current_call_id
      → i.call_id ≢ ""
      → i.sdp_mid ≢ ""
      → is_negative i.sdp_mline_index ≡ false
      → i.candidate ≢ ""
      → (process_ice_candidate P c.current_peer_id i c).0
        ≡ record c { engine = add_ice_candidate i.sdp_mid i.sdp_mline_index i.candidate c.engine }
  unfolding process_ice_candidate
  candidate_arrives i c h n m k l = ground (
    arith,
    eq_iff i.call_id "",
    eq_iff i.sdp_mid "",
    eq_iff i.candidate "",
    eq_iff i.call_id c.manager.current_call_id,
    eq_iff c.current_peer_id c.current_peer_id,
  )

  -- The name of the addressee.
  addressed_to :
      (from to : String) (s : Sent) (b : Coordinator Engine) {peer : String}
      → peer ≡ to
      → (take_all_media J P from to (send_first J (build J from peer s) []) b).0
        ≡ (take_all_media J P from to (send_first J (build J from to s) []) b).0
  addressed_to from to s b e =
      ap (λ name. (take_all_media J P from to (send_first J (build J from name s) []) b).0) e

  pub offer_sent :
      (from to sdp fresh : String) (a b : Coordinator Engine)
      → let payload : SessionDescriptionPayload = record {
        call_id = a.manager.current_call_id;
        type = "offer";
        sdp = sdp;
      } in
        CanPass J from to (sent_offer payload)
        → a.current_peer_id ≡ to
        → b.signal_observed ≡ true
        → (take_all_media J P from to
            (media_wires J from (on_notice P fresh (offer_created sdp) a).1)
            b).0
          ≡ (process_offer P from payload b).0
  unfolding on_notice media_wires build on_signal
  offer_sent from to sdp fresh a b can peer o =
      let payload : SessionDescriptionPayload = record {
        call_id = a.manager.current_call_id;
        type = "offer";
        sdp = sdp;
      } in
      addressed_to from to (sent_offer payload) b peer
      ∙ one_call from to (sent_offer payload) b can o

  pub answer_sent :
      (from to sdp fresh : String) (a b : Coordinator Engine)
      → let payload : SessionDescriptionPayload = record {
        call_id = a.manager.current_call_id;
        type = "answer";
        sdp = sdp;
      } in
        CanPass J from to (sent_answer payload)
        → a.current_peer_id ≡ to
        → b.signal_observed ≡ true
        → (take_all_media J P from to
            (media_wires J from (on_notice P fresh (answer_created sdp) a).1)
            b).0
          ≡ (process_answer P from payload b).0
  unfolding on_notice media_wires build on_signal
  answer_sent from to sdp fresh a b can peer o =
      let payload : SessionDescriptionPayload = record {
        call_id = a.manager.current_call_id;
        type = "answer";
        sdp = sdp;
      } in
      addressed_to from to (sent_answer payload) b peer
      ∙ one_call from to (sent_answer payload) b can o

  -- A candidate of one client reaches the engine of the other.
  pub candidate_sent :
      (from to mid : String) (index : ℤ) (candidate fresh : String) (a b : Coordinator Engine)
      → CanPass J from to (
          sent_candidate (record {
            call_id = a.manager.current_call_id;
            sdp_mid = mid;
            sdp_mline_index = index;
            candidate = candidate;
          }))
      → a.current_peer_id ≡ to
      → b.signal_observed ≡ true
      → a.manager.current_call_id ≡ b.manager.current_call_id
      → a.manager.current_call_id ≢ ""
      → b.current_peer_id ≡ from
      → mid ≢ ""
      → is_negative index ≡ false
      → candidate ≢ ""
      → (take_all_media J P from to
          (media_wires J from (on_notice P fresh (ice_candidate_generated mid index candidate) a).1)
          b).0
        ≡ record b { engine = add_ice_candidate mid index candidate b.engine }
  unfolding on_notice media_wires build on_signal
  candidate_sent from to mid index candidate fresh a b can peer o h n p m k l =
      let payload : IceCandidatePayload = record {
        call_id = a.manager.current_call_id;
        sdp_mid = mid;
        sdp_mline_index = index;
        candidate = candidate;
      } in
      addressed_to from to (sent_candidate payload) b peer
      ∙ one_call from to (sent_candidate payload) b can o
      ∙ ap (λ peer. (process_ice_candidate P peer payload b).0) (sym p)
      ∙ candidate_arrives payload b h n m k l
