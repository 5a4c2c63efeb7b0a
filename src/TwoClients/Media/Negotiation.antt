-- ===== src/TwoClients/Media/Negotiation.antt =====
-- What one engine makes reaches the other one (src/call_coordinator.cc).
use webrtc_peerconnection_cl.Prelude.{
  ◌≡◌, ◌≢◌, refl, sym, ap, ◌∙◌, String, true, false, ℤ, is_negative,
}
use webrtc_peerconnection_cl.SignalTypes.{SessionDescriptionPayload}
use webrtc_peerconnection_cl.Json.{JsonLib, is_signed}
use webrtc_peerconnection_cl.Codec.RoundTrip.{Names}
use webrtc_peerconnection_cl.Ports.{
  Notice, EnginePort, offer_created, answer_created, ice_candidate_generated,
}
use webrtc_peerconnection_cl.Coordinator.{Coordinator}
use webrtc_peerconnection_cl.Coordinator.Control.{on_notice}
use webrtc_peerconnection_cl.Coordinator.Signals.{process_answer}
use webrtc_peerconnection_cl.Coordinator.Routing.{offer_from_anyone}
use webrtc_peerconnection_cl.TwoClients.Media.{media_wires, take_all_media}
use webrtc_peerconnection_cl.TwoClients.Media.Delivery.{
  offer_sent, answer_sent, candidate_sent, answer_arrives,
}

module _ (J : JsonLib) (P : EnginePort) where
  open P use {Engine, has_peer_connection, set_remote_offer, set_remote_answer, add_ice_candidate}

  -- The answer, and the candidates after it, once the callee's peer is the caller.
  answered_then :
      (alice bob answered fresh : String) (e : Engine) (a b : Coordinator Engine) (mid : String)
      (index : ℤ) (candidate : String)
      → (alice ≢ "") × (bob ≢ "") × Names J alice bob
      → J.is_utf8 b.manager.current_call_id ≡ true
      → (J.is_utf8 answered ≡ true) × (J.is_utf8 mid ≡ true) × (J.is_utf8 candidate ≡ true)
      → is_signed 32 index ≡ true
      → (a.signal_observed ≡ true) × (b.signal_observed ≡ true)
      → a.current_peer_id ≡ bob
      → b.current_peer_id ≡ alice
      → b.manager.current_call_id ≡ a.manager.current_call_id
      → b.manager.current_call_id ≢ ""
      → (answered ≢ "") × (mid ≢ "") × (candidate ≢ "")
      → is_negative index ≡ false
      → let found = ice_candidate_generated mid index candidate in
        let a1 =
          (take_all_media J P bob alice
            (media_wires J bob (on_notice P fresh (answer_created answered) b).1)
            (record a { engine = e })).0 in
        (a1 ≡ record a { engine = (set_remote_answer answered e).0 })
        × ((take_all_media J P alice bob (media_wires J alice (on_notice P fresh found a1).1) b).0
            ≡ record b { engine = add_ice_candidate mid index candidate b.engine })
        × ((take_all_media J P bob alice (media_wires J bob (on_notice P fresh found b).1) a1).0
            ≡ record a1 { engine = add_ice_candidate mid index candidate a1.engine })
  answered_then alice bob answered fresh e a b mid index candidate names id_text plain small o peer
        back same n texts k =
      let a0 = record a { engine = e } in
      let payload : SessionDescriptionPayload = record {
        call_id = b.manager.current_call_id;
        type = "answer";
        sdp = answered;
      } in
      let a1 =
        (take_all_media J P bob alice
          (media_wires J bob (on_notice P fresh (answer_created answered) b).1) a0).0 in
      let arrived : a1 ≡ record a { engine = (set_remote_answer answered e).0 } =
        answer_sent J P bob alice answered fresh b a0
          (
            names.1,
            names.0,
            (names.2.1, names.2.0),
            (id_text, J.is_utf8-ascii "answer" refl, plain.0),
          )
          back o.0
        ∙ ap (λ from. (process_answer P from payload a0).0) (sym peer)
        ∙ answer_arrives J P payload a0 same n texts.0 in
      let id : a1.manager.current_call_id ≡ b.manager.current_call_id =
        ap (λ c. c.manager.current_call_id) arrived ∙ sym same in
      (
        arrived,
        candidate_sent J P alice bob mid index candidate fresh a1 b
            (names.0, names.1, names.2, (ap J.is_utf8 id ∙ id_text, plain.1, small, plain.2))
            (ap (λ c. c.current_peer_id) arrived ∙ peer) o.1 id (λ z. n (sym id ∙ z)) back texts.1 k
            texts.2,
        candidate_sent J P bob alice mid index candidate fresh b a1
            (names.1, names.0, (names.2.1, names.2.0), (id_text, plain.1, small, plain.2)) back
            (ap (λ c. c.signal_observed) arrived ∙ o.0) (sym id) n
            (ap (λ c. c.current_peer_id) arrived ∙ peer) texts.1 k texts.2,
      )

  -- Two named clients in one call, whose identifier is not empty, observe their signalling clients; the
  -- caller sends its media to the callee, which has a peer connection. The server passes each
  -- message on to its addressee alone. Then the offer that the
  -- caller's engine makes is handed to the callee's engine, and the caller becomes the peer to
  -- which the callee sends; the answer that the callee's engine makes is handed to the caller's
  -- engine, whatever has become of that engine by then; and after that each candidate that either
  -- engine finds is handed to the other one. Nothing else of the two clients changes. The
  -- descriptions and the candidates are not empty, nor are the candidates' media identifiers; these
  -- texts, the names and the call's identifier are UTF-8, and the line indexes are numbers of 32
  -- bits that are not negative.
  pub negotiated :
      (alice bob offered answered fresh : String) (e : Engine) (a b : Coordinator Engine)
      (mid : String) (index : ℤ) (candidate : String)
      → (alice ≢ "") × (bob ≢ "") × Names J alice bob
      → J.is_utf8 a.manager.current_call_id ≡ true
      → (J.is_utf8 offered ≡ true)
        × (J.is_utf8 answered ≡ true)
        × (J.is_utf8 mid ≡ true)
        × (J.is_utf8 candidate ≡ true)
      → is_signed 32 index ≡ true
      → (a.signal_observed ≡ true) × (b.signal_observed ≡ true)
      → has_peer_connection b.engine ≡ true
      → a.current_peer_id ≡ bob
      → a.manager.current_call_id ≡ b.manager.current_call_id
      → a.manager.current_call_id ≢ ""
      → (offered ≢ "") × (answered ≢ "") × (mid ≢ "") × (candidate ≢ "")
      → is_negative index ≡ false
      → let to_b = λ (notice : Notice) (c d : Coordinator Engine).
        (take_all_media J P alice bob (media_wires J alice (on_notice P fresh notice c).1) d).0 in
        let to_a = λ (notice : Notice) (c d : Coordinator Engine).
          (take_all_media J P bob alice (media_wires J bob (on_notice P fresh notice c).1) d).0 in
        let found = ice_candidate_generated mid index candidate in
        let b1 = to_b (offer_created offered) a b in
        let a0 = record a { engine = e } in
        let a1 = to_a (answer_created answered) b1 a0 in
        (b1 ≡ record b {
          engine = (set_remote_offer offered b.engine).0;
          current_peer_id = alice;
          is_caller = false;
        })
        × (a1 ≡ record a { engine = (set_remote_answer answered e).0 })
        × (to_b found a1 b1
            ≡ record b1 { engine = add_ice_candidate mid index candidate b1.engine })
        × (to_a found b1 a1
            ≡ record a1 { engine = add_ice_candidate mid index candidate a1.engine })
  negotiated alice bob offered answered fresh e a b mid index candidate names id_text plain small o
        has peer same n texts k =
      let payload : SessionDescriptionPayload = record {
        call_id = a.manager.current_call_id;
        type = "offer";
        sdp = offered;
      } in
      let b1 =
        (take_all_media J P alice bob
          (media_wires J alice (on_notice P fresh (offer_created offered) a).1) b).0 in
      let arrived =
        offer_sent J P alice bob offered fresh a b
          (names.0, names.1, names.2, (id_text, J.is_utf8-ascii "offer" refl, plain.0)) peer o.1
        ∙ offer_from_anyone P alice payload b has same n texts.0 in
      let id = ap (λ c. c.manager.current_call_id) arrived ∙ sym same in
      let rest =
        answered_then alice bob answered fresh e a b1 mid index candidate names
          (ap J.is_utf8 id ∙ id_text) (plain.1, plain.2, plain.3) small
          (o.0, ap (λ c. c.signal_observed) arrived ∙ o.1) peer
          (ap (λ c. c.current_peer_id) arrived) id (λ z. n (sym id ∙ z)) (texts.1, texts.2, texts.3)
          k in
      (arrived, rest.0, rest.1, rest.2)
