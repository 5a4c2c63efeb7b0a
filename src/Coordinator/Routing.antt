-- ===== src/Coordinator/Routing.antt =====
-- Which session descriptions and candidates reach the engine (src/call_coordinator.cc).
use webrtc_peerconnection_cl.Prelude.{
  ◌≡◌, ◌≢◌, ◌⊎◌, Act, String, ℤ, refl, sym, ap, ◌∙◌, true, false, [], ◌∷◌, arith, eq_iff,
  is_negative,
}
use webrtc_peerconnection_cl.SignalTypes.{SessionDescriptionPayload, IceCandidatePayload}
use webrtc_peerconnection_cl.Ports.{Report, EnginePort, answer_created, ice_candidate_generated}
use webrtc_peerconnection_cl.Coordinator.Handlers.{on_answer_created, on_ice_candidate_generated}
use webrtc_peerconnection_cl.Coordinator.Control.{on_notice}
use webrtc_peerconnection_cl.Coordinator.{Coordinator, send_answer, send_ice_candidate}
use webrtc_peerconnection_cl.Coordinator.Frame.{on_reports-same}
use webrtc_peerconnection_cl.Coordinator.Signals.{
  engine_call, process_offer, process_answer, process_ice_candidate,
}

module _ (P : EnginePort) where
  open P use {Engine, has_peer_connection, set_remote_offer, set_remote_answer, add_ice_candidate}

  -- An offer, an answer and a candidate that carry no call identifier or another one than the
  -- current call's leave the client as it is: they reach neither the engine nor the current peer.
  pub stale_media_ignored :
      (from : String) (sdp : SessionDescriptionPayload) (i : IceCandidatePayload)
      (c : Coordinator Engine)
      → (sdp.call_id ≡ "") ⊎ (sdp.call_id ≢ c.manager.current_call_id)
      → (i.call_id ≡ "") ⊎ (i.call_id ≢ c.manager.current_call_id)
      → ((process_offer P from sdp c).0 ≡ c)
        × ((process_answer P from sdp c).0 ≡ c)
        × ((process_ice_candidate P from i c).0 ≡ c)
  unfolding process_offer process_answer process_ice_candidate
  stale_media_ignored from sdp i c h k = (
    ground (arith, eq_iff sdp.call_id "", eq_iff sdp.call_id c.manager.current_call_id),
    ground (arith, eq_iff sdp.call_id "", eq_iff sdp.call_id c.manager.current_call_id),
    ground (arith, eq_iff i.call_id "", eq_iff i.call_id c.manager.current_call_id),
  )

  -- An answer and a candidate from another peer than the current one are dropped in silence.
  pub foreign_media_ignored :
      (from : String) (sdp : SessionDescriptionPayload) (i : IceCandidatePayload)
      (c : Coordinator Engine)
      → from ≢ c.current_peer_id
      → (process_answer P from sdp c ≡ (c, [])) × (process_ice_candidate P from i c ≡ (c, []))
  unfolding process_answer process_ice_candidate
  foreign_media_ignored from sdp i c n =
      (ground (arith, eq_iff from c.current_peer_id), ground (arith, eq_iff from c.current_peer_id))

  pub engine_call-same :
      (act : Act Engine Report) (c : Coordinator Engine)
      → (engine_call P act c).0 ≡ record c { engine = (act c.engine).0 }
  unfolding engine_call
  engine_call-same act c = on_reports-same (act c.engine).1 (record c { engine = (act c.engine).0 })

  -- With a peer connection, an offer of the current call reaches the engine.
  pub offer_from_anyone :
      (from : String) (sdp : SessionDescriptionPayload) (c : Coordinator Engine)
      → has_peer_connection c.engine ≡ true
      → sdp.call_id ≡ c.manager.current_call_id
      → sdp.call_id ≢ ""
      → sdp.sdp ≢ ""
      → (process_offer P from sdp c).0 ≡ record c {
        engine = (set_remote_offer sdp.sdp c.engine).0;
        current_peer_id = from;
        is_caller = false;
      }
  unfolding process_offer
  offer_from_anyone from sdp c h e n m = ground (
    arith,
    eq_iff sdp.call_id "",
    eq_iff sdp.sdp "",
    eq_iff sdp.call_id c.manager.current_call_id,
    engine_call-same (set_remote_offer sdp.sdp)
        (record c { current_peer_id = from; is_caller = false }),
  )

  -- With a peer connection, an offer with a text that carries the identifier of the current call,
  -- which is not empty, is taken from any sender, whatever peer the call manager talks to, which
  -- stays as it is. The offer is handed to the engine, and the sender takes the place of the current
  -- peer, where it is another one: the answer and the candidates that the engine makes next are sent
  -- to it, under the identifier of the call, and answers and candidates of the peer that it replaced
  -- are dropped in silence.
  pub offer_redirects_media :
      (from fresh answer mid text : String) (index : ℤ) (sdp late : SessionDescriptionPayload)
      (i : IceCandidatePayload) (c : Coordinator Engine)
      → has_peer_connection c.engine ≡ true
      → sdp.call_id ≡ c.manager.current_call_id
      → sdp.call_id ≢ ""
      → sdp.sdp ≢ ""
      → from ≢ c.current_peer_id
      → let d = (process_offer P from sdp c).0 in
        (d.engine ≡ (set_remote_offer sdp.sdp c.engine).0)
        × (d.manager ≡ c.manager)
        × ((on_notice P fresh (answer_created answer) d).1
            ≡ send_answer from
                (record { call_id = c.manager.current_call_id; type = "answer"; sdp = answer })
              ∷ [])
        × ((on_notice P fresh (ice_candidate_generated mid index text) d).1
            ≡ send_ice_candidate from (record {
              call_id = c.manager.current_call_id;
              sdp_mid = mid;
              sdp_mline_index = index;
              candidate = text;
            })
              ∷ [])
        × (process_answer P c.current_peer_id late d ≡ (d, []))
        × (process_ice_candidate P c.current_peer_id i d ≡ (d, []))
  unfolding on_notice on_answer_created on_ice_candidate_generated
  offer_redirects_media from fresh answer mid text index sdp late i c h e n m other =
      let d = (process_offer P from sdp c).0 in
      let taken = offer_from_anyone from sdp c h e n m in
      let peer : d.current_peer_id ≡ from = ap (λ x. x.current_peer_id) taken in
      let manager : d.manager ≡ c.manager = ap (λ x. x.manager) taken in
      let dropped =
        foreign_media_ignored c.current_peer_id late i d (λ same. other (sym (same ∙ peer))) in
      (
        ap (λ x. x.engine) taken,
        manager,
        rw (peer, manager) refl,
        rw (peer, manager) refl,
        dropped.0,
        dropped.1,
      )

  -- A candidate from the current peer that carries the identifier of the current call, which
  -- is not empty, is added to the engine exactly as it came if its media id and its text are
  -- there and its index is not negative, and otherwise changes nothing.
  pub candidate_checked :
      (i : IceCandidatePayload) (c : Coordinator Engine)
      → i.call_id ≡ c.manager.current_call_id
      → i.call_id ≢ ""
      → let r = (process_ice_candidate P c.current_peer_id i c).0 in
        ((i.sdp_mid ≢ "")
          × (i.candidate ≢ "")
          × (is_negative i.sdp_mline_index ≡ false)
          × (r ≡ record c {
            engine = add_ice_candidate i.sdp_mid i.sdp_mline_index i.candidate c.engine;
          }))
        ⊎ (((i.sdp_mid ≡ "") ⊎ (i.candidate ≡ "") ⊎ (is_negative i.sdp_mline_index ≡ true))
            × (r ≡ c))
  unfolding process_ice_candidate
  candidate_checked i c e n = ground (
    arith,
    eq_iff c.current_peer_id c.current_peer_id,
    eq_iff i.call_id "",
    eq_iff i.call_id c.manager.current_call_id,
    eq_iff i.sdp_mid "",
    eq_iff i.candidate "",
  )
