-- ===== src/TwoClients/Tests.antt =====
-- A call between two clients over the small JSON library.
use webrtc_peerconnection_cl.Prelude.{
  ◌≡◌, ◌≢◌, refl, String, Bool, true, false, [], ◌∷◌, arith, eq_iff, pos,
}
use webrtc_peerconnection_cl.CallManager.{
  idle, connecting, Manager, new_manager, call_state_changed, call_accepted, call_ended,
  need_create_peer_connection, need_close_peer_connection, send_call_response,
}
use webrtc_peerconnection_cl.Codec.Sample.{sample_json}
use webrtc_peerconnection_cl.Ports.{
  EnginePort, Notice, offer_created, answer_created, ice_candidate_generated,
}
use webrtc_peerconnection_cl.Coordinator.{Coordinator}
use webrtc_peerconnection_cl.Coordinator.Control.{on_notice}
use webrtc_peerconnection_cl.Coordinator.World.{initial}
use webrtc_peerconnection_cl.Engine.{State, has_peer_connection}
use webrtc_peerconnection_cl.Engine.Port.{engine_port}
use webrtc_peerconnection_cl.Engine.Sample.{sample_media, sample_files, open_engine}
use webrtc_peerconnection_cl.TwoClients.Media.{media_wires, take_all_media}
use webrtc_peerconnection_cl.TwoClients.Media.Negotiation.{negotiated}
use webrtc_peerconnection_cl.TwoClients.{set_up, hang_up}
use webrtc_peerconnection_cl.TwoClients.Setup.{InCall}
use webrtc_peerconnection_cl.TwoClients.Agreement.{call_agreed}

abbrev ready : Manager
ready = record new_manager { has_transport = true; observer = true }

abbrev alice : String
alice = "alice"

abbrev bob : String
bob = "bob"

abbrev fresh_id : String
fresh_id = "c1"

call_agreed_example :
    let r = set_up sample_json (pos 0) alice bob fresh_id ready ready in
    let by_caller = hang_up sample_json (pos 0) alice bob r.0.0 r.1.0 in
    let by_callee = hang_up sample_json (pos 0) bob alice r.1.0 r.0.0 in
    InCall connecting bob fresh_id true r.0.0
    × InCall connecting alice fresh_id false r.1.0
    × (r.0.1
        ≡ call_state_changed connecting bob
          ∷ call_accepted bob
          ∷ need_create_peer_connection bob true
          ∷ [])
    × (r.1.1
        ≡ send_call_response alice fresh_id true ""
          ∷ call_state_changed connecting alice
          ∷ need_create_peer_connection alice false
          ∷ [])
    × (by_caller.0.0.call_state ≡ idle)
    × (by_caller.1.0.call_state ≡ idle)
    × (by_caller.1.1
        ≡ call_ended alice "hangup" ∷ need_close_peer_connection ∷ call_state_changed idle "" ∷ [])
    × (by_callee.0.0.call_state ≡ idle)
    × (by_callee.1.0.call_state ≡ idle)
    × (by_callee.1.1
        ≡ call_ended bob "hangup" ∷ need_close_peer_connection ∷ call_state_changed idle "" ∷ [])
call_agreed_example =
    call_agreed sample_json (pos 0) alice bob fresh_id ready ready
      (ground (arith, eq_iff fresh_id "")) (ground (arith, eq_iff alice ""))
      (ground (arith, eq_iff bob "")) (refl, refl) refl refl (refl, refl, refl) (refl, refl, refl)

abbrev port : EnginePort
port = engine_port sample_media sample_files

abbrev Client : Type 0
Client = Coordinator (State sample_media)

-- A client in the call, which is being connected.
abbrev in_call : String → Bool → Client
in_call peer is_caller = record (initial port open_engine) {
  manager = record ready {
    call_state = connecting;
    current_peer = peer;
    current_call_id = "c1";
    is_caller = is_caller;
  };
  current_peer_id = peer;
  is_caller = is_caller;
  signal_observed = true;
}

abbrev sdp_text : String
sdp_text = "v=0"

negotiated_example :
    let a = in_call bob true in
    let b = in_call alice false in
    let to_b = λ (notice : Notice) (c d : Client).
      (take_all_media sample_json port alice bob
        (media_wires sample_json alice (on_notice port fresh_id notice c).1)
        d).0 in
    let to_a = λ (notice : Notice) (c d : Client).
      (take_all_media sample_json port bob alice
        (media_wires sample_json bob (on_notice port fresh_id notice c).1)
        d).0 in
    let found = ice_candidate_generated "0" (pos 0) sdp_text in
    let b1 = to_b (offer_created sdp_text) a b in
    let a0 = record a { engine = open_engine } in
    let a1 = to_a (answer_created sdp_text) b1 a0 in
    (b1 ≡ record b {
      engine = (port.set_remote_offer sdp_text b.engine).0;
      current_peer_id = alice;
      is_caller = false;
    })
    × (a1 ≡ record a { engine = (port.set_remote_answer sdp_text open_engine).0 })
    × (to_b found a1 b1
        ≡ record b1 { engine = port.add_ice_candidate "0" (pos 0) sdp_text b1.engine })
    × (to_a found b1 a1
        ≡ record a1 { engine = port.add_ice_candidate "0" (pos 0) sdp_text a1.engine })
negotiated_example =
    let named : sdp_text ≢ "" = ground (arith, eq_iff sdp_text "") in
    let zero_text : String = "0" in
    let media_named : zero_text ≢ "" = ground (arith, eq_iff zero_text "") in
    negotiated sample_json port alice bob sdp_text sdp_text fresh_id open_engine (in_call bob true)
      (in_call alice false) "0" (pos 0) sdp_text
      (ground (arith, eq_iff alice ""), ground (arith, eq_iff bob ""), (refl, refl)) refl
      (refl, refl, refl, refl) refl (refl, refl) (unfold has_peer_connection in refl) refl refl
      (ground (arith, eq_iff fresh_id "")) (named, named, media_named, named) refl
