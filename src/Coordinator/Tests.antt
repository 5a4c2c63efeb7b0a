-- ===== src/Coordinator/Tests.antt =====
-- The client at concrete inputs, over the engine on the sample media library
-- (src/call_coordinator.cc).
use webrtc_peerconnection_cl.Prelude.{
  ◌≡◌, ◌≢◌, inl, inr, refl, String, true, false, none, List, [], ◌∷◌, arith, eq_iff, pos,
}
use webrtc_peerconnection_cl.SignalTypes.{SessionDescriptionPayload, IceCandidatePayload}
use webrtc_peerconnection_cl.CallManager.{idle, connected}
use webrtc_peerconnection_cl.Watchdog.{fire, arm, new_watchdog}
use webrtc_peerconnection_cl.Ports.{EnginePort, disconnected}
use webrtc_peerconnection_cl.Engine.{State, has_peer_connection}
use webrtc_peerconnection_cl.Engine.Callbacks.{Callback}
use webrtc_peerconnection_cl.Engine.Port.{engine_port}
use webrtc_peerconnection_cl.Engine.Sample.{
  SampleConnection, sample_media, sample_files, sample_engine, open_engine,
}
use webrtc_peerconnection_cl.Coordinator.{start_call_task, hangup_task, ice_state_task, Coordinator}
use webrtc_peerconnection_cl.Coordinator.Control.{run_task}
use webrtc_peerconnection_cl.Coordinator.Signals.{
  request_call, response_call, process_offer, process_answer, process_ice_candidate,
}
use webrtc_peerconnection_cl.Coordinator.World.{
  Turn, user_posts, runs_task, request_timer_expires, signals, signal_client_becomes, shuts_down,
  initial, turn, turns,
}
use webrtc_peerconnection_cl.Coordinator.Invariant.{Safe}
use webrtc_peerconnection_cl.Coordinator.History.{turns-Safe}
use webrtc_peerconnection_cl.Ports.{answer_created, ice_candidate_generated}
use webrtc_peerconnection_cl.Coordinator.Control.{on_notice}
use webrtc_peerconnection_cl.Coordinator.{send_answer, send_ice_candidate}
use webrtc_peerconnection_cl.Coordinator.Routing.{stale_media_ignored, offer_redirects_media}
use webrtc_peerconnection_cl.Coordinator.Hangup.{lost_media_hangs_up}
use webrtc_peerconnection_cl.Coordinator.Quiet.{turns-quiet}

abbrev port : EnginePort
port = engine_port sample_media sample_files

abbrev Client : Type 0
Client = Coordinator (State sample_media)

abbrev fresh_id : String
fresh_id = "c1"

fresh_id_named : fresh_id ≢ ""
fresh_id_named = ground (arith, eq_iff fresh_id "")

abbrev TestTurn : Type 0
TestTurn = Turn (Callback SampleConnection)

-- A call is made, and accepted by the callee.
abbrev history : List TestTurn
history =
    signal_client_becomes true true
    ∷ user_posts fresh_id (start_call_task "bob")
    ∷ runs_task fresh_id
    ∷ signals (response_call "bob" "c1" true "")
    ∷ []

turns-Safe_example : Safe port (turns port history (initial port sample_engine)).0
turns-Safe_example =
    turns-Safe port sample_engine history (unfold has_peer_connection in refl)
      (tt, (fresh_id_named, (fresh_id_named, (tt, tt))))

-- A connected call with `bob`.
abbrev in_call : Client
in_call = record (initial port open_engine) {
  manager = record {
    has_transport = true;
    observer = true;
    call_state = connected;
    current_peer = "bob";
    current_call_id = "c1";
    is_caller = true;
    timer = none;
    timer_generation = 2;
  };
  current_peer_id = "bob";
  is_caller = true;
}

abbrev old_offer : SessionDescriptionPayload
old_offer = record { call_id = "c0"; type = "offer"; sdp = "v=0" }

abbrev old_candidate : IceCandidatePayload
old_candidate = record { call_id = ""; sdp_mid = "0"; sdp_mline_index = pos 0; candidate = "next" }

stale_media_ignored_example :
    ((process_offer port "bob" old_offer in_call).0 ≡ in_call)
    × ((process_answer port "bob" old_offer in_call).0 ≡ in_call)
    × ((process_ice_candidate port "bob" old_candidate in_call).0 ≡ in_call)
stale_media_ignored_example =
    stale_media_ignored port "bob" old_offer old_candidate in_call
      (inr (ground (arith, eq_iff old_offer.call_id in_call.manager.current_call_id))) (inl refl)

abbrev stranger : String
stranger = "eve"

abbrev new_offer : SessionDescriptionPayload
new_offer = record { call_id = "c1"; type = "offer"; sdp = "v=0" }

abbrev new_candidate : IceCandidatePayload
new_candidate = record {
  call_id = "c1";
  sdp_mid = "0";
  sdp_mline_index = pos 0;
  candidate = "next";
}

offer_redirects_media_example :
    let d = (process_offer port stranger new_offer in_call).0 in
    (d.engine ≡ (port.set_remote_offer "v=0" open_engine).0)
    × (d.manager ≡ in_call.manager)
    × ((on_notice port fresh_id (answer_created "v=1") d).1
        ≡ send_answer stranger (record { call_id = "c1"; type = "answer"; sdp = "v=1" }) ∷ [])
    × ((on_notice port fresh_id (ice_candidate_generated "0" (pos 0) "next") d).1
        ≡ send_ice_candidate stranger new_candidate ∷ [])
    × (process_answer port "bob" new_offer d ≡ (d, []))
    × (process_ice_candidate port "bob" new_candidate d ≡ (d, []))
offer_redirects_media_example =
    offer_redirects_media port stranger fresh_id "v=1" "0" "next" (pos 0) new_offer new_offer
      new_candidate in_call (unfold has_peer_connection in refl) refl fresh_id_named
      (ground (arith, eq_iff new_offer.sdp ""))
      (ground (arith, eq_iff stranger in_call.current_peer_id))

lost_media_hangs_up_example :
    let d = (run_task port "c2" (ice_state_task disconnected) in_call).0 in
    let r = (run_task port "c3" hangup_task d).0 in
    (fire d.watchdog ≡ true)
    × (r.manager.call_state ≡ idle)
    × (r.current_peer_id ≡ "")
    × (has_peer_connection sample_media r.engine ≡ false)
    × (r.watchdog.thread ≡ none)
lost_media_hangs_up_example =
    lost_media_hangs_up port "c2" "c3" disconnected in_call (inr (inl refl)) refl refl refl

abbrev watched : Client
watched = record in_call { watchdog = arm new_watchdog }

abbrev aftermath : List TestTurn
aftermath =
    user_posts fresh_id (start_call_task "bob")
    ∷ signals (request_call "eve" "c9")
    ∷ request_timer_expires
    ∷ []

abbrev morning : List TestTurn
morning = user_posts fresh_id (start_call_task "bob") ∷ signals (request_call "eve" "c8") ∷ []

turns-quiet_example :
    let c = (turns port morning (initial port sample_engine)).0 in
    (turns port aftermath (turn port shuts_down c).0).1 ≡ []
turns-quiet_example =
    turns-quiet port sample_engine morning aftermath (unfold has_peer_connection in refl)
      (fresh_id_named, (tt, tt)) (fresh_id_named, (tt, (tt, tt))) (tt, (tt, (tt, tt)))
