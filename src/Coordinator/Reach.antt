-- ===== src/Coordinator/Reach.antt =====
-- The callbacks of the signalling client and of the media library keep the invariant, and so does
-- every history of the client (src/call_coordinator.cc).
use webrtc_peerconnection_cl.Prelude.{
  ◌≡◌, ◌≢◌, refl, String, Bool, false, List, arith, Bool-cases, inl, inr, eq_iff, Act,
}
use webrtc_peerconnection_cl.SignalTypes.{
  IceServerConfig, SessionDescriptionPayload, IceCandidatePayload,
}
use webrtc_peerconnection_cl.CallManager.{
  Manager, idle, gets_request, gets_response, gets_cancel, gets_end, step,
}
use webrtc_peerconnection_cl.CallManager.Invariant as Calls
use webrtc_peerconnection_cl.Ports.{Report, EnginePort}
use webrtc_peerconnection_cl.Coordinator.{Coordinator}
use webrtc_peerconnection_cl.Coordinator.Frame.{on_reports-same}
use webrtc_peerconnection_cl.Coordinator.Signals.{
  SignalCall, connected_call, connection_error_call, user_offline_call, disconnected_call,
  ice_servers_call, client_list_call, request_call, response_call, cancel_call_call, end_call_call,
  offer_call, answer_call, ice_candidate_call, engine_call, on_ice_servers_received,
  on_user_offline, process_offer, process_answer, process_ice_candidate, on_signal, shut_down,
}
use webrtc_peerconnection_cl.Coordinator.Control.{
  on_connected, on_disconnected, on_connection_error, on_client_list_update,
}
use webrtc_peerconnection_cl.Coordinator.Invariant.{Inv, run_manager-Inv}
use webrtc_peerconnection_cl.Coordinator.Turns.{relabel-Inv, end_call-Inv, engine-Inv}

module _ (P : EnginePort) where
  open P use {
    Engine, has_peer_connection, set_observer, set_ice_servers, set_remote_offer, set_remote_answer,
    add_ice_candidate, callback, shutdown, set_ice_servers-has, set_remote_offer-has,
    set_remote_answer-has, add_ice_candidate-has, set_observer-has, shutdown-has,
  }

  pub engine_call-Inv :
      (act : Act Engine Report) (c : Coordinator Engine)
      → (has_peer_connection c.engine ≡ false → has_peer_connection (act c.engine).0 ≡ false)
      → Inv P c
      → Inv P (engine_call P act c).0
  unfolding engine_call
  engine_call-Inv act c h v =
      rw (on_reports-same (act c.engine).1 (record c { engine = (act c.engine).0 }))
        (engine-Inv P c (act c.engine).0 h v)

  -- An offer of the current call, whose peer may change.
  peer-Inv :
      (from : String) (b : Bool) (c : Coordinator Engine)
      → c.manager.call_state ≢ idle
      → c.shutdown_started ≡ false
      → Inv P c
      → Inv P (record c { current_peer_id = from; is_caller = b })
  peer-Inv from b c n s v = record {
    calls = v.calls;
    safe = record { idle_peer = λ i. absurd (n i); media = v.safe.media; watched = v.safe.watched };
    observed = v.observed;
    unsubscribed = v.unsubscribed;
    down_observer = v.down_observer;
    down_peer = λ d. absurd (cc (s, d));
  }

  process_offer-Inv :
      (from : String) (sdp : SessionDescriptionPayload) (c : Coordinator Engine)
      → c.shutdown_started ≡ false
      → Inv P c
      → Inv P (process_offer P from sdp c).0
  unfolding process_offer
  process_offer-Inv from sdp c s v = ground (
    arith,
    v.calls.idle_call,
    eq_iff sdp.call_id "",
    eq_iff sdp.call_id c.manager.current_call_id,
    λ (n : c.manager.call_state ≢ idle). peer-Inv from false c n s v,
    λ (n : c.manager.call_state ≢ idle).
        engine_call-Inv (set_remote_offer sdp.sdp)
          (record c { current_peer_id = from; is_caller = false })
          (set_remote_offer-has sdp.sdp c.engine) (peer-Inv from false c n s v),
  )

  process_answer-Inv :
      (from : String) (sdp : SessionDescriptionPayload) (c : Coordinator Engine)
      → Inv P c
      → Inv P (process_answer P from sdp c).0
  unfolding process_answer
  process_answer-Inv from sdp c v = ground (
    arith,
    engine_call-Inv (set_remote_answer sdp.sdp) c (set_remote_answer-has sdp.sdp c.engine) v,
  )

  process_ice_candidate-Inv :
      (from : String) (i : IceCandidatePayload) (c : Coordinator Engine)
      → Inv P c
      → Inv P (process_ice_candidate P from i c).0
  unfolding process_ice_candidate
  process_ice_candidate-Inv from i c v = ground (
    arith,
    engine-Inv P c (add_ice_candidate i.sdp_mid i.sdp_mline_index i.candidate c.engine)
        (add_ice_candidate-has i.sdp_mid i.sdp_mline_index i.candidate c.engine) v,
  )

  on_user_offline-Inv :
      (client_id : String) (c : Coordinator Engine)
      → c.shutdown_started ≡ false
      → Inv P c
      → Inv P (on_user_offline P client_id c).0
  unfolding on_user_offline
  on_user_offline-Inv client_id c s v = ground (arith, end_call-Inv P c s v)

  on_ice_servers_received-Inv :
      (servers : List IceServerConfig) (c : Coordinator Engine)
      → Inv P c
      → Inv P (on_ice_servers_received P servers c).0
  unfolding on_ice_servers_received
  on_ice_servers_received-Inv servers c v =
      let d = record c { engine = set_ice_servers servers c.engine } in
      let w =
        engine-Inv P c (set_ice_servers servers c.engine) (set_ice_servers-has servers c.engine)
          v in
      ground (
        arith,
        relabel-Inv P d (record d { ice_servers = servers }) refl refl refl refl refl refl w,
      )

  pub on_signal-Inv :
      (call : SignalCall) (c : Coordinator Engine)
      → c.shutdown_started ≡ false
      → Inv P c
      → Inv P (on_signal P call c).0
  unfolding on_signal step
  on_signal-Inv (connected_call client_id) c s v = unfold on_connected in ground arith
  on_signal-Inv disconnected_call c s v = unfold on_disconnected in ground arith
  on_signal-Inv (connection_error_call error) c s v = unfold on_connection_error in ground arith
  on_signal-Inv (ice_servers_call servers) c s v = on_ice_servers_received-Inv servers c v
  on_signal-Inv (client_list_call clients) c s v = unfold on_client_list_update in ground arith
  on_signal-Inv (user_offline_call client_id) c s v = on_user_offline-Inv client_id c s v
  on_signal-Inv (request_call from call_id) c s v =
      run_manager-Inv P (gets_request from call_id) c tt tt s v
  on_signal-Inv (response_call from call_id accepted reason) c s v =
      run_manager-Inv P (gets_response from call_id accepted reason) c tt tt s v
  on_signal-Inv (cancel_call_call from call_id reason) c s v =
      run_manager-Inv P (gets_cancel from call_id reason) c tt tt s v
  on_signal-Inv (end_call_call from call_id reason) c s v =
      run_manager-Inv P (gets_end from call_id reason) c tt tt s v
  on_signal-Inv (offer_call from sdp) c s v = process_offer-Inv from sdp c s v
  on_signal-Inv (answer_call from sdp) c s v = process_answer-Inv from sdp c v
  on_signal-Inv (ice_candidate_call from candidate) c s v =
      process_ice_candidate-Inv from candidate c v

  unobserved-Inv : (m : Manager) → Calls.Inv m → Calls.Inv (record m { observer = false })
  unobserved-Inv m v = ground arith

  -- The shutdown unregisters the observers first, and leaves the state of the call alone.
  pub shut_down-Inv : (c : Coordinator Engine) → Inv P c → Inv P (shut_down P c).0
  unfolding shut_down
  shut_down-Inv c v = elim (Bool-cases c.shutdown_started) [
    | inl y ↦ ground arith
    | inr n ↦
        let w =
          engine-Inv P c (shutdown (set_observer false c.engine))
            (λ h. shutdown-has _ (set_observer-has false c.engine h)) v in
        simp n (record {
          calls = unobserved-Inv c.manager v.calls;
          safe = record {
            idle_peer = λ _. refl;
            media = w.safe.media;
            watched = λ t. absurd (t refl);
          };
          observed = λ e. cc;
          unsubscribed = λ _. refl;
          down_observer = λ _. refl;
          down_peer = λ _. refl;
        })
  ]
