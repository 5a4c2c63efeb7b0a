-- ===== src/Coordinator/Signals.antt =====
-- src/call_coordinator.cc: the callbacks of the signalling client that concern calls and media,
-- `Shutdown`, and one step of the whole client in any order of events.
use webrtc_peerconnection_cl.Prelude.{
  String, Bool, true, false, not, ◌&&◌, ◌||◌, List, [], ◌∷◌, if◌then◌else◌, Act, skip, str_eq, emit,
  when, modify, ◌⨾◌, is_negative, to_string, text_append, length,
}
use webrtc_peerconnection_cl.SignalTypes.{
  ClientInfo, IceServerConfig, SessionDescriptionPayload, IceCandidatePayload,
}
use webrtc_peerconnection_cl.CallManager.{
  connected, is_state, is_empty, end_call, handle_call_request, handle_call_response,
  handle_call_cancel, handle_call_end,
}
use webrtc_peerconnection_cl.Ports.{Notice, Report, EnginePort}
use webrtc_peerconnection_cl.Coordinator.{log_message, disconnect_signal, CoordinatorAct, to_ui}
use webrtc_peerconnection_cl.Coordinator.Handlers.{
  stop_ice_disconnect_watchdog, on_reports, run_manager,
}
use webrtc_peerconnection_cl.Coordinator.Control.{
  on_connected, on_disconnected, on_connection_error, on_client_list_update, run_task, on_notice,
}

-- The calls on `SignalClientObserver`.
pub data SignalCall : Type 0 where
  connected_call connection_error_call user_offline_call : String → SignalCall
  disconnected_call : SignalCall
  ice_servers_call : List IceServerConfig → SignalCall
  client_list_call : List ClientInfo → SignalCall
  request_call : String → String → SignalCall
  response_call : String → String → Bool → String → SignalCall
  cancel_call_call end_call_call : String → String → String → SignalCall
  offer_call answer_call : String → SessionDescriptionPayload → SignalCall
  ice_candidate_call : String → IceCandidatePayload → SignalCall

module _ (P : EnginePort) where
  open P use {
    Engine, Callback, has_peer_connection, set_observer, set_ice_servers, set_remote_offer,
    set_remote_answer, add_ice_candidate, callback, shutdown,
  }

  unfoldable pub on_ice_servers_received : List IceServerConfig → CoordinatorAct Engine
  on_ice_servers_received servers c =
      to_ui
        (log_message
          (text_append "Received "
            (text_append (to_string (length servers)) " ICE server configuration entries"))
          "info")
        (record c { ice_servers = servers; engine = set_ice_servers servers c.engine })

  unfoldable pub on_user_offline : String → CoordinatorAct Engine
  on_user_offline client_id c =
      if not (str_eq client_id c.current_peer_id)
      then (c, [])
      else if is_state c.manager.call_state connected
      then to_ui
          (log_message "Peer went offline on signaling server, but media session is kept alive."
            "warning")
          c
      else run_manager P end_call c

  -- An engine call that reports at once.
  unfoldable pub engine_call : Act Engine Report → CoordinatorAct Engine
  unfolding on_reports
  engine_call act c =
      let (e, reports) = act c.engine in on_reports reports (record c { engine = e })

  unfoldable pub process_offer : String → SessionDescriptionPayload → CoordinatorAct Engine
  unfolding engine_call
  process_offer from sdp c =
      if not (has_peer_connection c.engine)
      then to_ui (log_message "Received offer before peer connection was created" "error") c
      else if is_empty sdp.call_id || not (str_eq sdp.call_id c.manager.current_call_id)
      then to_ui (log_message "Ignored stale offer for previous call" "warning") c
      else (if is_empty sdp.sdp
            then to_ui (log_message "Offer payload did not contain SDP text" "error")
            else engine_call (set_remote_offer sdp.sdp))
          (record c { current_peer_id = from; is_caller = false })

  unfoldable pub process_answer : String → SessionDescriptionPayload → CoordinatorAct Engine
  unfolding engine_call
  process_answer from sdp c =
      let other_call = not (str_eq sdp.call_id c.manager.current_call_id) in
      let same_peer = str_eq from c.current_peer_id in
      if not same_peer || is_empty sdp.sdp || is_empty sdp.call_id || other_call
      then when (same_peer && not (is_empty sdp.call_id) && other_call)
          (to_ui (log_message "Ignored stale answer for previous call" "warning")) c
      else engine_call (set_remote_answer sdp.sdp) c

  unfoldable pub process_ice_candidate : String → IceCandidatePayload → CoordinatorAct Engine
  process_ice_candidate from candidate c =
      let other_call = not (str_eq candidate.call_id c.manager.current_call_id) in
      let same_peer = str_eq from c.current_peer_id in
      if not same_peer || is_empty candidate.call_id || other_call
      then when (same_peer && not (is_empty candidate.call_id) && other_call)
          (to_ui (log_message "Ignored stale ICE candidate for previous call" "warning")) c
      else if is_empty candidate.sdp_mid
          || is_negative candidate.sdp_mline_index
          || is_empty candidate.candidate
      then to_ui (log_message "Discarded malformed ICE candidate" "error") c
      else (
        record c {
          engine =
              add_ice_candidate candidate.sdp_mid candidate.sdp_mline_index candidate.candidate
                c.engine;
        },
        [],
      )

  -- Each callback of the signalling client.
  unfoldable pub on_signal : SignalCall → CoordinatorAct Engine
  unfolding on_connected on_disconnected on_connection_error on_client_list_update
      on_ice_servers_received on_user_offline process_offer process_answer process_ice_candidate
  on_signal (connected_call client_id) c = on_connected client_id c
  on_signal disconnected_call c = on_disconnected c
  on_signal (connection_error_call error) c = on_connection_error error c
  on_signal (ice_servers_call servers) c = on_ice_servers_received servers c
  on_signal (client_list_call clients) c = on_client_list_update clients c
  on_signal (user_offline_call client_id) c = on_user_offline client_id c
  on_signal (request_call from call_id) c = run_manager P (handle_call_request from call_id) c
  on_signal (response_call from call_id accepted reason) c =
      run_manager P (handle_call_response from call_id accepted reason) c
  on_signal (cancel_call_call from call_id reason) c =
      run_manager P (handle_call_cancel from call_id reason) c
  on_signal (end_call_call from call_id reason) c =
      run_manager P (handle_call_end from call_id reason) c
  on_signal (offer_call from sdp) c = process_offer from sdp c
  on_signal (answer_call from sdp) c = process_answer from sdp c
  on_signal (ice_candidate_call from candidate) c = process_ice_candidate from candidate c

  unfoldable pub shut_down : CoordinatorAct Engine
  unfolding stop_ice_disconnect_watchdog
  shut_down c =
      if c.shutdown_started
      then (c, [])
      else (stop_ice_disconnect_watchdog
            ⨾ modify (λ d. record d {
              ui = false;
              manager = record d.manager { observer = false };
              signal_observed = false;
              engine = shutdown (set_observer false d.engine);
              current_peer_id = "";
            })
            ⨾ emit disconnect_signal)
          (record c { shutdown_started = true })

  unfoldable pub on_notices : String → List Notice → CoordinatorAct Engine
  unfolding on_notice
  on_notices fresh [] = skip
  on_notices fresh (n ∷ ns) = on_notice P fresh n ⨾ on_notices fresh ns

  -- The oldest posted task leaves the queue and runs.
  unfoldable pub run_next_task : String → CoordinatorAct Engine
  unfolding run_task
  run_next_task fresh c = elim c.tasks [
    | [] ↦ (c, [])
    | task ∷ rest ↦ run_task P fresh task (record c { tasks = rest })
  ]
