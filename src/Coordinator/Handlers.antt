-- ===== src/Coordinator/Handlers.antt =====
-- src/call_coordinator.cc: the callbacks of the engine and of the call manager. They do not call
-- the call manager back, so its calls are delivered in order when its operation has returned.
use webrtc_peerconnection_cl.Prelude.{
  String, Bool, not, List, [], ◌∷◌, if◌then◌else◌, ℤ, Act, skip, emit, when, modify, ◌⨾◌,
  text_append,
}
use webrtc_peerconnection_cl.CallManager.{
  CallState, idle, connected, is_state, Effect, send_call_request, send_call_response,
  send_call_cancel, send_call_end, call_state_changed, incoming_call, call_accepted, call_rejected,
  call_cancelled, call_ended, call_timeout, need_create_peer_connection, need_close_peer_connection,
  Manager,
}
use webrtc_peerconnection_cl.Watchdog.{disarm}
use webrtc_peerconnection_cl.Ports.{local_video_track_added, engine_error, Report, EnginePort}
use webrtc_peerconnection_cl.Coordinator.{
  start_local_renderer, stop_local_renderer, stop_remote_renderer, log_message, show_error,
  ui_call_state_changed, ui_incoming_call, transport, send_offer, send_answer, send_ice_candidate,
  CoordinatorAct, to_ui,
}

module _ {Engine : Type 0} where
  unfoldable pub stop_ice_disconnect_watchdog : CoordinatorAct Engine
  stop_ice_disconnect_watchdog c = (record c { watchdog = disarm c.watchdog }, [])

  -- `OnLocalVideoTrackAdded`, `OnError`
  unfoldable pub on_report : Report → CoordinatorAct Engine
  on_report local_video_track_added c = to_ui start_local_renderer c
  on_report (engine_error error) c = to_ui (show_error "WebRTC Error" error) c

  unfoldable pub on_reports : List Report → CoordinatorAct Engine
  unfolding on_report
  on_reports [] = skip
  on_reports (r ∷ rs) = on_report r ⨾ on_reports rs

  unfoldable pub on_offer_created : String → CoordinatorAct Engine
  on_offer_created sdp c =
      emit
        (send_offer c.current_peer_id
          (record { call_id = c.manager.current_call_id; type = "offer"; sdp = sdp }))
        c

  unfoldable pub on_answer_created : String → CoordinatorAct Engine
  on_answer_created sdp c =
      emit
        (send_answer c.current_peer_id
          (record { call_id = c.manager.current_call_id; type = "answer"; sdp = sdp }))
        c

  unfoldable pub on_ice_candidate_generated : String → ℤ → String → CoordinatorAct Engine
  on_ice_candidate_generated mid index candidate c =
      emit
        (send_ice_candidate c.current_peer_id (record {
          call_id = c.manager.current_call_id;
          sdp_mid = mid;
          sdp_mline_index = index;
          candidate = candidate;
        }))
        c

  unfoldable pub on_call_state_changed : CallState → String → CoordinatorAct Engine
  unfolding stop_ice_disconnect_watchdog
  on_call_state_changed state peer_id c =
      (when (not (is_state state connected)) stop_ice_disconnect_watchdog
          ⨾ to_ui (ui_call_state_changed state peer_id))
        (record c { current_peer_id = if is_state state idle then "" else c.current_peer_id })

  -- The two calls with which the interface drops its video.
  abbrev pub stop_renderers : CoordinatorAct Engine
  stop_renderers = to_ui stop_local_renderer ⨾ to_ui stop_remote_renderer

  -- `OnCallEnded`
  unfoldable pub on_call_ended : String → String → CoordinatorAct Engine
  on_call_ended peer_id reason = to_ui (
      log_message (text_append "Call ended with " (text_append peer_id (text_append ": " reason)))
        "info")

module _ (P : EnginePort) where
  open P use {
    Engine, has_peer_connection, create_peer_connection, close_peer_connection, add_tracks,
    create_offer,
  }

  unfoldable pub close_engine : CoordinatorAct Engine
  close_engine c = (record c { engine = close_peer_connection c.engine }, [])

  -- `OnCallRejected`, `OnCallCancelled` and `OnCallTimeout` have one body, less the log line.
  unfoldable pub drop_media : CoordinatorAct Engine
  unfolding close_engine
  drop_media = stop_renderers ⨾ close_engine

  unfoldable pub on_need_close_peer_connection : CoordinatorAct Engine
  unfolding drop_media stop_ice_disconnect_watchdog
  on_need_close_peer_connection = stop_ice_disconnect_watchdog ⨾ drop_media

  -- After a peer connection was created: the tracks, and the offer of a caller.
  unfoldable pub attach_tracks : Bool → CoordinatorAct Engine
  unfolding on_reports close_engine
  attach_tracks is_caller c =
      let (ok, (e, reports)) = add_tracks c.engine in
      (on_reports reports
          ⨾ (if ok
              then when is_caller (λ d. (record d { engine = create_offer d.engine }, []))
              else (to_ui (show_error "Error" "Failed to attach local media tracks")
                  ⨾ close_engine)))
        (record c { engine = e })

  unfoldable pub open_peer_connection : Bool → CoordinatorAct Engine
  unfolding attach_tracks on_reports
  open_peer_connection is_caller c =
      let (ok, (e, reports)) = create_peer_connection c.engine in
      (on_reports reports
          ⨾ (if ok
              then attach_tracks is_caller
              else to_ui (show_error "Error" "Failed to create peer connection")))
        (record c { engine = e })

  unfoldable pub on_need_create_peer_connection : String → Bool → CoordinatorAct Engine
  unfolding open_peer_connection stop_ice_disconnect_watchdog
  on_need_create_peer_connection peer_id is_caller =
      stop_ice_disconnect_watchdog
      ⨾ modify (λ c. record c { current_peer_id = peer_id; is_caller = is_caller })
      ⨾ λ c. when (not (has_peer_connection c.engine)) (open_peer_connection is_caller) c

  -- A call that the call manager made, on the transport or on its observer.
  unfoldable pub deliver : Effect → CoordinatorAct Engine
  unfolding on_call_state_changed on_call_ended
  deliver (call_state_changed state peer_id) = on_call_state_changed state peer_id
  deliver (incoming_call caller_id) = to_ui (ui_incoming_call caller_id)
  deliver (call_accepted peer_id) = skip
  deliver (call_rejected peer_id reason) = drop_media
  deliver (call_cancelled peer_id reason) = drop_media
  deliver (call_ended peer_id reason) = on_call_ended peer_id reason
  deliver call_timeout = drop_media
  deliver (need_create_peer_connection peer_id is_caller) =
      on_need_create_peer_connection peer_id is_caller
  deliver need_close_peer_connection = on_need_close_peer_connection
  deliver (send_call_request to call_id) = emit (transport (send_call_request to call_id))
  deliver (send_call_response to call_id accepted reason) =
      emit (transport (send_call_response to call_id accepted reason))
  deliver (send_call_cancel to call_id reason) =
      emit (transport (send_call_cancel to call_id reason))
  deliver (send_call_end to call_id reason) = emit (transport (send_call_end to call_id reason))

  unfoldable pub deliver_all : List Effect → CoordinatorAct Engine
  deliver_all [] = skip
  deliver_all (e ∷ es) = deliver e ⨾ deliver_all es

  -- A call of an operation of the call manager.
  unfoldable pub run_manager : Act Manager Effect → CoordinatorAct Engine
  unfolding deliver_all
  run_manager act c =
      let (m, effects) = act c.manager in deliver_all effects (record c { manager = m })
