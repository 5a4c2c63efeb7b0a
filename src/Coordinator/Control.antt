-- ===== src/Coordinator/Control.antt =====
-- src/call_coordinator.cc: the operations of `ICallController`, the tasks of the call-control
-- thread, and the callbacks of the signalling client. `fresh` is the identifier that
-- `GenerateCallId` would return.
use webrtc_peerconnection_cl.Prelude.{
  String, not, List, [], ◌∷◌, ◌++◌, if◌then◌else◌, Act, ◌⨾◌, text_append,
}
use webrtc_peerconnection_cl.SignalTypes.{ClientInfo}
use webrtc_peerconnection_cl.CallManager.{
  connected, is_state, Manager, Effect, initiate_call, accept_call, reject_call, end_call,
  notify_peer_connection_established,
}
use webrtc_peerconnection_cl.Watchdog.{arm}
use webrtc_peerconnection_cl.Ports.{
  IceState, ice_new, checking, ice_connected, completed, failed, disconnected, closed, Notice,
  report, remote_video_track_added, remote_video_track_removed, ice_connection_state_changed,
  offer_created, answer_created, ice_candidate_generated, EnginePort,
}
use webrtc_peerconnection_cl.Coordinator.{
  start_remote_renderer, stop_remote_renderer, log_message, signal_connected, signal_error,
  signal_disconnected, client_list_update, Task, start_call_task, reject_call_task,
  accept_call_task, end_call_task, hangup_task, ice_state_task, Coordinator, CoordinatorAct, to_ui,
}
use webrtc_peerconnection_cl.Coordinator.Handlers.{
  stop_ice_disconnect_watchdog, on_report, on_offer_created, on_answer_created,
  on_ice_candidate_generated, run_manager,
}

unfoldable pub ice_state_to_string : IceState → String
ice_state_to_string ice_new = "New"
ice_state_to_string checking = "Checking"
ice_state_to_string ice_connected = "Connected"
ice_state_to_string completed = "Completed"
ice_state_to_string failed = "Failed"
ice_state_to_string disconnected = "Disconnected"
ice_state_to_string closed = "Closed"

module _ {Engine : Type 0} where
  unfoldable pub start_ice_disconnect_watchdog : CoordinatorAct Engine
  start_ice_disconnect_watchdog c = (record c { watchdog = arm c.watchdog }, [])

  -- The callbacks of the signalling client that only inform the interface.
  unfoldable pub on_connected : String → CoordinatorAct Engine
  on_connected client_id =
      to_ui (signal_connected client_id)
      ⨾ to_ui (log_message (text_append "Connected to signaling server as " client_id) "success")

  unfoldable pub on_disconnected : CoordinatorAct Engine
  on_disconnected =
      to_ui signal_disconnected ⨾ to_ui (log_message "Disconnected from signaling server" "warning")

  unfoldable pub on_connection_error : String → CoordinatorAct Engine
  on_connection_error error =
      to_ui (signal_error error)
      ⨾ to_ui (log_message (text_append "Signaling error: " error) "error")

  unfoldable pub on_client_list_update : List ClientInfo → CoordinatorAct Engine
  on_client_list_update clients = to_ui (client_list_update clients)

module _ (P : EnginePort) where
  open P use {
    Engine, has_peer_connection, set_observer, set_ice_servers, set_remote_offer, set_remote_answer,
    add_ice_candidate, callback, shutdown,
  }

  -- The body of the task that `OnIceConnectionStateChanged` posts: its three branches.
  unfoldable pub ice_established : CoordinatorAct Engine
  unfolding stop_ice_disconnect_watchdog
  ice_established = stop_ice_disconnect_watchdog ⨾ run_manager P notify_peer_connection_established

  unfoldable pub ice_unstable : IceState → CoordinatorAct Engine
  unfolding stop_ice_disconnect_watchdog start_ice_disconnect_watchdog ice_state_to_string
  ice_unstable state c =
      ((if is_state c.manager.call_state connected
            then start_ice_disconnect_watchdog
            else stop_ice_disconnect_watchdog)
          ⨾ to_ui (
              log_message
                (text_append "ICE connection state changed to " (ice_state_to_string state))
                "warning"))
        c

  unfoldable pub ice_state_changed : IceState → CoordinatorAct Engine
  unfolding ice_established ice_unstable stop_ice_disconnect_watchdog
  ice_state_changed ice_connected c = ice_established c
  ice_state_changed completed c = ice_established c
  ice_state_changed failed c = ice_unstable failed c
  ice_state_changed disconnected c = ice_unstable disconnected c
  ice_state_changed closed c = ice_unstable closed c
  ice_state_changed ice_new c = stop_ice_disconnect_watchdog c
  ice_state_changed checking c = stop_ice_disconnect_watchdog c

  -- The body of the task that the watchdog posts.
  unfoldable pub watchdog_hangup : CoordinatorAct Engine
  watchdog_hangup c =
      if not (is_state c.manager.call_state connected)
      then (c, [])
      else (to_ui
              (log_message "ICE state stayed Disconnected/Failed too long. Ending call." "warning")
            ⨾ run_manager P end_call)
          c

  -- `InitiateCall`, whose result the coordinator drops.
  abbrev pub initiate : String → String → Coordinator Engine → Act Manager Effect
  initiate fresh peer_id c m = (initiate_call c.signal_connected peer_id fresh m).1

  unfoldable pub perform : String → Task → CoordinatorAct Engine
  unfolding ice_state_changed watchdog_hangup
  perform fresh (start_call_task peer_id) c = run_manager P (initiate fresh peer_id c) c
  perform fresh accept_call_task c = run_manager P accept_call c
  perform fresh (reject_call_task reason) c = run_manager P (reject_call reason) c
  perform fresh end_call_task c = run_manager P end_call c
  perform fresh hangup_task c = watchdog_hangup c
  perform fresh (ice_state_task state) c = ice_state_changed state c

  -- The posted function, which looks at the shutdown flag again.
  unfoldable pub run_task : String → Task → CoordinatorAct Engine
  unfolding perform
  run_task fresh task c = if c.shutdown_started then (c, []) else perform fresh task c

  unfoldable pub post_to_call_control : String → Task → CoordinatorAct Engine
  post_to_call_control fresh task c =
      if c.shutdown_started
      then (c, [])
      else if c.io_running
      then (record c { tasks = c.tasks ++ task ∷ [] }, [])
      else run_task fresh task c

  unfoldable pub start_call : String → String → CoordinatorAct Engine
  unfolding post_to_call_control
  start_call fresh peer_id = post_to_call_control fresh (start_call_task peer_id)

  unfoldable pub on_ice_connection_state_changed : String → IceState → CoordinatorAct Engine
  unfolding post_to_call_control ice_state_to_string
  on_ice_connection_state_changed fresh state c =
      post_to_call_control fresh (ice_state_task state)
        (record c { last_ice_state = ice_state_to_string state })

  unfoldable pub on_notice : String → Notice → CoordinatorAct Engine
  unfolding on_report on_ice_connection_state_changed on_offer_created on_answer_created
      on_ice_candidate_generated
  on_notice fresh (report r) = on_report r
  on_notice fresh remote_video_track_added = to_ui start_remote_renderer
  on_notice fresh remote_video_track_removed = to_ui stop_remote_renderer
  on_notice fresh (ice_connection_state_changed state) = on_ice_connection_state_changed fresh state
  on_notice fresh (offer_created sdp) = on_offer_created sdp
  on_notice fresh (answer_created sdp) = on_answer_created sdp
  on_notice fresh (ice_candidate_generated mid index candidate) =
      on_ice_candidate_generated mid index candidate
