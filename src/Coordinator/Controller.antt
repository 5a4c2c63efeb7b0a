-- ===== src/Coordinator/Controller.antt =====
-- src/call_coordinator.cc: the operations of `ICallController` that pass on to the engine or to the
-- signalling client, and its queries. The four components are there.
use webrtc_peerconnection_cl.Prelude.{
  String, Bool, true, false, not, ◌&&◌, if◌then◌else◌, emit, ◌⨾◌, text_append,
}
use webrtc_peerconnection_cl.CallManager.{CallState, is_empty}
use webrtc_peerconnection_cl.LocalMedia.{
  LocalVideoSourceConfig, Outcome, done, failed, is_file, kind_to_string,
}
use webrtc_peerconnection_cl.Ports.{EnginePort}
use webrtc_peerconnection_cl.Coordinator.Signals.{engine_call}
use webrtc_peerconnection_cl.Coordinator.{
  Coordinator, CoordinatorAct, to_ui, show_error, log_message, connect_signal, disconnect_signal,
}

-- `filename` is that of `std::filesystem::path`.
unfoldable pub switched_message : (String → String) → LocalVideoSourceConfig → String
switched_message filename config =
    let message = text_append "Local video source switched to " (kind_to_string config.kind) in
    if is_file config.kind && not (is_empty config.file_path)
    then text_append message (text_append ": " (filename config.file_path))
    else message

module _ {Engine : Type 0} where
  unfoldable pub connect_to_signal_server : String → String → CoordinatorAct Engine
  connect_to_signal_server url client_id = emit (connect_signal url client_id)

  unfoldable pub disconnect_from_signal_server : CoordinatorAct Engine
  disconnect_from_signal_server = emit disconnect_signal

  unfoldable pub get_call_state : Coordinator Engine → CallState
  get_call_state c = c.manager.call_state

  unfoldable pub get_current_peer_id : Coordinator Engine → String
  get_current_peer_id c = c.current_peer_id

  unfoldable pub report_source :
      (String → String) → LocalVideoSourceConfig → Outcome → CoordinatorAct Engine
  unfolding switched_message
  report_source filename config done = to_ui (log_message (switched_message filename config) "info")
  report_source filename config (failed error) = to_ui (
      show_error "Media Source Error"
        (if is_empty error then "Failed to update local video source." else error))

module _ (P : EnginePort) where
  open P use {Engine}

  -- What it returns, and what it does. `takes`: whether the sender takes the new track.
  unfoldable pub set_local_video_source :
      (String → String) → Bool → LocalVideoSourceConfig → Coordinator Engine → Bool
  set_local_video_source filename takes config c =
      elim (P.set_local_video_source takes config c.engine).0 [ done ↦ true | failed error ↦ false ]

  unfoldable pub switch_local_video_source :
      (String → String) → Bool → LocalVideoSourceConfig → CoordinatorAct Engine
  unfolding engine_call report_source
  switch_local_video_source filename takes config c =
      (engine_call P (λ e. (P.set_local_video_source takes config e).1)
          ⨾ report_source filename config (P.set_local_video_source takes config c.engine).0)
        c
