-- ===== src/UserInterface/Panels.antt =====
-- src/sdl_app.cc: the texts of the panels.
use webrtc_peerconnection_cl.Prelude.{String, Bool, not, ◌&&◌, if◌then◌else◌, text_append}
use webrtc_peerconnection_cl.CallManager.{
  CallState, idle, calling, receiving, connecting, connected, ending, is_empty,
}
use webrtc_peerconnection_cl.LocalMedia.{LocalVideoSourceState, is_file, kind_to_string}

unfoldable pub get_call_state_label : CallState → String
get_call_state_label idle = "Idle"
get_call_state_label calling = "Calling"
get_call_state_label receiving = "Incoming"
get_call_state_label connecting = "Connecting"
get_call_state_label connected = "Connected"
get_call_state_label ending = "Ending"

-- `filename` is that of `std::filesystem::path`.
unfoldable pub get_file_name_for_display : (String → String) → String → String
get_file_name_for_display filename path =
    if not (is_empty (filename path)) then filename path else path

-- The two lines of the media panel.
unfoldable pub media_source_lines : (String → String) → LocalVideoSourceState → String × String
unfolding is_file get_file_name_for_display
media_source_lines filename state = (
  text_append "Mode: " (kind_to_string state.kind),
  if is_file state.kind && not (is_empty state.file_path)
      then text_append "File: " (get_file_name_for_display filename state.file_path)
      else "File: -",
)

-- The switches of `RtcStatsSnapshot` that the panel reads.
pub record AudioSwitches : Type 0 where
  pub valid : Bool
  pub local_audio_track_attached : Bool
  pub remote_audio_track_attached : Bool
  pub audio_playout_active : Bool
  pub audio_recording_active : Bool
  pub recording_available : Bool
  pub playout_available : Bool
  pub audio_receiving : Bool

unfoldable pub mic_status : AudioSwitches → String
mic_status s =
    if not s.valid
    then (if s.local_audio_track_attached then "Track attached" else "-")
    else if s.local_audio_track_attached
    then (if s.audio_recording_active
        then "Capturing"
        else if s.recording_available
        then "Track attached"
        else "No input device")
    else if s.recording_available
    then "Idle"
    else "Unavailable"

unfoldable pub speaker_status : AudioSwitches → String
speaker_status s =
    if not s.valid
    then (if s.audio_playout_active then "Playing" else "-")
    else if s.audio_playout_active
    then "Playing"
    else if s.playout_available
    then "Ready"
    else "Unavailable"

unfoldable pub remote_audio_status : AudioSwitches → String
remote_audio_status s =
    if not s.valid
    then (if s.remote_audio_track_attached then "Track attached" else "-")
    else if s.remote_audio_track_attached
    then (if s.audio_receiving then "Receiving" else "Track attached")
    else "Waiting"
