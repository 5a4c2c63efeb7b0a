-- ===== src/Engine/Telemetry.antt =====
-- src/webrtcengine_internal.h and src/webrtcengine_telemetry.cc: what the engine tells of its audio,
-- its request for statistics, and how it sets the audio input up for a source.
use webrtc_peerconnection_cl.Prelude.{
  ℕ, Bool, false, not, Option, none, some, ◌==◌, if◌then◌else◌, modify, ◌⨾◌, skip,
}
use webrtc_peerconnection_cl.LocalMedia.{LocalVideoSourceConfig, is_file}
use webrtc_peerconnection_cl.AudioInput.{
  AudioAct, use_synthetic_pcm, use_microphone, clear_synthetic_audio,
}
use webrtc_peerconnection_cl.Coordinator.Stats.{AudioTransportState}

pub record EngineTelemetry : Type 0 where
  pub audio_device_module_available : Bool
  pub recording_available : Bool
  pub playout_available : Bool
  pub local_audio_track_attached : Bool
  pub remote_audio_track_attached : Bool

unfoldable pub set_device_availability : Bool → Bool → Bool → EngineTelemetry → EngineTelemetry
set_device_availability device recording playout t = record t {
  audio_device_module_available = device;
  recording_available = recording;
  playout_available = playout;
}

unfoldable pub set_local_audio_track_attached : Bool → EngineTelemetry → EngineTelemetry
set_local_audio_track_attached attached t = record t { local_audio_track_attached = attached }

unfoldable pub set_remote_audio_track_attached : Bool → EngineTelemetry → EngineTelemetry
set_remote_audio_track_attached attached t = record t { remote_audio_track_attached = attached }

unfoldable pub reset_telemetry : EngineTelemetry → EngineTelemetry
unfolding set_device_availability set_local_audio_track_attached set_remote_audio_track_attached
reset_telemetry t =
    set_remote_audio_track_attached false
      (set_local_audio_track_attached false (set_device_availability false false false t))

-- `device`: whether the audio device module, if there is one, is recording and is playing.
unfoldable pub snapshot : Option (Bool × Bool) → EngineTelemetry → AudioTransportState
snapshot device t = record {
  audio_device_module_available = t.audio_device_module_available;
  recording_available = t.recording_available;
  playout_available = t.playout_available;
  local_audio_track_attached = t.local_audio_track_attached;
  remote_audio_track_attached = t.remote_audio_track_attached;
  recording_active = elim device [ some d ↦ d.0 | none ↦ false ];
  playout_active = elim device [ some d ↦ d.1 | none ↦ false ];
}

-- What `CollectStats` does: it hands the null report to the caller's callback, or asks the library,
-- whose answer carries the guard of that time.
pub data StatsRequest : Type 0 where
  reports_null : StatsRequest
  asks_with_guard : ℕ → StatsRequest

-- `guard`: the engine's callback guard, which is there while there is a peer connection.
unfoldable pub collect_stats : Option ℕ → StatsRequest
collect_stats none = reports_null
collect_stats (some guard) = asks_with_guard guard

-- The report is passed on if the guard has not expired.
unfoldable pub stats_delivered : {Report : Type 0} → Option ℕ → ℕ → Report → Option Report
stats_delivered none guard report = none
stats_delivered (some current) guard report = if current == guard then some report else none

-- `ConfigureAudioInputForSource`; `present`: there is an audio input.
unfoldable pub configure_audio_input_for_source : Bool → LocalVideoSourceConfig → AudioAct
unfolding use_synthetic_pcm use_microphone clear_synthetic_audio is_file
configure_audio_input_for_source present config =
    if not present
    then skip
    else if is_file config.kind
    then use_synthetic_pcm 48000 2 ⨾ modify clear_synthetic_audio
    else use_microphone ⨾ modify clear_synthetic_audio
