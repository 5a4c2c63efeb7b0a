-- ===== src/AudioInput.antt =====
-- src/switchable_audio_input_win.cc: the microphone, or samples that the file decoder pushes. The
-- library's microphone input is not under this repository: `AudioCall` lists the calls on it and on
-- the audio buffer, in order, and what it answers is no part of the state. A mutex section runs in
-- one piece; the audio thread is one `tick` for each round of its loop.
pub mod Producers
pub mod Pcm
mod Tests
use webrtc_peerconnection_cl.Prelude.{
  ℕ, zero, suc, ◌+◌, ◌-◌, ◌*◌, ◌/◌, ◌%◌, ◌^◌, Bool, true, false, not, ◌&&◌, Option, none, some,
  List, [], ◌∷◌, ◌++◌, ℤ, pos, ltb, ◌==◌, if◌then◌else◌, length, take, pop_while_over, Act, skip,
  emit, when, modify, ◌⨾◌,
}

pub data CaptureMode : Type 0 where
  microphone synthetic : CaptureMode

pub data AudioCall : Type 0 where
  live_init live_terminate live_init_recording live_start live_stop live_restart : AudioCall
  live_set_sample_rate : ℕ → AudioCall
  live_attach : Bool → AudioCall
  set_recording_sample_rate set_recording_channels : ℕ → AudioCall
  deliver_recorded : List ℤ → ℕ → AudioCall

-- `audio_buffer`: the pointer is not null. A sample is only moved, never computed with.
pub record AudioInput : Type 0 where
  pub audio_buffer : Bool
  pub mode : CaptureMode
  pub initialized : Bool
  pub recording_initialized : Bool
  pub recording_requested : Bool
  pub synthetic_thread_running : Bool
  pub synthetic_sample_rate_hz : ℕ
  pub synthetic_channels : ℕ
  pub synthetic_samples : List ℤ

abbrev pub new_audio_input : AudioInput
new_audio_input = record {
  audio_buffer = false;
  mode = microphone;
  initialized = false;
  recording_initialized = false;
  recording_requested = false;
  synthetic_thread_running = false;
  synthetic_sample_rate_hz = 48000;
  synthetic_channels = 2;
  synthetic_samples = [];
}

abbrev pub is_synthetic : CaptureMode → Bool
is_synthetic microphone = false
is_synthetic synthetic = true

abbrev pub AudioAct : Type 0
AudioAct = Act AudioInput AudioCall

start_synthetic_thread : AudioInput → AudioInput
start_synthetic_thread s = record s { synthetic_thread_running = true }

-- The thread is joined where it runs.
stop_synthetic_thread : AudioInput → AudioInput
stop_synthetic_thread s = record s { synthetic_thread_running = false }

-- `if (audio_buffer_) { SetRecordingSampleRate; SetRecordingChannels }`
set_format : AudioAct
set_format s =
    (when s.audio_buffer (
        emit (set_recording_sample_rate s.synthetic_sample_rate_hz)
        ⨾ emit (set_recording_channels s.synthetic_channels)))
      s

unfoldable pub use_microphone : AudioAct
unfolding stop_synthetic_thread
use_microphone s =
    if not (is_synthetic s.mode)
    then (s, [])
    else (when s.recording_requested (emit live_init_recording ⨾ emit live_start))
        (record (stop_synthetic_thread s) { mode = microphone; synthetic_samples = [] })

unfoldable pub use_synthetic_pcm : ℕ → ℕ → AudioAct
unfolding start_synthetic_thread set_format
use_synthetic_pcm sample_rate_hz channels s =
    (set_format
        ⨾ emit live_stop
        ⨾ modify (λ d. if d.recording_requested then start_synthetic_thread d else d))
      (record s {
        mode = synthetic;
        synthetic_sample_rate_hz = if sample_rate_hz == 0 then 48000 else sample_rate_hz;
        synthetic_channels = if channels == 0 then 2 else channels;
        recording_initialized = true;
      })

unfoldable pub clear_synthetic_audio : AudioInput → AudioInput
clear_synthetic_audio s = record s { synthetic_samples = [] }

-- `std::max<size_t>(1, synthetic_channels_)`
abbrev pub channels_of : AudioInput → ℕ
channels_of s = if s.synthetic_channels == 0 then 1 else s.synthetic_channels

-- Four seconds of samples, in `size_t` arithmetic.
abbrev pub max_samples : AudioInput → ℕ
max_samples s = ((s.synthetic_sample_rate_hz * channels_of s * 4000) % 2 ^ 64) / 1000

-- `none` is the null pointer; the list is the memory from the pointer on.
unfoldable pub push_synthetic_audio : Option (List ℤ) → ℕ → AudioInput → AudioInput
unfolding pop_while_over
push_synthetic_audio none frames s = s
push_synthetic_audio (some samples) frames s = if frames == 0 then s else record s {
  synthetic_samples =
      pop_while_over (max_samples s)
        (s.synthetic_samples ++ take ((frames * channels_of s) % 2 ^ 64) samples);
}

unfoldable pub queued_synthetic_frames : AudioInput → ℕ
queued_synthetic_frames s = length s.synthetic_samples / channels_of s

-- `ok`: the microphone's `Init` answers 0.
unfoldable pub init : Bool → AudioAct
init ok s = emit live_init (record s { initialized = ok })

unfoldable pub terminate : AudioAct
unfolding stop_synthetic_thread
terminate s = emit live_terminate (record (stop_synthetic_thread s) {
  recording_requested = false;
  synthetic_samples = [];
  recording_initialized = false;
  initialized = false;
})

unfoldable pub attach_audio_buffer : Bool → AudioAct
unfolding set_format
attach_audio_buffer b s =
    (when (is_synthetic s.mode) set_format ⨾ emit (live_attach b)) (record s { audio_buffer = b })

unfoldable pub init_recording : AudioAct
unfolding set_format
init_recording s =
    if is_synthetic s.mode
    then set_format (record s { recording_initialized = true })
    else emit live_init_recording s

unfoldable pub start_recording : AudioAct
unfolding start_synthetic_thread
start_recording s =
    if is_synthetic s.mode
    then (start_synthetic_thread (record s { recording_requested = true }), [])
    else emit live_start (record s { recording_requested = true })

unfoldable pub stop_recording : AudioAct
unfolding stop_synthetic_thread
stop_recording s =
    if is_synthetic s.mode
    then (stop_synthetic_thread (record s { recording_requested = false }), [])
    else emit live_stop (record s { recording_requested = false })

unfoldable pub restart_recording : AudioAct
restart_recording s = (when (not (is_synthetic s.mode)) (emit live_restart)) s

unfoldable pub set_sample_rate : ℕ → AudioAct
set_sample_rate sample_rate s =
    if is_synthetic s.mode
    then (when s.audio_buffer (emit (set_recording_sample_rate sample_rate)))
        (record s { synthetic_sample_rate_hz = sample_rate })
    else emit (live_set_sample_rate sample_rate) s

-- `chunk.resize(n, 0)`, and the loop that moves samples from the queue's front into it.
unfoldable pub fill_chunk : ℕ → List ℤ → List ℤ × List ℤ
fill_chunk zero queue = ([], queue)
fill_chunk (suc n) [] = let (chunk, queue) = fill_chunk n [] in (pos 0 ∷ chunk, queue)
fill_chunk (suc n) (x ∷ xs) = let (chunk, queue) = fill_chunk n xs in (x ∷ chunk, queue)

abbrev pub frames_per_chunk : AudioInput → ℕ
frames_per_chunk s = s.synthetic_sample_rate_hz / 100

abbrev pub samples_per_chunk : AudioInput → ℕ
samples_per_chunk s = (frames_per_chunk s * channels_of s) % 2 ^ 64

-- One round of `SyntheticLoop`, if the thread runs.
unfoldable pub tick : AudioAct
unfolding fill_chunk
tick s =
    if not s.synthetic_thread_running
    then (s, [])
    else let (chunk, queue) = fill_chunk (samples_per_chunk s) s.synthetic_samples in
      (when s.audio_buffer (
          emit (set_recording_sample_rate s.synthetic_sample_rate_hz)
          ⨾ emit (set_recording_channels (channels_of s))
          ⨾ emit (deliver_recorded chunk (frames_per_chunk s))))
        (record s { synthetic_samples = queue })

-- The queries; `live` is what the microphone's own query answers.
unfoldable pub recording_is_initialized : Bool → AudioInput → Bool
recording_is_initialized live s = if is_synthetic s.mode then s.recording_initialized else live

unfoldable pub recording : Bool → AudioInput → Bool
recording live s = if is_synthetic s.mode then s.synthetic_thread_running else live

unfoldable pub volume_is_available : Bool → AudioInput → Bool
volume_is_available live s = if is_synthetic s.mode then false else live

unfoldable pub restarting : Bool → AudioInput → Bool
restarting live s = if is_synthetic s.mode then false else live

-- What the engine, the audio device module and the file decoder call, and the rounds of the thread.
pub data AudioEvent : Type 0 where
  uses_microphone clears terminates inits_recording starts_recording stops_recording restarts
        ticks :
      AudioEvent
  uses_synthetic_pcm : ℕ → ℕ → AudioEvent
  pushes : Option (List ℤ) → ℕ → AudioEvent
  attaches : Bool → AudioEvent
  sets_sample_rate : ℕ → AudioEvent
  inits : Bool → AudioEvent

unfoldable pub step : AudioEvent → AudioAct
unfolding use_microphone use_synthetic_pcm clear_synthetic_audio push_synthetic_audio terminate
    attach_audio_buffer init_recording start_recording stop_recording restart_recording
    set_sample_rate tick init
step uses_microphone = use_microphone
step clears = modify clear_synthetic_audio
step terminates = terminate
step inits_recording = init_recording
step starts_recording = start_recording
step stops_recording = stop_recording
step restarts = restart_recording
step ticks = tick
step (uses_synthetic_pcm sample_rate_hz channels) = use_synthetic_pcm sample_rate_hz channels
step (pushes samples frames) = modify (push_synthetic_audio samples frames)
step (attaches b) = attach_audio_buffer b
step (sets_sample_rate sample_rate) = set_sample_rate sample_rate
step (inits ok) = init ok

unfoldable pub run : List AudioEvent → AudioAct
run [] = skip
run (e ∷ es) = step e ⨾ run es
