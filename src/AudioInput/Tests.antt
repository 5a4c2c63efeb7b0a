-- ===== src/AudioInput/Tests.antt =====
-- The audio input at concrete inputs (src/switchable_audio_input_win.cc).
use webrtc_peerconnection_cl.Prelude.{
  ◌≡◌, refl, ◌-◌, ◌≤◌, false, ◌&&◌, ◌||◌, some, List, [], ◌∷◌, ◌++◌, ℤ, pos, length, pop_while_over,
  take, drop, arith,
}
use webrtc_peerconnection_cl.AudioInput.{
  AudioInput, AudioEvent, new_audio_input, run, recording, uses_synthetic_pcm, starts_recording,
  pushes, ticks, uses_microphone, push_synthetic_audio,
}
use webrtc_peerconnection_cl.AudioInput.Producers.{records, run-one_producer}
use webrtc_peerconnection_cl.AudioInput.Pcm.{push_synthetic_audio-last}

abbrev four_samples : List ℤ
four_samples = pos 1 ∷ pos 2 ∷ pos 3 ∷ pos 4 ∷ []

-- The microphone, then a file, then the microphone again.
abbrev there_and_back : List AudioEvent
there_and_back =
    starts_recording
    ∷ uses_synthetic_pcm 48000 2
    ∷ pushes (some four_samples) 2
    ∷ ticks
    ∷ uses_microphone
    ∷ []

run-one_producer_example :
    let r = run there_and_back new_audio_input in
    let live = records r.1 false in
    (recording live r.0 ≡ r.0.recording_requested)
    × ((r.0.synthetic_thread_running && live) ≡ false)
    × ((r.0.synthetic_thread_running || live) ≡ r.0.recording_requested)
run-one_producer_example = run-one_producer there_and_back

-- One sample per second, so that the queue has room for four.
abbrev small_input : AudioInput
small_input = record new_audio_input {
  synthetic_sample_rate_hz = 1;
  synthetic_channels = 1;
  synthetic_samples = pos 9 ∷ pos 8 ∷ [];
}

push_synthetic_audio-last_example :
    let all = small_input.synthetic_samples ++ take 3 four_samples in
    let queue = (push_synthetic_audio (some four_samples) 3 small_input).synthetic_samples in
    (queue ≡ drop (length all - 4) all) × (length queue ≤ 4)
push_synthetic_audio-last_example =
    push_synthetic_audio-last four_samples 3 small_input (omega arith)

push_test :
    (push_synthetic_audio (some four_samples) 3 small_input).synthetic_samples
    ≡ pos 8 ∷ pos 1 ∷ pos 2 ∷ pos 3 ∷ []
unfolding push_synthetic_audio pop_while_over
push_test = refl
