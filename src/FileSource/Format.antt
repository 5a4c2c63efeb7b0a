-- ===== src/FileSource/Format.antt =====
-- The audio input of src/switchable_audio_input_win.cc at the decoder's format, 48 kHz in stereo.
use webrtc_peerconnection_cl.Prelude.{
  drop, true, ◌≡◌, refl, ap, ◌∙◌, ℕ, ◌-◌, ◌*◌, ◌%◌, ◌^◌, ◌≤◌, ◌<◌, List, ◌++◌, ℤ, some, arith,
  length, take, length-drop, length-take, length-append,
}
use webrtc_peerconnection_cl.AudioInput.{
  AudioInput, AudioEvent, step, uses_microphone, clears, terminates, inits_recording,
  starts_recording, stops_recording, restarts, ticks, uses_synthetic_pcm, pushes, attaches,
  sets_sample_rate, inits, use_microphone, clear_synthetic_audio, push_synthetic_audio, terminate,
  attach_audio_buffer, init_recording, start_recording, stop_recording, restart_recording, tick,
  init, max_samples, channels_of, samples_per_chunk,
}
use webrtc_peerconnection_cl.AudioInput.Pcm.{fill_chunk-take, push_synthetic_audio-last}

-- Calls on the audio input that leave its format and do not add samples.
abbrev pub KeepsFormat : AudioEvent → Type 0
KeepsFormat (uses_synthetic_pcm sample_rate_hz channels) = ⊥
KeepsFormat (pushes samples frames) = ⊥
KeepsFormat (sets_sample_rate sample_rate) = ⊥
KeepsFormat _ = Unit {0}

abbrev pub DecoderFormat : AudioInput → Type 0
DecoderFormat s = (s.synthetic_sample_rate_hz ≡ 48000) × (s.synthetic_channels ≡ 2)

pub tick-length :
    (s : AudioInput) → length (tick s).0.synthetic_samples ≤ length s.synthetic_samples
unfolding tick
tick-length s =
    let n = samples_per_chunk s in
    let rest = ap (λ r. length r.1) (fill_chunk-take n s.synthetic_samples) in
    ground (arith, rest, length-drop n s.synthetic_samples)

pub step-KeepsFormat :
    (e : AudioEvent) (s : AudioInput)
    → KeepsFormat e
    → DecoderFormat s
    → DecoderFormat (step e s).0
      × (length (step e s).0.synthetic_samples ≤ length s.synthetic_samples)
unfolding step
step-KeepsFormat uses_microphone s k h = unfold use_microphone in ground arith
step-KeepsFormat clears s k h = unfold clear_synthetic_audio in ground arith
step-KeepsFormat terminates s k h = unfold terminate in ground arith
step-KeepsFormat inits_recording s k h = unfold init_recording in ground arith
step-KeepsFormat starts_recording s k h = unfold start_recording in ground arith
step-KeepsFormat stops_recording s k h = unfold stop_recording in ground arith
step-KeepsFormat restarts s k h = unfold restart_recording in ground arith
step-KeepsFormat ticks s k h = unfold tick in ground (arith, tick-length s)
step-KeepsFormat (uses_synthetic_pcm sample_rate_hz channels) s k h = elim k [ ]
step-KeepsFormat (pushes samples frames) s k h = elim k [ ]
step-KeepsFormat (attaches a) s k h = unfold attach_audio_buffer in ground arith
step-KeepsFormat (sets_sample_rate sample_rate) s k h = elim k [ ]
step-KeepsFormat (inits ok) s k h = unfold init in ground arith

pub push-whole :
    (pcm : List ℤ) (n : ℕ) (s : AudioInput)
    → DecoderFormat s
    → length s.synthetic_samples ≤ 192001
    → 0 < n
    → n < 96000
    → (push_synthetic_audio (some pcm) n s).synthetic_samples
      ≡ s.synthetic_samples ++ take (n * 2) pcm
push-whole pcm n s h room pos_n short =
    let max : max_samples s ≡ 384000 = rw (h.0, h.1) refl in
    let size : (n * channels_of s) % 2 ^ 64 ≡ n * 2 = rw (h.1) (omega (arith, short)) in
    let all = s.synthetic_samples ++ take (n * 2) pcm in
    let kept : length all - 384000 ≡ 0 =
      omega
        (arith, length-append s.synthetic_samples (take (n * 2) pcm), length-take (n * 2) pcm) in
    (push_synthetic_audio-last pcm n s pos_n).0 ∙ rw (size, max, kept) refl

pub push-length :
    (pcm : List ℤ) (n : ℕ) (s : AudioInput)
    → DecoderFormat s
    → 0 < n
    → length (push_synthetic_audio (some pcm) n s).synthetic_samples ≤ 384000
push-length pcm n s h pos_n =
    let max : max_samples s ≡ 384000 = rw (h.0, h.1) refl in
    omega (arith, max, (push_synthetic_audio-last pcm n s pos_n).1)

pub push-DecoderFormat :
    (pcm : List ℤ) (n : ℕ) (s : AudioInput)
    → DecoderFormat s
    → DecoderFormat (push_synthetic_audio (some pcm) n s)
unfolding push_synthetic_audio
push-DecoderFormat pcm n s h = ground arith

-- A round of the running thread takes one chunk from the queue.
pub tick-running :
    (s : AudioInput)
    → s.synthetic_thread_running ≡ true
    → let s' = (tick s).0 in
      (s'.synthetic_sample_rate_hz ≡ s.synthetic_sample_rate_hz)
      × (s'.synthetic_channels ≡ s.synthetic_channels)
      × (s'.synthetic_thread_running ≡ true)
      × (length s'.synthetic_samples ≡ length (drop (samples_per_chunk s) s.synthetic_samples))
unfolding tick
tick-running s run =
    let rest = ap (λ r. length r.1) (fill_chunk-take (samples_per_chunk s) s.synthetic_samples) in
    ground (arith, run, rest)
