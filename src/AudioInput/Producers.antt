-- ===== src/AudioInput/Producers.antt =====
-- Who makes the samples: the microphone or the thread of the file's samples, over any history of
-- src/switchable_audio_input_win.cc.
use webrtc_peerconnection_cl.Prelude.{
  ◌≡◌, refl, ◌∙◌, Bool, true, false, not, ◌&&◌, ◌||◌, List, [], ◌∷◌, ◌++◌, none, some, arith,
}
use webrtc_peerconnection_cl.AudioInput.{
  AudioInput, AudioCall, AudioEvent, new_audio_input, is_synthetic, run, step, live_start,
  live_stop, live_terminate, uses_microphone, clears, terminates, inits_recording, recording,
  starts_recording, stops_recording, restarts, ticks, uses_synthetic_pcm, pushes, attaches,
  sets_sample_rate, inits, use_microphone, use_synthetic_pcm, clear_synthetic_audio,
  push_synthetic_audio, terminate, attach_audio_buffer, init_recording, start_recording,
  stop_recording, restart_recording, set_sample_rate, tick, init,
}

-- Whether the microphone was left recording by the calls on it.
abbrev records1 : AudioCall → Bool → Bool
records1 live_start b = true
records1 live_stop b = false
records1 live_terminate b = false
records1 _ b = b

abbrev pub records : List AudioCall → Bool → Bool
records [] b = b
records (c ∷ cs) b = records cs (records1 c b)

pub records-append :
    (xs ys : List AudioCall) (b : Bool) → records (xs ++ ys) b ≡ records ys (records xs b)
records-append [] ys b = refl
records-append (x ∷ xs) ys b = records-append xs ys (records1 x b)

-- Each of the two records exactly when it is the chosen one and recording was asked for.
abbrev pub OneProducer : AudioInput → Bool → Type 0
OneProducer s live =
    (s.synthetic_thread_running ≡ (is_synthetic s.mode && s.recording_requested))
    × (live ≡ (not (is_synthetic s.mode) && s.recording_requested))

step-OneProducer :
    (e : AudioEvent) (s : AudioInput) (b : Bool)
    → OneProducer s b
    → OneProducer (step e s).0 (records (step e s).1 b)
unfolding step
step-OneProducer uses_microphone s b h = unfold use_microphone in ground arith
step-OneProducer clears s b h = unfold clear_synthetic_audio in ground arith
step-OneProducer terminates s b h = unfold terminate in ground arith
step-OneProducer inits_recording s b h = unfold init_recording in ground arith
step-OneProducer starts_recording s b h = unfold start_recording in ground arith
step-OneProducer stops_recording s b h = unfold stop_recording in ground arith
step-OneProducer restarts s b h = unfold restart_recording in ground arith
step-OneProducer ticks s b h = unfold tick in ground arith
step-OneProducer (uses_synthetic_pcm sample_rate_hz channels) s b h =
    unfold use_synthetic_pcm in ground arith
step-OneProducer (pushes none frames) s b h = unfold push_synthetic_audio in ground arith
step-OneProducer (pushes (some samples) frames) s b h = unfold push_synthetic_audio in ground arith
step-OneProducer (attaches a) s b h = unfold attach_audio_buffer in ground arith
step-OneProducer (sets_sample_rate sample_rate) s b h = unfold set_sample_rate in ground arith
step-OneProducer (inits ok) s b h = unfold init in ground arith

run-OneProducer :
    (es : List AudioEvent) (s : AudioInput) (b : Bool)
    → OneProducer s b
    → OneProducer (run es s).0 (records (run es s).1 b)
unfolding run
run-OneProducer [] s b h = h
run-OneProducer (e ∷ es) s b h =
    let h' = run-OneProducer es (step e s).0 (records (step e s).1 b) (step-OneProducer e s b h) in
    (h'.0, records-append (step e s).1 (run es (step e s).0).1 b ∙ h'.1)

-- One of the two records exactly when recording was asked for, and `Recording` says so.
OneProducer-recording :
    (s : AudioInput) (live : Bool)
    → OneProducer s live
    → (recording live s ≡ s.recording_requested)
      × ((s.synthetic_thread_running && live) ≡ false)
      × ((s.synthetic_thread_running || live) ≡ s.recording_requested)
unfolding recording
OneProducer-recording s live h = ground arith

-- After any history of a new audio input, with `live` whether the calls on the microphone left it
-- recording: the thread of the file's samples and the microphone never record together; one of them
-- does exactly when recording was asked for and not stopped since; and that is what `Recording`
-- answers, if the microphone's own `Recording` answers `live`.
pub run-one_producer :
    (es : List AudioEvent)
    → let r = run es new_audio_input in
      let live = records r.1 false in
      (recording live r.0 ≡ r.0.recording_requested)
      × ((r.0.synthetic_thread_running && live) ≡ false)
      × ((r.0.synthetic_thread_running || live) ≡ r.0.recording_requested)
run-one_producer es =
    OneProducer-recording (run es new_audio_input).0 (records (run es new_audio_input).1 false)
      (run-OneProducer es new_audio_input false (refl, refl))
