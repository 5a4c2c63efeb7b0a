-- ===== src/FileSource/Buffer.antt =====
-- No decoded sound is lost for want of room: the decoding thread of src/ffmpeg_file_source.cc waits
-- until the audio input of src/switchable_audio_input_win.cc has some.
use webrtc_peerconnection_cl.Prelude.{
  ◌≡◌, refl, ℕ, zero, suc, ◌*◌, ◌≤◌, ◌<◌, String, Bool, true, false, List, [], ◌∷◌, ◌++◌, ℤ, pos,
  negsuc, Bool-cases, inl, inr, arith, length, take,
}
use webrtc_peerconnection_cl.AudioInput.{
  AudioInput, step, use_synthetic_pcm, clear_synthetic_audio, queued_synthetic_frames,
}
use webrtc_peerconnection_cl.FileSource.Format.{
  KeepsFormat, DecoderFormat, step-KeepsFormat, push-whole, push-length, push-DecoderFormat,
}
use webrtc_peerconnection_cl.FileSource.{Container, video, audio}
use webrtc_peerconnection_cl.FileSource.Decode.{
  ReceiveAnswer, started, frame_pts_us, start_decoding, leave, read_packet, receive_frame,
  show_frame, push_frame, try_again, receive_fails, FileSource, Answers, DecodedFrame, decoded,
  decode, stop, stop_joined, Phase, opening, reading, waiting, done, receiving,
}
use webrtc_peerconnection_cl.FileSource.Player.{
  Player, Turn, decodes, plays, stops, joins, turn, turns, after_calls,
}

-- What the audio queue holds: up to two seconds while the thread decodes, up to four while it waits
-- or is about to end.
abbrev pub Room : Phase → Bool → AudioInput → Type 0
Room opening running s = Unit {0}
Room done running s = Unit {0}
Room reading true s = DecoderFormat s × (length s.synthetic_samples ≤ 192001)
Room (receiving m) true s = DecoderFormat s × (length s.synthetic_samples ≤ 192001)
Room _ _ s = DecoderFormat s × (length s.synthetic_samples ≤ 384000)

Room-shrinks :
    (ph : Phase) (running : Bool) (s s' : AudioInput)
    → (DecoderFormat s
        → DecoderFormat s' × (length s'.synthetic_samples ≤ length s.synthetic_samples))
    → Room ph running s
    → Room ph running s'
Room-shrinks opening running s s' k h = tt
Room-shrinks done running s s' k h = tt
Room-shrinks reading true s s' k h = ground (arith, k h.0)
Room-shrinks reading false s s' k h = ground (arith, k h.0)
Room-shrinks (receiving m) true s s' k h = ground (arith, k h.0)
Room-shrinks (receiving m) false s s' k h = ground (arith, k h.0)
Room-shrinks waiting running s s' k h = ground (arith, k h.0)

Room-stops : (ph : Phase) (running : Bool) (s : AudioInput) → Room ph running s → Room ph false s
Room-stops opening running s h = tt
Room-stops done running s h = tt
Room-stops reading true s h = ground arith
Room-stops reading false s h = h
Room-stops (receiving m) true s h = ground arith
Room-stops (receiving m) false s h = h
Room-stops waiting running s h = h

abbrev pub HasRoom : Player → Type 0
HasRoom p = Room p.file.phase p.file.running p.input

abbrev pub KeepsTurn : Turn → Type 0
KeepsTurn (plays e) = KeepsFormat e
KeepsTurn _ = Unit {0}

abbrev pub AllKeep : List Turn → Type 0
AllKeep [] = Unit {0}
AllKeep (t ∷ ts) = KeepsTurn t × AllKeep ts

module _ (error_text : ℤ → String) (rescale : ℤ → ℤ) (c : Container) where
  abbrev next : Answers → Player → Player
  next a p = turn error_text rescale c (decodes a) p

  opening-HasRoom : (a : Answers) (p : Player) → p.file.phase ≡ opening → HasRoom (next a p)
  unfolding turn decode start_decoding leave step use_synthetic_pcm clear_synthetic_audio
  opening-HasRoom a p e = ground (arith, e)

  waiting-HasRoom :
      (a : Answers) (p : Player) → p.file.phase ≡ waiting → HasRoom p → HasRoom (next a p)
  unfolding turn decode queued_synthetic_frames
  waiting-HasRoom a p e h = ground (arith, e)

  done-HasRoom : (a : Answers) (p : Player) → p.file.phase ≡ done → HasRoom (next a p)
  unfolding turn decode
  done-HasRoom a p e = ground (arith, e)

  reading-HasRoom :
      (a : Answers) (p : Player) → p.file.phase ≡ reading → HasRoom p → HasRoom (next a p)
  unfolding turn decode read_packet leave step clear_synthetic_audio
  reading-HasRoom a p e h = ground (arith, e)

  push_frame-HasRoom :
      (frame : DecodedFrame) (v : ℤ) (f : FileSource) (s : AudioInput)
      → frame.converted ≡ v
      → f.phase ≡ receiving audio
      → f.running ≡ true
      → DecoderFormat s
      → length s.synthetic_samples ≤ 192001
      → HasRoom (after_calls (push_frame frame f) s)
  unfolding push_frame step
  push_frame-HasRoom frame (pos zero) f s v e r h room = ground (arith, v, e, r)
  push_frame-HasRoom frame (pos (suc n)) f s v e r h room = ground (
    arith,
    v,
    e,
    r,
    push-length frame.pcm (suc n) s h (omega arith),
    push-DecoderFormat frame.pcm (suc n) s h,
  )
  push_frame-HasRoom frame (negsuc n) f s v e r h room = ground (arith, v, e, r)

  receive_audio-HasRoom :
      (v : ReceiveAnswer) (a : Answers) (f : FileSource) (s : AudioInput)
      → a.received ≡ v
      → f.phase ≡ receiving audio
      → f.running ≡ true
      → DecoderFormat s
      → length s.synthetic_samples ≤ 192001
      → HasRoom (after_calls (receive_frame rescale audio a f) s)
  unfolding receive_frame
  receive_audio-HasRoom try_again a f s v e r h room = ground (arith, v, e, r)
  receive_audio-HasRoom receive_fails a f s v e r h room = ground (arith, v, e, r)
  receive_audio-HasRoom (decoded frame) a f s v e r h room =
      ground (arith, v, e, r, push_frame-HasRoom frame frame.converted f s refl e r h room)

  receiving_audio-HasRoom :
      (a : Answers) (p : Player) → p.file.phase ≡ receiving audio → HasRoom p → HasRoom (next a p)
  unfolding turn decode
  receiving_audio-HasRoom a p e h = elim (Bool-cases p.file.running) as (λ _. HasRoom (next a p)) [
    | inl r ↦
        let h' : DecoderFormat p.input × (length p.input.synthetic_samples ≤ 192001) =
          ground (arith, e, r) in
        ground (arith, e, r, receive_audio-HasRoom a.received a p.file p.input refl e r h'.0 h'.1)
    | inr r ↦ ground (arith, e, r)
  ]

  receiving_video-HasRoom :
      (a : Answers) (p : Player) → p.file.phase ≡ receiving video → HasRoom p → HasRoom (next a p)
  unfolding turn decode receive_frame show_frame frame_pts_us
  receiving_video-HasRoom a p e h = ground (arith, e)

  phase-HasRoom :
      (ph : Phase) (a : Answers) (p : Player) → p.file.phase ≡ ph → HasRoom p → HasRoom (next a p)
  phase-HasRoom opening a p e h = opening-HasRoom a p e
  phase-HasRoom done a p e h = done-HasRoom a p e
  phase-HasRoom waiting a p e h = waiting-HasRoom a p e h
  phase-HasRoom reading a p e h = reading-HasRoom a p e h
  phase-HasRoom (receiving audio) a p e h = receiving_audio-HasRoom a p e h
  phase-HasRoom (receiving video) a p e h = receiving_video-HasRoom a p e h

  turn-HasRoom :
      (t : Turn) (p : Player) → KeepsTurn t → HasRoom p → HasRoom (turn error_text rescale c t p)
  turn-HasRoom (decodes a) p k h = phase-HasRoom p.file.phase a p refl h
  turn-HasRoom (plays e) p k h =
      unfold turn in
      Room-shrinks p.file.phase p.file.running p.input (step e p.input).0
        (step-KeepsFormat e p.input k) h
  turn-HasRoom stops p k h = unfold turn stop in Room-stops p.file.phase p.file.running p.input h
  turn-HasRoom joins p k h = unfold turn stop_joined clear_synthetic_audio step in ground arith

  pub turns-HasRoom :
      (ts : List Turn) (p : Player)
      → AllKeep ts
      → HasRoom p
      → HasRoom (turns error_text rescale c ts p)
  unfolding turns
  turns-HasRoom [] p k h = h
  turns-HasRoom (t ∷ ts) p k h =
      turns-HasRoom ts (turn error_text rescale c t p) k.1 (turn-HasRoom t p k.0 h)

  push_turn-whole :
      (p : Player) (a : Answers) (frame : DecodedFrame) (n : ℕ)
      → HasRoom p
      → p.file.phase ≡ receiving audio
      → p.file.running ≡ true
      → p.file.audio_codec_context ≡ true
      → a.received ≡ decoded frame
      → frame.converter_ready ≡ true
      → frame.converted ≡ pos (suc n)
      → suc n < 96000
      → (next a p).input.synthetic_samples ≡ p.input.synthetic_samples ++ take (suc n * 2) frame.pcm
  unfolding turn decode receive_frame push_frame step
  push_turn-whole p a frame n h e r x d y v short =
      let h' : DecoderFormat p.input × (length p.input.synthetic_samples ≤ 192001) =
        ground (arith, e, r) in
      let whole = push-whole frame.pcm (suc n) p.input h'.0 h'.1 (omega arith) short in
      rw (e, r, d, x, y, v) whole

  -- Start a file over any audio input. After any turns of the decoding thread, of the audio input's
  -- thread, of `Stop`, and of calls that neither change the audio format nor add samples: while the
  -- source runs, the samples of a decoded and resampled sound of less than two seconds are all added
  -- at the end of the queue, and none that waited there is dropped to make room.
  pub decoded_sound-kept :
      (ts : List Turn) (input : AudioInput) (a : Answers) (frame : DecodedFrame) (n : ℕ)
      → AllKeep ts
      → let p = turns error_text rescale c ts (record { file = started; input = input }) in
        p.file.phase ≡ receiving audio
        → p.file.running ≡ true
        → p.file.audio_codec_context ≡ true
        → a.received ≡ decoded frame
        → frame.converter_ready ≡ true
        → frame.converted ≡ pos (suc n)
        → suc n < 96000
        → (turn error_text rescale c (decodes a) p).input.synthetic_samples
          ≡ p.input.synthetic_samples ++ take (suc n * 2) frame.pcm
  decoded_sound-kept ts input a frame n k e r x d y v short =
      let p = turns error_text rescale c ts (record { file = started; input = input }) in
      push_turn-whole p a frame n (turns-HasRoom ts (record { file = started; input = input }) k tt)
        e r x d y v short
