-- ===== src/FileSource/Ending.antt =====
-- The waits of src/ffmpeg_file_source.cc come to an end: that of `Stop` for the decoding thread, and
-- that of the decoding thread for room in the audio queue.
use webrtc_peerconnection_cl.Prelude.{
  ◌≡◌, refl, ap, ◌∙◌, ℕ, zero, suc, ◌-◌, ◌*◌, ◌≤◌, String, true, false, List, [], ◌∷◌, ℤ, arith,
  length, replicate, length-drop,
}
use webrtc_peerconnection_cl.AudioInput.{
  AudioInput, ticks, step, samples_per_chunk, queued_synthetic_frames, clear_synthetic_audio,
}
use webrtc_peerconnection_cl.FileSource.{Container, audio}
use webrtc_peerconnection_cl.FileSource.Format.{DecoderFormat, tick-running}
use webrtc_peerconnection_cl.FileSource.Buffer.{AllKeep, HasRoom, turns-HasRoom}
use webrtc_peerconnection_cl.FileSource.Decode.{
  started, FileSource, Answers, decode, leave, start_decoding, stop, stop_joined, Phase, opening,
  reading, waiting, done, receiving, muted,
}
use webrtc_peerconnection_cl.FileSource.Player.{
  Player, Turn, decodes, plays, stops, joins, turn, turns,
}

-- How many turns a stopped thread has left at most.
abbrev turns_left : Phase → ℕ
turns_left opening = 2
turns_left reading = 1
turns_left (receiving m) = 2
turns_left waiting = 3
turns_left done = 0

abbrev pub decoding_turns : List Turn → ℕ
decoding_turns [] = 0
decoding_turns (decodes a ∷ ts) = suc (decoding_turns ts)
decoding_turns (_ ∷ ts) = decoding_turns ts

module _ (error_text : ℤ → String) (rescale : ℤ → ℤ) (c : Container) where
  decode-stopped :
      (ph : Phase) (a : Answers) (queued : ℕ) (f : FileSource)
      → f.phase ≡ ph
      → f.running ≡ false
      → let f' = (decode error_text rescale c a queued f).0 in
        (f'.running ≡ false) × (turns_left f'.phase ≤ turns_left ph - 1)
  unfolding decode leave start_decoding
  decode-stopped opening a queued f e r = ground (arith, e, r)
  decode-stopped reading a queued f e r = ground (arith, e, r)
  decode-stopped (receiving m) a queued f e r = ground (arith, e, r)
  decode-stopped waiting a queued f e r = ground (arith, e, r)
  decode-stopped done a queued f e r = ground (arith, e, r)

  joins-file :
      (p : Player)
      → let f = (turn error_text rescale c joins p).file in
        (f.running ≡ p.file.running) × (f.phase ≡ p.file.phase)
  unfolding turn stop_joined
  joins-file p = ground arith

  turns-stopped :
      (ts : List Turn) (p : Player)
      → p.file.running ≡ false
      → turns_left p.file.phase ≤ decoding_turns ts
      → let f = (turns error_text rescale c ts p).file in
        (f.running ≡ false) × (turns_left f.phase ≡ 0)
  unfolding turns turn stop stop_joined
  turns-stopped [] p r l = (r, omega (arith, l))
  turns-stopped (decodes a ∷ ts) p r l =
      let queued = queued_synthetic_frames p.input in
      let h = decode-stopped p.file.phase a queued p.file refl r in
      turns-stopped ts (turn error_text rescale c (decodes a) p) h.0 (omega (arith, l, h.1))
  turns-stopped (plays e ∷ ts) p r l = turns-stopped ts (turn error_text rescale c (plays e) p) r l
  turns-stopped (stops ∷ ts) p r l = turns-stopped ts (turn error_text rescale c stops p) refl l
  turns-stopped (joins ∷ ts) p r l =
      let h = joins-file p in
      turns-stopped ts (turn error_text rescale c joins p) (h.0 ∙ r)
        (omega (arith, l, ap turns_left h.1))

  none_left : (ph : Phase) → turns_left ph ≡ 0 → ph ≡ done
  none_left ph h = ground arith

  -- Once the source is told to stop, wherever its thread is, and whatever else happens in between: no
  -- later than with its third turn from then on the decoding thread has ended; and when `Stop` then
  -- returns, the source is muted and no sample is left in the queue.
  pub stop_ends :
      (ts : List Turn) (p : Player)
      → 3 ≤ decoding_turns ts
      → let ended = turns error_text rescale c ts (turn error_text rescale c stops p) in
        let joined = turn error_text rescale c joins ended in
        (ended.file.phase ≡ done)
        × (joined.file.state ≡ muted)
        × (joined.input.synthetic_samples ≡ [])
  stop_ends ts p l =
      let stopped = turn error_text rescale c stops p in
      let left : turns_left stopped.file.phase ≤ 3 = ground arith in
      let h = turns-stopped ts stopped (unfold turn stop in refl) (omega (arith, l, left)) in
      let e = none_left (turns error_text rescale c ts stopped).file.phase h.1 in
      unfold turn stop_joined step clear_synthetic_audio in ground (arith, e, h.0)

  abbrev Drained : ℕ → Player → Player → Type 0
  Drained n p p' =
      (p'.file ≡ p.file)
      × DecoderFormat p'.input
      × (p'.input.synthetic_thread_running ≡ true)
      × (length p'.input.synthetic_samples ≡ length p.input.synthetic_samples - n * 960)

  tick-Drained :
      (p : Player)
      → DecoderFormat p.input
      → p.input.synthetic_thread_running ≡ true
      → Drained 1 p (turn error_text rescale c (plays ticks) p)
  unfolding turn step
  tick-Drained p h run =
      let n : samples_per_chunk p.input ≡ 960 = rw (h.0, h.1) refl in
      let t = tick-running p.input run in
      (
        refl,
        (t.0 ∙ h.0, t.1 ∙ h.1),
        t.2,
        omega (arith, n, t.3, length-drop (samples_per_chunk p.input) p.input.synthetic_samples),
      )

  ticks-Drained :
      (n : ℕ) (p : Player)
      → DecoderFormat p.input
      → p.input.synthetic_thread_running ≡ true
      → Drained n p (turns error_text rescale c (replicate n (plays ticks)) p)
  unfolding turns
  ticks-Drained zero p h run = (refl, h, run, omega arith)
  ticks-Drained (suc n) p h run =
      let p' = turn error_text rescale c (plays ticks) p in
      let d = tick-Drained p h run in
      let d' = ticks-Drained n p' d.1 d.2 in (d'.0 ∙ d.0, d'.1, d'.2, omega (arith, d.3, d'.3))

  wait_over :
      (a : Answers) (p : Player)
      → p.file.phase ≡ waiting
      → DecoderFormat p.input
      → length p.input.synthetic_samples ≤ 192000
      → (turn error_text rescale c (decodes a) p).file.phase ≡ receiving audio
  unfolding turn decode queued_synthetic_frames
  wait_over a p e h short = ground (arith, e)

  waiting-HasRoom :
      (p : Player)
      → p.file.phase ≡ waiting
      → HasRoom p
      → DecoderFormat p.input × (length p.input.synthetic_samples ≤ 384000)
  waiting-HasRoom p e h = ground (arith, e)

  -- Start a file over any audio input, and let it play as before. If the decoding thread waits for
  -- room in the queue, and the thread of the audio input runs, then after two hundred rounds of that
  -- thread, two seconds, the decoding thread goes on with the next sound.
  pub wait_ends :
      (ts : List Turn) (input : AudioInput) (a : Answers)
      → AllKeep ts
      → let p = turns error_text rescale c ts (record { file = started; input = input }) in
        p.file.phase ≡ waiting
        → p.input.synthetic_thread_running ≡ true
        → let later = turns error_text rescale c (replicate 200 (plays ticks)) p in
          (turn error_text rescale c (decodes a) later).file.phase ≡ receiving audio
  wait_ends ts input a k e run =
      let first : Player = record { file = started; input = input } in
      let p = turns error_text rescale c ts first in
      let room = waiting-HasRoom p e (turns-HasRoom error_text rescale c ts first k tt) in
      let d = ticks-Drained 200 p room.0 run in
      wait_over a (turns error_text rescale c (replicate 200 (plays ticks)) p)
        (ap (λ f. f.phase) d.0 ∙ e) d.1 (omega (arith, d.3, room.1))
