-- ===== src/FileSource/NullDecoder.antt =====
-- What src/ffmpeg_file_source.cc does with a sound stream that it has no decoder for.
use webrtc_peerconnection_cl.Prelude.{
  ◌≡◌, ◌≢◌, refl, sym, List, ℕ, String, true, false, [], ◌∷◌, ℤ, pos, is_negative, arith, ap, ◌∙◌,
}
use webrtc_peerconnection_cl.FileSource.{Container, video, audio, open_codec_context}
use webrtc_peerconnection_cl.AudioInput.{queued_synthetic_frames}
use webrtc_peerconnection_cl.FileSource.Player.{
  Player, Turn, decodes, plays, stops, joins, turn, turns,
}
use webrtc_peerconnection_cl.FileSource.Decode.{
  Phase, opening, waiting, done, receiving, receive_frame, show_frame, push_frame, stop,
  stop_joined, Answers, FileSource, started, decode, start_decoding, leave, read_packet, packet,
  send_packet, reading, same,
}

module _ (error_text : ℤ → String) (rescale : ℤ → ℤ) (c : Container) where
  opened_file :
      (a : Answers) (queued i : ℕ)
      → c.allocates ≡ true
      → is_negative c.open_input_result ≡ false
      → is_negative c.stream_info_result ≡ false
      → (open_codec_context error_text video (c.best_stream video)).ok ≡ true
      → (c.best_stream audio).index ≡ pos i
      → (c.best_stream audio).has_decoder ≡ false
      → let f = (decode error_text rescale c a queued started).0 in
        (f.phase ≡ reading)
        × (f.running ≡ true)
        × (f.video_stream_index ≡ (c.best_stream video).index)
        × (f.audio_stream_index ≡ pos i)
        × (f.audio_codec_context ≡ false)
  unfolding decode start_decoding leave open_codec_context
  opened_file a queued i al op info ok index nodec = ground arith

  packet_read :
      (f : FileSource) (a : Answers) (queued i : ℕ)
      → f.phase ≡ reading
      → f.running ≡ true
      → f.audio_stream_index ≡ pos i
      → same (pos i) f.video_stream_index ≡ false
      → a.read ≡ packet (pos i)
      → (decode error_text rescale c a queued f).1 ≡ send_packet audio f.audio_codec_context ∷ []
  unfolding decode read_packet
  packet_read f a queued i ph r ai vi rd = ground arith

  -- The streams of the opened file, from then on.
  abbrev KeepsStreams : ℕ → FileSource → Type 0
  KeepsStreams i f =
      (f.phase ≢ opening)
      × (f.video_stream_index ≡ (c.best_stream video).index)
      × (f.audio_stream_index ≡ pos i)
      × (f.audio_codec_context ≡ false)

  decode-KeepsStreams :
      (a : Answers) (queued i : ℕ) (p : Phase) (f : FileSource)
      → f.phase ≡ p
      → KeepsStreams i f
      → KeepsStreams i (decode error_text rescale c a queued f).0
  unfolding decode leave read_packet receive_frame show_frame push_frame
  decode-KeepsStreams a queued i opening f e k = absurd (k.0 e)
  decode-KeepsStreams a queued i reading f e k = ground arith
  decode-KeepsStreams a queued i waiting f e k = ground arith
  decode-KeepsStreams a queued i done f e k = ground arith
  decode-KeepsStreams a queued i (receiving video) f e k = ground arith
  decode-KeepsStreams a queued i (receiving audio) f e k = ground arith

  turn-KeepsStreams :
      (t : Turn) (i : ℕ) (p : Player)
      → KeepsStreams i p.file
      → KeepsStreams i (turn error_text rescale c t p).file
  unfolding turn stop stop_joined
  turn-KeepsStreams (decodes a) i p k =
      decode-KeepsStreams a (queued_synthetic_frames p.input) i p.file.phase p.file refl k
  turn-KeepsStreams (plays e) i p k = k
  turn-KeepsStreams stops i p k = k
  turn-KeepsStreams joins i p k = ground arith

  turns-KeepsStreams :
      (ts : List Turn) (i : ℕ) (p : Player)
      → KeepsStreams i p.file
      → KeepsStreams i (turns error_text rescale c ts p).file
  unfolding turns
  turns-KeepsStreams [] i p k = k
  turns-KeepsStreams (t ∷ ts) i p k =
      turns-KeepsStreams ts i (turn error_text rescale c t p) (turn-KeepsStreams t i p k)

  -- If a file opens, with a video stream whose decoder opens and another stream as its best sound
  -- stream, for which no decoder is found, then whatever happens after the opening, of turns of both
  -- threads and of a stop: every packet of that sound stream that the running thread reads is sent
  -- to a decoder that is the null pointer.
  pub null_decoder-fed :
      (a a' : Answers) (ts : List Turn) (queued i : ℕ) (p : Player) (f : FileSource)
      → p.file ≡ started
      → c.allocates ≡ true
      → is_negative c.open_input_result ≡ false
      → is_negative c.stream_info_result ≡ false
      → (open_codec_context error_text video (c.best_stream video)).ok ≡ true
      → (c.best_stream audio).index ≡ pos i
      → (c.best_stream audio).has_decoder ≡ false
      → same (pos i) (c.best_stream video).index ≡ false
      → a'.read ≡ packet (pos i)
      → (turns error_text rescale c (decodes a ∷ ts) p).file ≡ f
      → f.phase ≡ reading
      → f.running ≡ true
      → (decode error_text rescale c a' queued f).1 ≡ send_packet audio false ∷ []
  unfolding turns turn
  null_decoder-fed a a' ts queued i p f e al op info ok index nodec other rd now ph r =
      let n = queued_synthetic_frames p.input in
      let h = opened_file a n i al op info ok index nodec in
      let opened : KeepsStreams i (decode error_text rescale c a n p.file).0 =
        rw e (ground (arith, h), h.2, h.3, h.4) in
      let k : KeepsStreams i f =
        rw (sym now) (turns-KeepsStreams ts i (turn error_text rescale c (decodes a) p) opened) in
      packet_read f a' queued i ph r k.2 (ap (same (pos i)) k.1 ∙ other) rd
      ∙ ap (λ x. send_packet audio x ∷ []) k.3
