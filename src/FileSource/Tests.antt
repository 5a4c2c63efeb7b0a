-- ===== src/FileSource/Tests.antt =====
-- A media file at concrete answers of FFmpeg (src/ffmpeg_file_source.cc).
use webrtc_peerconnection_cl.Prelude.{
  ◌≡◌, refl, ℕ, String, Bool, true, false, none, some, inl, inr, List, [], ◌∷◌, ◌++◌, ℤ, pos,
  replicate, take, arith,
}
use webrtc_peerconnection_cl.AudioInput.{
  new_audio_input, ticks, starts_recording, step, start_recording, use_synthetic_pcm,
  clear_synthetic_audio, push_synthetic_audio,
}
use webrtc_peerconnection_cl.FileSource.{
  StreamAnswers, Container, video, audio, open_codec_context, probe_file,
}
use webrtc_peerconnection_cl.FileSource.Decode.{
  started, create, Answers, DecodedFrame, ReceiveAnswer, decoded, try_again, packet, decode,
  start_decoding, read_packet, receive_frame, push_frame, show_frame, frame_pts_us, send_packet,
  sleep_until, broadcast, receiving, done, muted, FileSource,
}
use webrtc_peerconnection_cl.FileSource.Player.{
  Player, Turn, decodes, plays, stops, joins, turn, turns,
}
use webrtc_peerconnection_cl.FileSource.Buffer.{decoded_sound-kept}
use webrtc_peerconnection_cl.FileSource.Ending.{stop_ends, wait_ends}
use webrtc_peerconnection_cl.FileSource.NullDecoder.{null_decoder-fed}

abbrev same_text : ℤ → String
same_text _ = "error"

abbrev same_time : ℤ → ℤ
same_time t = t

abbrev stream_at : ℕ → Bool → StreamAnswers
stream_at i has = record {
  index = pos i;
  has_decoder = has;
  has_context = true;
  parameters_result = pos 0;
  open_result = pos 0;
}

abbrev film : Bool → Container
film sound_decoder = record {
  allocates = true;
  open_input_result = pos 0;
  stream_info_result = pos 0;
  best_stream = λ m. elim m [ video ↦ stream_at 0 true | audio ↦ stream_at 1 sound_decoder ];
}

abbrev frame_of : List ℤ → ℕ → DecodedFrame
frame_of pcm n = record {
  best_effort_timestamp = none;
  pts = some (pos 7000);
  converter_ready = true;
  pcm = pcm;
  converted = pos n;
}

abbrev sound_answers : ReceiveAnswer → Answers
sound_answers r = record { read = packet (pos 1); sent = true; received = r; now = 5 }

abbrev two_frames : List ℤ
two_frames = pos 1 ∷ pos 2 ∷ pos 3 ∷ pos 4 ∷ []

abbrev sound : Answers
sound = sound_answers (decoded (frame_of two_frames 2))

abbrev before_sound : List Turn
before_sound = plays starts_recording ∷ decodes sound ∷ decodes sound ∷ []

abbrev first : Player
first = record { file = started; input = new_audio_input }

create_test :
    (create same_text true (film true) ≡ inr started)
    × (create same_text false (film true) ≡ inl "Internal error: missing switchable audio input.")
unfolding create probe_file
create_test = (refl, refl)

decoded_sound-kept_example :
    let p = turns same_text same_time (film true) before_sound first in
    (turn same_text same_time (film true) (decodes sound) p).input.synthetic_samples
    ≡ p.input.synthetic_samples ++ take 4 two_frames
unfolding turns turn decode start_decoding read_packet open_codec_context step start_recording
    use_synthetic_pcm clear_synthetic_audio
decoded_sound-kept_example =
    decoded_sound-kept same_text same_time (film true) before_sound new_audio_input sound
      (frame_of two_frames 2) 1 (tt, (tt, (tt, tt))) refl refl refl refl refl refl (omega arith)

wait_ends_example :
    let p = turns same_text same_time (film true) (before_sound ++ decodes sound ∷ []) first in
    let later = turns same_text same_time (film true) (replicate 200 (plays ticks)) p in
    (turn same_text same_time (film true) (decodes sound) later).file.phase ≡ receiving audio
unfolding turns turn decode start_decoding read_packet receive_frame push_frame open_codec_context
    step start_recording use_synthetic_pcm clear_synthetic_audio push_synthetic_audio
wait_ends_example =
    wait_ends same_text same_time (film true) (before_sound ++ decodes sound ∷ []) new_audio_input
      sound (tt, (tt, (tt, (tt, tt)))) refl refl

stop_ends_example :
    let p = turns same_text same_time (film true) (before_sound ++ decodes sound ∷ []) first in
    let stopped = turn same_text same_time (film true) stops p in
    let ended =
      turns same_text same_time
        (film true)
        (decodes sound ∷ plays ticks ∷ decodes sound ∷ decodes sound ∷ [])
        stopped in
    let joined = turn same_text same_time (film true) joins ended in
    (ended.file.phase ≡ done) × (joined.file.state ≡ muted) × (joined.input.synthetic_samples ≡ [])
stop_ends_example =
    stop_ends same_text same_time (film true)
      (decodes sound ∷ plays ticks ∷ decodes sound ∷ decodes sound ∷ [])
      (turns same_text same_time (film true) (before_sound ++ decodes sound ∷ []) first)
      (omega arith)

-- A packet of the video stream, then one of the sound.
abbrev picture : Answers
picture = record { read = packet (pos 0); sent = true; received = decoded (frame_of [] 0); now = 5 }

abbrev no_more : Answers
no_more = record { read = packet (pos 0); sent = true; received = try_again; now = 5 }

abbrev later_file : FileSource
later_file =
    (turns same_text same_time (film false)
      (decodes sound ∷ decodes picture ∷ decodes picture ∷ decodes no_more ∷ []) first).file

null_decoder-fed_example :
    (decode same_text same_time (film false) sound 0 later_file).1 ≡ send_packet audio false ∷ []
unfolding open_codec_context turns turn decode start_decoding read_packet receive_frame show_frame
    frame_pts_us
null_decoder-fed_example =
    null_decoder-fed same_text same_time (film false) sound sound
      (decodes picture ∷ decodes picture ∷ decodes no_more ∷ []) 0 1 first later_file refl refl refl
      refl refl refl refl refl refl refl refl refl

-- A picture is shown as long after the first one as its time says.
abbrev showing : FileSource
showing = record started {
  phase = receiving video;
  playback_start = 100;
  first_video_pts_us = pos 5000;
}

picture_test :
    (decode same_text same_time (film true) sound 0 showing).1
    ≡ sleep_until 2100 ∷ broadcast 2000 ∷ []
unfolding decode receive_frame show_frame frame_pts_us
picture_test = refl
