-- ===== src/FileSource/Decode.antt =====
-- src/ffmpeg_file_source.cc: the source and its decoding thread, up to its next call of FFmpeg that
-- answers. Pictures and their conversion are left out: a video frame is its time. Times are in
-- microseconds; `sleep_until` is the thread's wait for one.
use webrtc_peerconnection_cl.Prelude.{
  ℕ, suc, ◌+◌, ◌-◌, ◌==◌, String, Bool, true, false, not, ◌&&◌, Option, none, some, ◌⊎◌, inl, inr,
  List, [], ℤ, pos, negsuc, is_negative, ltb, if◌then◌else◌, Act, skip, emit, when, modify, ◌⨾◌,
}
use webrtc_peerconnection_cl.AudioInput.{AudioEvent, uses_synthetic_pcm, clears, pushes}
use webrtc_peerconnection_cl.FileSource.{
  MediaType, video, audio, Container, open_codec_context, probe_file,
}

pub data SourceState : Type 0 where
  live muted : SourceState

-- Where the thread is: before its first line, at the head of the outer loop, at the head of the
-- inner one with a packet of that type, in the wait for room in the audio queue, or at its end.
pub data Phase : Type 0 where
  opening reading waiting done : Phase
  receiving : MediaType → Phase

pub record FileSource : Type 0 where
  pub running : Bool
  pub state : SourceState
  pub phase : Phase
  pub video_stream_index : ℤ
  pub audio_stream_index : ℤ
  pub audio_codec_context : Bool
  pub playback_start : ℕ
  pub first_video_pts_us : ℤ

-- The calls on the audio input, on FFmpeg and on the broadcaster. The flag of `send_packet` tells
-- whether the decoder that is handed the packet is there: `false` is the null pointer.
pub data FileCall : Type 0 where
  audio_input : AudioEvent → FileCall
  seek_to_start : FileCall
  flush_buffers : MediaType → FileCall
  send_packet : MediaType → Bool → FileCall
  sleep_until : ℕ → FileCall
  broadcast : ℕ → FileCall

-- A decoded frame: its two times, absent for AV_NOPTS_VALUE; whether the picture's scaler or the
-- sound's resampler is set up; the resampled samples and what `swr_convert` returns.
pub record DecodedFrame : Type 0 where
  pub best_effort_timestamp : Option ℤ
  pub pts : Option ℤ
  pub converter_ready : Bool
  pub pcm : List ℤ
  pub converted : ℤ

pub data ReadAnswer : Type 0 where
  end_of_file read_fails : ReadAnswer
  packet : ℤ → ReadAnswer

-- `try_again` is EAGAIN or the end of the stream.
pub data ReceiveAnswer : Type 0 where
  try_again receive_fails : ReceiveAnswer
  decoded : DecodedFrame → ReceiveAnswer

-- What FFmpeg's next call answers, whichever it is, and the clock.
pub record Answers : Type 0 where
  pub read : ReadAnswer
  pub sent : Bool
  pub received : ReceiveAnswer
  pub now : ℕ

abbrev pub FileAct : Type 0
FileAct = Act FileSource FileCall

abbrev pub same : ℤ → ℤ → Bool
same (pos a) (pos b) = a == b
same (negsuc a) (negsuc b) = a == b
same _ _ = false

abbrev go : Phase → FileAct
go p = modify (λ f. record f { phase = p })

-- `goto cleanup`.
unfoldable pub leave : FileAct
leave = go done ⨾ emit (audio_input clears)

module _ (rescale : ℤ → ℤ) where
  -- `rescale` is `av_rescale_q` from the stream's time base.
  unfoldable pub frame_pts_us : DecodedFrame → ℤ
  frame_pts_us frame = elim frame.best_effort_timestamp [
    | some t ↦ rescale t
    | none ↦ elim frame.pts [ some t ↦ rescale t | none ↦ pos 0 ]
  ]

-- `std::max<int64_t>(0, a - b)`
abbrev pub relative_pts_us : ℤ → ℤ → ℕ
relative_pts_us (pos a) (pos b) = a - b
relative_pts_us (pos a) (negsuc b) = a + suc b
relative_pts_us (negsuc a) (pos b) = 0
relative_pts_us (negsuc a) (negsuc b) = b - a

unfoldable pub show_frame : (ℤ → ℤ) → DecodedFrame → ℕ → FileAct
unfolding frame_pts_us
show_frame rescale frame now f =
    let t = frame_pts_us rescale frame in
    let anchored =
      if is_negative f.first_video_pts_us
      then record f { first_video_pts_us = t; playback_start = now }
      else f in
    let relative = relative_pts_us t anchored.first_video_pts_us in
    (emit (sleep_until (anchored.playback_start + relative))
        ⨾ when frame.converter_ready (emit (broadcast relative)))
      anchored

unfoldable pub push_frame : DecodedFrame → FileAct
push_frame frame = if not frame.converter_ready then skip else (elim frame.converted [
  | pos (suc n) ↦ emit (audio_input (pushes (some frame.pcm) (suc n))) ⨾ go waiting
  | _ ↦ skip
])

abbrev send : MediaType → Bool → Answers → FileAct
send m context a = emit (send_packet m context) ⨾ go (if a.sent then receiving m else reading)

unfoldable pub start_decoding : (ℤ → String) → Container → ℕ → FileAct
unfolding leave
start_decoding error_text c now =
    let v = open_codec_context error_text video (c.best_stream video) in
    let s = open_codec_context error_text audio (c.best_stream audio) in
    emit (audio_input (uses_synthetic_pcm 48000 2))
    ⨾ emit (audio_input clears)
    ⨾ (if not c.allocates
        then leave
        else if is_negative c.open_input_result
        then leave
        else if is_negative c.stream_info_result
        then leave
        else if not v.ok
        then leave
        else (modify (λ f. record f {
          phase = reading;
          video_stream_index = v.stream_index;
          audio_stream_index = s.stream_index;
          audio_codec_context = s.codec_context;
          playback_start = now;
          first_video_pts_us = negsuc 0;
        })))

unfoldable pub read_packet : Answers → FileAct
unfolding leave
read_packet a f = elim a.read [
  | end_of_file ↦
      (emit (audio_input clears)
          ⨾ emit seek_to_start
          ⨾ emit (flush_buffers video)
          ⨾ when f.audio_codec_context (emit (flush_buffers audio)))
        (record f { playback_start = a.now; first_video_pts_us = negsuc 0 })
  | read_fails ↦ leave f
  | packet i ↦
      if same i f.video_stream_index
      then send video true a f
      else if not (is_negative f.audio_stream_index) && same i f.audio_stream_index
      then send audio f.audio_codec_context a f
      else (f, [])
]

unfoldable pub receive_frame : (ℤ → ℤ) → MediaType → Answers → FileAct
unfolding show_frame push_frame
receive_frame rescale m a f = elim a.received [
  | try_again ↦ go reading f
  | receive_fails ↦ go reading f
  | decoded frame ↦ elim m [
    | video ↦ show_frame rescale frame a.now f
    | audio ↦ when f.audio_codec_context (push_frame frame) f
  ]
]

-- One turn of the thread; `queued` is the answer of `QueuedSyntheticFrames`.
unfoldable pub decode : (ℤ → String) → (ℤ → ℤ) → Container → Answers → ℕ → FileAct
unfolding leave start_decoding read_packet receive_frame
decode error_text rescale c a queued f = elim f.phase [
  | opening ↦ start_decoding error_text c a.now f
  | reading ↦ if not f.running then leave f else read_packet a f
  | receiving m ↦ if not f.running then go reading f else receive_frame rescale m a f
  | waiting ↦ if f.running && ltb 96000 queued then (f, []) else go (receiving audio) f
  | done ↦ (f, [])
]

-- `Start` makes the source run; its thread has done nothing yet.
abbrev pub started : FileSource
started = record {
  running = true;
  state = live;
  phase = opening;
  video_stream_index = negsuc 0;
  audio_stream_index = negsuc 0;
  audio_codec_context = false;
  playback_start = 0;
  first_video_pts_us = negsuc 0;
}

unfoldable pub create : (ℤ → String) → Bool → Container → String ⊎ FileSource
unfolding probe_file
create error_text has_audio_input c =
    if not has_audio_input
    then inl "Internal error: missing switchable audio input."
    else (elim (probe_file error_text c) [
      | some probe_error ↦ inl probe_error
      | none ↦ inr started
    ])

-- `Stop` of a running source, up to its wait for the thread and from the thread's end on.
unfoldable pub stop : FileSource → FileSource
stop f = record f { running = false }

unfoldable pub stop_joined : FileAct
stop_joined f = (emit (audio_input clears)) (record f { state = muted })
