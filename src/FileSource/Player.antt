-- ===== src/FileSource/Player.antt =====
-- A media file that plays: the decoding thread of src/ffmpeg_file_source.cc over the audio input of
-- src/switchable_audio_input_win.cc, whose thread, clients and `Stop` come in between its turns.
use webrtc_peerconnection_cl.Prelude.{
  String, Bool, true, false, not, ◌&&◌, List, [], ◌∷◌, ℤ, if◌then◌else◌, Act, skip, ◌⨾◌,
}
use webrtc_peerconnection_cl.AudioInput.{
  AudioInput, AudioCall, AudioEvent, step, queued_synthetic_frames,
}
use webrtc_peerconnection_cl.FileSource.{Container}
use webrtc_peerconnection_cl.FileSource.Decode.{
  FileSource, FileCall, Answers, audio_input, decode, stop, stop_joined, done, Phase,
}

pub record Player : Type 0 where
  pub file : FileSource
  pub input : AudioInput

pub data Turn : Type 0 where
  decodes : Answers → Turn
  plays : AudioEvent → Turn
  stops joins : Turn

-- The calls on the audio input, carried out.
abbrev pub carry_out : List FileCall → Act AudioInput AudioCall
carry_out [] = skip
carry_out (audio_input e ∷ cs) = step e ⨾ carry_out cs
carry_out (_ ∷ cs) = carry_out cs

abbrev pub after_calls : FileSource × List FileCall → AudioInput → Player
after_calls r input = record { file = r.0; input = (carry_out r.1 input).0 }

abbrev is_done : Phase → Bool
is_done done = true
is_done _ = false

module _ (error_text : ℤ → String) (rescale : ℤ → ℤ) (c : Container) where
  unfoldable pub turn : Turn → Player → Player
  turn (decodes a) p =
      after_calls (decode error_text rescale c a (queued_synthetic_frames p.input) p.file) p.input
  turn (plays e) p = record p { input = (step e p.input).0 }
  turn stops p = record p { file = stop p.file }
  turn joins p =
      if not p.file.running && is_done p.file.phase
      then after_calls (stop_joined p.file) p.input
      else p

  unfoldable pub turns : List Turn → Player → Player
  unfolding turn
  turns [] p = p
  turns (t ∷ ts) p = turns ts (turn t p)
