-- ===== src/FileSource.antt =====
-- src/ffmpeg_file_source.cc: opening a media file. FFmpeg is not under this repository: a `Container`
-- is what its calls on one file answer, and `error_text` is `av_strerror`.
pub mod Decode
pub mod Player
mod Format
pub mod Buffer
pub mod Ending
pub mod NullDecoder
mod Tests
use webrtc_peerconnection_cl.Prelude.{
  String, Bool, true, false, Option, none, some, ◌⊎◌, inl, inr, ℤ, is_negative, not, if◌then◌else◌,
  text_append,
}

pub data MediaType : Type 0 where
  video audio : MediaType

-- The answers about the best stream of a type: its index, whether its decoder is found and a context
-- allocated, and the results of setting that up and of opening it.
pub record StreamAnswers : Type 0 where
  pub index : ℤ
  pub has_decoder : Bool
  pub has_context : Bool
  pub parameters_result : ℤ
  pub open_result : ℤ

pub record Container : Type 0 where
  pub allocates : Bool
  pub open_input_result : ℤ
  pub stream_info_result : ℤ
  pub best_stream : MediaType → StreamAnswers

-- What `OpenCodecContext` returns and leaves behind its pointers; `codec_context`: the pointer is not
-- null; `error_message` is `none` where nothing was written to it.
pub record OpenedCodec : Type 0 where
  pub ok : Bool
  pub stream_index : ℤ
  pub codec_context : Bool
  pub error_message : Option String

abbrev not_opened : ℤ → Option String → OpenedCodec
not_opened i message = record {
  ok = false;
  stream_index = i;
  codec_context = false;
  error_message = message;
}

no_stream : (ℤ → String) → ℤ → String
no_stream error_text i = text_append "Failed to locate a decodable video stream: " (error_text i)

module _ (error_text : ℤ → String) where
  unfoldable pub open_codec_context : MediaType → StreamAnswers → OpenedCodec
  unfolding no_stream
  open_codec_context media_type a =
      if is_negative a.index
      then (elim media_type [
        | audio ↦ not_opened a.index none
        | video ↦ not_opened a.index (some (no_stream error_text a.index))
      ])
      else if not a.has_decoder
      then not_opened a.index (some "Failed to find a decoder for the media stream.")
      else if not a.has_context
      then not_opened a.index (some "Failed to allocate an FFmpeg codec context.")
      else if is_negative a.parameters_result
      then not_opened a.index
          (some (text_append "Failed to copy codec parameters: " (error_text a.parameters_result)))
      else if is_negative a.open_result
      then not_opened a.index
          (some (text_append "Failed to open codec: " (error_text a.open_result)))
      else record { ok = true; stream_index = a.index; codec_context = true; error_message = none }

  -- `none` is `true`; otherwise the text is what `*error_message` is set to.
  unfoldable pub probe_file : Container → Option String
  unfolding no_stream
  probe_file c =
      if is_negative c.open_input_result
      then some (text_append "Failed to open media file: " (error_text c.open_input_result))
      else if is_negative c.stream_info_result
      then some (
          text_append "Failed to read media stream information: " (error_text c.stream_info_result))
      else if is_negative (c.best_stream video).index
      then some (no_stream error_text (c.best_stream video).index)
      else none
