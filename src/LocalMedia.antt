-- ===== src/LocalMedia.antt =====
-- include/local_media_source.h and the local media pipeline of src/webrtcengine_internal.h. What
-- the file system, the camera and the file decoder answer is `MediaFiles`.
use webrtc_peerconnection_cl.Prelude.{
  String, Bool, true, false, not, ◌&&◌, if◌then◌else◌, text_append,
}
use webrtc_peerconnection_cl.CallManager.{is_empty}

pub data LocalVideoSourceKind : Type 0 where
  camera file screen window : LocalVideoSourceKind

pub kind_to_string : LocalVideoSourceKind → String
kind_to_string camera = "Camera"
kind_to_string file = "File"
kind_to_string screen = "Screen"
kind_to_string window = "Window"

pub is_implemented : LocalVideoSourceKind → Bool
is_implemented camera = true
is_implemented file = true
is_implemented screen = false
is_implemented window = false

unfoldable pub is_file : LocalVideoSourceKind → Bool
is_file file = true
is_file camera = false
is_file screen = false
is_file window = false

pub record LocalVideoSourceConfig : Type 0 where
  pub kind : LocalVideoSourceKind
  pub file_path : String

pub record LocalVideoSourceState : Type 0 where
  pub kind : LocalVideoSourceKind
  pub file_path : String
  pub display_name : String
  pub active : Bool

-- What comes of a fallible call: nothing wrong, or the text of the error.
pub data Outcome : Type 0 where
  done : Outcome
  failed : String → Outcome

-- `filename`: `std::filesystem::path::filename`. `probe_file`, `open_file`: `FfmpegFileSource`.
-- `open_camera`: is there a capturer?
pub record MediaFiles : Type 0 where
  pub filename : String → String
  pub probe_file : String → Outcome
  pub open_file : String → Outcome
  pub open_camera : Bool

not_implemented : LocalVideoSourceKind → Outcome
unfolding kind_to_string
not_implemented kind = failed (text_append (kind_to_string kind) " source is not implemented yet.")

module _ (F : MediaFiles) where
  open F use {filename, probe_file, open_file, open_camera}

  pub get_source_display_name : LocalVideoSourceConfig → String
  unfolding kind_to_string is_file
  get_source_display_name config =
      if is_file config.kind && not (is_empty config.file_path)
      then (if not (is_empty (filename config.file_path))
          then filename config.file_path
          else config.file_path)
      else kind_to_string config.kind

  pub build_state : LocalVideoSourceConfig → Bool → LocalVideoSourceState
  unfolding get_source_display_name
  build_state config active = record {
    kind = config.kind;
    file_path = config.file_path;
    display_name = get_source_display_name config;
    active = active;
  }

  unfoldable pub validate_config : LocalVideoSourceConfig → Outcome
  unfolding not_implemented is_implemented is_file
  validate_config config =
      if not (is_implemented config.kind)
      then not_implemented config.kind
      else if not (is_file config.kind)
      then done
      else if is_empty config.file_path
      then failed "A file path is required for file video source."
      else probe_file config.file_path

  create_source_of : LocalVideoSourceKind → String → Outcome
  unfolding not_implemented
  create_source_of camera path = if open_camera then done else failed ""
  create_source_of file path = open_file path
  create_source_of screen path = not_implemented screen
  create_source_of window path = not_implemented window

  unfoldable pub create_source_for_config : LocalVideoSourceConfig → Outcome
  unfolding create_source_of
  create_source_for_config config = create_source_of config.kind config.file_path
