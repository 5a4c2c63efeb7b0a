-- ===== src/UserInterface/Texture.antt =====
-- src/sdl_app.cc: the textures that the pictures are copied into. Direct3D is not under this
-- repository: `GraphicsAnswers` is whether each of its calls succeeds.
use webrtc_peerconnection_cl.Prelude.{
  ℕ, ◌*◌, ◌==◌, Bool, true, false, not, ◌&&◌, ◌||◌, Option, none, some, List, [], ◌∷◌,
  if◌then◌else◌, take,
}
use webrtc_peerconnection_cl.VideoRenderer.{
  Frame, VideoRenderer, SinkCall, consume_latest_frame, clear, stop, set_video_track,
}

-- `content` is what was copied last, row after row, as far as anything was.
pub record VideoTexture : Type 0 where
  pub texture : Bool
  pub shader_resource_view : Bool
  pub width : ℕ
  pub height : ℕ
  pub content : List ℕ

abbrev pub no_texture : VideoTexture
no_texture = record {
  texture = false;
  shader_resource_view = false;
  width = 0;
  height = 0;
  content = [];
}

pub record GraphicsAnswers : Type 0 where
  pub has_device : Bool
  pub creates_texture : Bool
  pub creates_view : Bool
  pub maps : Bool

unfoldable pub reset_video_texture : VideoTexture → VideoTexture
reset_video_texture t = no_texture

is_blank : List ℕ → Bool
is_blank [] = true
is_blank (x ∷ xs) = false

-- A texture of the frame's size, made unless it is there; `false` where a call fails.
fit_texture : GraphicsAnswers → Frame → VideoTexture → Bool × VideoTexture
unfolding reset_video_texture
fit_texture a frame t =
    if t.texture && t.width == frame.width && t.height == frame.height
    then (true, t)
    else if not a.creates_texture
    then (false, reset_video_texture t)
    else if not a.creates_view
    then (false, reset_video_texture t)
    else (
      true,
      record (reset_video_texture t) {
        texture = true;
        shader_resource_view = true;
        width = frame.width;
        height = frame.height;
      },
    )

copy_frame : GraphicsAnswers → Frame → Bool × VideoTexture → VideoTexture
copy_frame a frame (false, t) = t
copy_frame a frame (true, t) =
    if a.maps then record t { content = take (frame.width * 4 * frame.height) frame.pixels } else t

draw_frame : GraphicsAnswers → Option Frame → VideoTexture → VideoTexture
unfolding reset_video_texture is_blank fit_texture copy_frame
draw_frame a none t = t
draw_frame a (some frame) t =
    if not a.has_device
    then t
    else if frame.width == 0 || frame.height == 0 || is_blank frame.pixels
    then reset_video_texture t
    else copy_frame a frame (fit_texture a frame t)

unfoldable pub update_video_texture :
    GraphicsAnswers → VideoRenderer × VideoTexture → VideoRenderer × VideoTexture
unfolding draw_frame consume_latest_frame
update_video_texture a (r, t) =
    let (r', frame) = consume_latest_frame r in (r', draw_frame a frame t)

-- `OnStartLocalRenderer`, `OnStartRemoteRenderer`, and the calls that end them.
unfoldable pub on_start_renderer : Option ℕ → VideoRenderer → VideoRenderer × List SinkCall
unfolding clear set_video_track
on_start_renderer track r = set_video_track track (clear r)

unfoldable pub on_stop_renderer : VideoRenderer → VideoRenderer × List SinkCall
unfolding stop
on_stop_renderer r = stop r
