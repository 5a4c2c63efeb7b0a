-- ===== src/VideoRenderer.antt =====
-- src/videorenderer.cc. Tracks are told apart by a number. The conversion of a frame to ARGB, a
-- library's, is an argument: `on_frame` is handed its size after the rotation and its bytes.
pub mod Frames
mod Tests
use webrtc_peerconnection_cl.Prelude.{
  ℕ, suc, ◌+◌, ◌%◌, ◌^◌, Bool, true, false, Option, none, some, List, [], ◌∷◌, ◌++◌, if◌then◌else◌,
}

pub record Frame : Type 0 where
  pub width : ℕ
  pub height : ℕ
  pub pixels : List ℕ
  pub frame_id : ℕ

abbrev pub no_frame : Frame
no_frame = record { width = 0; height = 0; pixels = []; frame_id = 0 }

pub record VideoRenderer : Type 0 where
  pub latest_frame : Frame
  pub frame_dirty : Bool
  pub next_frame_id : ℕ
  pub rendered_track : Option ℕ

abbrev pub new_video_renderer : VideoRenderer
new_video_renderer = record {
  latest_frame = no_frame;
  frame_dirty = false;
  next_frame_id = 1;
  rendered_track = none;
}

-- The calls on a track.
pub data SinkCall : Type 0 where
  remove_sink add_or_update_sink : ℕ → SinkCall

abbrev remove : Option ℕ → List SinkCall
remove none = []
remove (some t) = remove_sink t ∷ []

abbrev add : Option ℕ → List SinkCall
add none = []
add (some t) = add_or_update_sink t ∷ []

unfoldable pub set_video_track : Option ℕ → VideoRenderer → VideoRenderer × List SinkCall
set_video_track track r =
    (record r { rendered_track = track }, remove r.rendered_track ++ add track)

-- A frame takes the next number, and waits to be consumed.
put : Frame → VideoRenderer → VideoRenderer
put frame r = record r {
  latest_frame = record frame { frame_id = r.next_frame_id };
  frame_dirty = true;
  next_frame_id = (r.next_frame_id + 1) % 2 ^ 64;
}

unfoldable pub clear : VideoRenderer → VideoRenderer
unfolding put
clear r = put no_frame r

unfoldable pub stop : VideoRenderer → VideoRenderer × List SinkCall
unfolding clear
stop r = (clear (record r { rendered_track = none }), remove r.rendered_track)

unfoldable pub consume_latest_frame : VideoRenderer → VideoRenderer × Option Frame
consume_latest_frame r =
    if r.frame_dirty then (record r { frame_dirty = false }, some r.latest_frame) else (r, none)

unfoldable pub on_frame : ℕ → ℕ → List ℕ → VideoRenderer → VideoRenderer
unfolding put
on_frame width height pixels r =
    put (record { width = width; height = height; pixels = pixels; frame_id = 0 }) r
