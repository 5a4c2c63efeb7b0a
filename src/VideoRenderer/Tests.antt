-- ===== src/VideoRenderer/Tests.antt =====
-- The renderer at concrete inputs (src/videorenderer.cc).
use webrtc_peerconnection_cl.Prelude.{◌≡◌, refl, some, List, [], ◌∷◌, arith}
use webrtc_peerconnection_cl.VideoRenderer.{
  new_video_renderer, set_video_track, remove_sink, add_or_update_sink,
}
use webrtc_peerconnection_cl.VideoRenderer.Frames.{
  RendererEvent, sets_video_track, consumes, gets_frame, stops, run, Above, run-growing,
}

-- Two frames, of which the first is replaced, and the end of the track.
abbrev a_track : List RendererEvent
a_track =
    sets_video_track (some 7)
    ∷ gets_frame 1 1 (1 ∷ 2 ∷ 3 ∷ 4 ∷ [])
    ∷ gets_frame 1 1 (5 ∷ 6 ∷ 7 ∷ 8 ∷ [])
    ∷ consumes
    ∷ consumes
    ∷ stops
    ∷ consumes
    ∷ []

run-growing_example : Above 0 (run a_track new_video_renderer).1
run-growing_example = run-growing a_track (omega arith)

sink_test :
    (set_video_track (some 8) (set_video_track (some 7) new_video_renderer).0).1
    ≡ remove_sink 7 ∷ add_or_update_sink 8 ∷ []
unfolding set_video_track
sink_test = refl
