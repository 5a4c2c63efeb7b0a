-- ===== src/VideoRenderer/Frames.antt =====
-- The frames that the interface gets from src/videorenderer.cc.
use webrtc_peerconnection_cl.Prelude.{
  ◌≡◌, ℕ, ◌+◌, ◌^◌, ◌≤◌, ◌<◌, true, Option, none, some, List, [], ◌∷◌, ◌++◌, arith, length, Act,
  skip, ◌⨾◌, Bool-cases, inl, inr,
}
use webrtc_peerconnection_cl.VideoRenderer.{
  Frame, VideoRenderer, new_video_renderer, set_video_track, clear, put, stop, consume_latest_frame,
  on_frame,
}

pub data RendererEvent : Type 0 where
  sets_video_track : Option ℕ → RendererEvent
  clears stops consumes : RendererEvent
  gets_frame : ℕ → ℕ → List ℕ → RendererEvent

consumed : VideoRenderer × Option Frame → VideoRenderer × List Frame
consumed (r, none) = (r, [])
consumed (r, some frame) = (r, frame ∷ [])

-- The frames are those that were consumed.
unfoldable pub step : RendererEvent → Act VideoRenderer Frame
unfolding consumed
step (sets_video_track track) r = ((set_video_track track r).0, [])
step clears r = (clear r, [])
step stops r = ((stop r).0, [])
step consumes r = consumed (consume_latest_frame r)
step (gets_frame width height pixels) r = (on_frame width height pixels r, [])

unfoldable pub run : List RendererEvent → Act VideoRenderer Frame
run [] = skip
run (e ∷ es) = step e ⨾ run es

-- The numbers grow, from above the given one on.
abbrev pub Above : ℕ → List Frame → Type 0
Above k [] = Unit {0}
Above k (f ∷ fs) = (k < f.frame_id) × Above f.frame_id fs

-- Every frame up to number `k` was consumed or replaced.
abbrev Waiting : ℕ → VideoRenderer → Type 0
Waiting k r =
    (r.latest_frame.frame_id < r.next_frame_id)
    × (k < r.next_frame_id)
    × (r.frame_dirty ≡ true → k < r.latest_frame.frame_id)

abbrev After : ℕ → List Frame → VideoRenderer → Type 0
After k [] r = Waiting k r
After k (f ∷ fs) r = (k < f.frame_id) × After f.frame_id fs r

step-After :
    (e : RendererEvent) (r : VideoRenderer) (k : ℕ)
    → r.next_frame_id + 1 < 2 ^ 64
    → Waiting k r
    → After k (step e r).1 (step e r).0 × ((step e r).0.next_frame_id ≤ r.next_frame_id + 1)
unfolding step
step-After (sets_video_track track) r k l w = unfold set_video_track in ground arith
step-After clears r k l w = unfold clear put in ground arith
step-After stops r k l w = unfold stop clear put in ground arith
step-After (gets_frame width height pixels) r k l w = unfold on_frame put in ground arith
step-After consumes r k l w =
    unfold consume_latest_frame consumed in
    (elim (Bool-cases r.frame_dirty) [
      | inl d ↦ ground (arith, d, w.2 d)
      | inr d ↦ ground (arith, d)
    ])

Above-append :
    (k : ℕ) (xs ys : List Frame) (r : VideoRenderer)
    → After k xs r
    → ((j : ℕ) → Waiting j r → Above j ys)
    → Above k (xs ++ ys)
Above-append k [] ys r a h = h k a
Above-append k (x ∷ xs) ys r a h = (a.0, Above-append x.frame_id xs ys r a.1 h)

run-Above :
    (es : List RendererEvent) (r : VideoRenderer) (k : ℕ)
    → r.next_frame_id + length es < 2 ^ 64
    → Waiting k r
    → Above k (run es r).1
unfolding run
run-Above [] r k l w = tt
run-Above (e ∷ es) r k l w =
    let h = step-After e r k (omega (arith, l)) w in
    let r' = (step e r).0 in
    Above-append k (step e r).1 (run es r').1 r' h.0
      (λ j v. run-Above es r' j (omega (arith, l, h.1)) v)

-- Over any history of a new renderer with fewer than 2 ^ 64 - 1 calls and frames: the frames that the
-- interface consumes have ever greater numbers, so that none is consumed twice, and none after one
-- that came later.
pub run-growing :
    (es : List RendererEvent) → 1 + length es < 2 ^ 64 → Above 0 (run es new_video_renderer).1
run-growing es l =
    run-Above es new_video_renderer 0 l (omega arith, omega arith, λ d. absurd (ground (arith, d)))
