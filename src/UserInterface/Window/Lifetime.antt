-- ===== src/UserInterface/Window/Lifetime.antt =====
-- What the interface leaves behind, and when its loop ends (src/sdl_app.cc).
use webrtc_peerconnection_cl.Prelude.{
  ℕ, suc, ◌+◌, ◌≡◌, refl, ◌∙◌, true, false, not, ◌&&◌, List, [], ◌∷◌, ◌++◌, length, arith, emit,
  ◌⨾◌,
}
use webrtc_peerconnection_cl.UserInterface.Window.{
  Window, no_window, WindowAnswers, WindowCall, dx11_backend_stops, sdl_backend_stops,
  context_destroyed, window_destroyed, sdl_quits, renderers_stop, buffers_resized, frame_presented,
  shut_down_window, initialize_window, resize_swap_chain, SdlEvent, quits, resized, other_event,
  handle_sdl_event, should_quit, handle_sdl_events, run_frames,
}

-- Whatever the calls answer, a start from nothing succeeds exactly when all of them do but that for the
-- back buffer; the shutdown after it leaves none of the parts; and that shutdown stops a part of
-- Dear ImGui that was not started exactly when there were a window and a device but not both
-- parts.
initialize_window-shut_down :
    (a : WindowAnswers)
    → let r = initialize_window a no_window in
      let s = shut_down_window r.1.0 in
      let device = a.sdl_inits && a.window_made && a.window_handle && a.device_made in
      (r.0 ≡ (device && a.sdl_backend_made && a.dx11_backend_made))
      × (s.0 ≡ no_window)
      × (r.1.0.imgui_context ≡ device)
      × ((r.1.0.imgui_context && not r.1.0.dx11_backend)
          ≡ (device && not (a.sdl_backend_made && a.dx11_backend_made)))
unfolding initialize_window shut_down_window
initialize_window-shut_down a = ground arith

abbrev presented : List WindowCall → ℕ
presented [] = 0
presented (frame_presented ∷ cs) = suc (presented cs)
presented (_ ∷ cs) = presented cs

presented-append : (xs ys : List WindowCall) → presented (xs ++ ys) ≡ presented xs + presented ys
presented-append [] ys = omega arith
presented-append (dx11_backend_stops b ∷ xs) ys = presented-append xs ys
presented-append (sdl_backend_stops b ∷ xs) ys = presented-append xs ys
presented-append (context_destroyed ∷ xs) ys = presented-append xs ys
presented-append (window_destroyed ∷ xs) ys = presented-append xs ys
presented-append (sdl_quits ∷ xs) ys = presented-append xs ys
presented-append (renderers_stop ∷ xs) ys = presented-append xs ys
presented-append (buffers_resized width height ∷ xs) ys = presented-append xs ys
presented-append (frame_presented ∷ xs) ys = omega (arith, presented-append xs ys)

event-presented : (e : SdlEvent) (w : Window) → presented (handle_sdl_event e w).1 ≡ 0
unfolding handle_sdl_event
event-presented quits w = refl
event-presented (resized true back_buffer width height) w = unfold resize_swap_chain in ground arith
event-presented (resized false back_buffer width height) w = refl
event-presented other_event w = refl

events-presented : (es : List SdlEvent) (w : Window) → presented (handle_sdl_events es w).1 ≡ 0
unfolding handle_sdl_events
events-presented [] w = refl
events-presented (e ∷ es) w =
    let first = (handle_sdl_event e w).0 in
    omega (
      arith,
      presented-append (handle_sdl_event e w).1 (handle_sdl_events es first).1,
      event-presented e w,
      events-presented es first,
    )

frame-presented :
    (es : List SdlEvent) (w : Window)
    → presented ((handle_sdl_events es ⨾ emit frame_presented) w).1 ≡ 1
frame-presented es w = omega (
  arith,
  presented-append (handle_sdl_events es w).1 (frame_presented ∷ []),
  events-presented es w,
)

abbrev NeverQuits : List (List SdlEvent) → Type 0
NeverQuits [] = Unit {0}
NeverQuits (events ∷ frames) = (should_quit events ≡ false) × NeverQuits frames

-- `Run` returns in the first frame in which there is a request to quit, wherever it stands among the
-- events of that frame, and it has presented each frame up to that one, once.
run_frames-presented :
    (before : List (List SdlEvent)) (events : List SdlEvent) (after : List (List SdlEvent))
    (w : Window)
    → NeverQuits before
    → should_quit events ≡ true
    → let r = run_frames (before ++ events ∷ after) w in
      (r.0 ≡ true) × (presented r.1.1 ≡ length before + 1)
unfolding run_frames
run_frames-presented [] events after w n q =
    rw (run_frames, q) (refl, frame-presented events w ∙ omega arith)
run_frames-presented (first ∷ before) events after w n q =
    let frame = (handle_sdl_events first ⨾ emit frame_presented) w in
    let later = run_frames-presented before events after frame.0 n.1 q in
    let rest = run_frames (before ++ events ∷ after) frame.0 in
    rw (run_frames, n.0)
      (later.0, presented-append frame.1 rest.1.1 ∙ omega (arith, frame-presented first w, later.1))
