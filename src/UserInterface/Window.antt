-- ===== src/UserInterface/Window.antt =====
-- src/sdl_app.cc: the window, its event loop, and the parts that the interface makes and lets go. SDL,
-- Dear ImGui and Direct3D are not under this repository: what their calls answer is an argument.
pub mod Lifetime
use webrtc_peerconnection_cl.Prelude.{
  ℕ, zero, suc, ◌+◌, ◌≡◌, refl, ap, ◌∙◌, Bool, true, false, not, ◌&&◌, ◌||◌, List, [], ◌∷◌, ◌++◌, ℤ,
  pos, negsuc, length, length-append, arith, if◌then◌else◌, Act, skip, emit, when, modify, ◌⨾◌,
}

-- Which parts are there; the device stands for the device, its context and the swap chain, which
-- one call makes.
pub record Window : Type 0 where
  pub window : Bool
  pub device : Bool
  pub render_target : Bool
  pub imgui_context : Bool
  pub sdl_backend : Bool
  pub dx11_backend : Bool

abbrev pub no_window : Window
no_window = record {
  window = false;
  device = false;
  render_target = false;
  imgui_context = false;
  sdl_backend = false;
  dx11_backend = false;
}

-- Whether each call succeeds, in the order in which they are made.
pub record WindowAnswers : Type 0 where
  pub sdl_inits : Bool
  pub window_made : Bool
  pub window_handle : Bool
  pub device_made : Bool
  pub back_buffer : Bool
  pub sdl_backend_made : Bool
  pub dx11_backend_made : Bool

-- `dx11_backend_stops` and `sdl_backend_stops`: was that part of Dear ImGui started before?
pub data WindowCall : Type 0 where
  dx11_backend_stops sdl_backend_stops : Bool → WindowCall
  context_destroyed window_destroyed sdl_quits renderers_stop : WindowCall
  buffers_resized : ℕ → ℕ → WindowCall
  frame_presented : WindowCall

abbrev pub WindowAct : Type 0
WindowAct = Act Window WindowCall

unfoldable pub initialize_sdl : WindowAnswers → Window → Bool × Window
initialize_sdl a w = (
  a.sdl_inits && a.window_made,
  record w { window = if a.sdl_inits then a.window_made else w.window },
)

unfoldable pub create_render_target : Bool → Window → Window
create_render_target back_buffer w = record w {
  render_target = if back_buffer then true else w.render_target;
}

unfoldable pub initialize_d3d : WindowAnswers → Window → Bool × Window
unfolding create_render_target
initialize_d3d a w =
    if not a.window_handle || not a.device_made
    then (false, w)
    else (true, create_render_target a.back_buffer (record w { device = true }))

unfoldable pub cleanup_render_target : Window → Window
cleanup_render_target w = record w { render_target = false }

unfoldable pub cleanup_d3d : Window → Window
unfolding cleanup_render_target
cleanup_d3d w = record (cleanup_render_target w) { device = false }

unfoldable pub shut_down_window : WindowAct
unfolding cleanup_d3d
shut_down_window =
    emit renderers_stop
    ⨾ (λ w.
        (when w.imgui_context (
            emit (dx11_backend_stops w.dx11_backend)
            ⨾ emit (sdl_backend_stops w.sdl_backend)
            ⨾ emit context_destroyed
            ⨾ modify (λ v. record v {
              imgui_context = false;
              sdl_backend = false;
              dx11_backend = false;
            })))
          w)
    ⨾ modify cleanup_d3d
    ⨾ (λ w. (when w.window (emit window_destroyed ⨾ modify (λ v. record v { window = false }))) w)
    ⨾ emit sdl_quits

-- The parts of Dear ImGui, once there are a window and a device.
unfoldable pub initialize_imgui : WindowAnswers → Window → Bool × Window
initialize_imgui a w = (
  a.sdl_backend_made && a.dx11_backend_made,
  record w {
    imgui_context = true;
    sdl_backend = a.sdl_backend_made;
    dx11_backend = a.sdl_backend_made && a.dx11_backend_made;
  },
)

unfoldable pub initialize_window : WindowAnswers → Window → Bool × (Window × List WindowCall)
unfolding initialize_sdl initialize_d3d initialize_imgui shut_down_window
initialize_window a w =
    let sdl = initialize_sdl a w in
    let d3d = if sdl.0 then initialize_d3d a sdl.1 else (false, sdl.1) in
    let imgui = initialize_imgui a d3d.1 in
    if not d3d.0 then (false, shut_down_window d3d.1) else (imgui.0, (imgui.1, []))

abbrev pub is_positive_size : ℤ → Bool
is_positive_size (pos zero) = false
is_positive_size (pos (suc n)) = true
is_positive_size (negsuc n) = false

abbrev pub size_of : ℤ → ℕ
size_of (pos n) = n
size_of (negsuc n) = 0

unfoldable pub resize_swap_chain : Bool → ℤ → ℤ → WindowAct
unfolding create_render_target cleanup_render_target
resize_swap_chain back_buffer width height w =
    if not w.device || not (is_positive_size width) || not (is_positive_size height)
    then (w, [])
    else (
      create_render_target back_buffer (cleanup_render_target w),
      buffers_resized (size_of width) (size_of height) ∷ [],
    )

-- `resized`: of this window or another one, and whether there is a back buffer afterwards.
pub data SdlEvent : Type 0 where
  quits : SdlEvent
  resized : Bool → Bool → ℤ → ℤ → SdlEvent
  other_event : SdlEvent

unfoldable pub handle_sdl_event : SdlEvent → WindowAct
unfolding resize_swap_chain
handle_sdl_event quits = skip
handle_sdl_event (resized own back_buffer width height) =
    when own (resize_swap_chain back_buffer width height)
handle_sdl_event other_event = skip

-- `should_quit`, after the events of a frame.
abbrev pub should_quit : List SdlEvent → Bool
should_quit [] = false
should_quit (quits ∷ es) = true
should_quit (resized own back_buffer width height ∷ es) = should_quit es
should_quit (other_event ∷ es) = should_quit es

unfoldable pub handle_sdl_events : List SdlEvent → WindowAct
unfolding handle_sdl_event
handle_sdl_events [] = skip
handle_sdl_events (e ∷ es) = handle_sdl_event e ⨾ handle_sdl_events es

-- `Run`: the events that each frame finds; has it returned?
unfoldable pub run_frames : List (List SdlEvent) → Window → Bool × (Window × List WindowCall)
unfolding handle_sdl_events
run_frames [] w = (false, (w, []))
run_frames (events ∷ frames) w =
    let frame = (handle_sdl_events events ⨾ emit frame_presented) w in
    let rest = run_frames frames frame.0 in
    if should_quit events then (true, frame) else (rest.0, (rest.1.0, frame.1 ++ rest.1.1))
