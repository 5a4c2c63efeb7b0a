-- ===== src/Engine/Startup.antt =====
-- src/webrtcengine.cc: the parts that the engine makes when it starts and lets go when it shuts down;
-- src/webrtcengine_media_pipeline.cc: the choice of the camera. What the library and the devices
-- answer are arguments.
use webrtc_peerconnection_cl.Prelude.{
  ◌≡◌, refl, ap, ◌∙◌, ℕ, zero, suc, ◌+◌, Bool, true, false, not, ◌&&◌, Option, none, some, List, [],
  ◌∷◌, ◌++◌, Act, arith, if◌then◌else◌,
}
use webrtc_peerconnection_cl.Engine.Telemetry.{
  EngineTelemetry, set_device_availability, reset_telemetry, set_local_audio_track_attached,
  set_remote_audio_track_attached,
}

-- Which of the parts are there.
pub record Parts : Type 0 where
  pub signaling_thread : Bool
  pub com_initializer : Bool
  pub audio_input_switcher : Bool
  pub audio_device_module : Bool
  pub peer_connection_factory : Bool
  pub telemetry : EngineTelemetry
  pub shutdown_started : Bool

-- The calls on the thread and on the audio device module.
pub data StartupCall : Type 0 where
  thread_starts thread_stops selects_recording selects_playout inits_device : StartupCall

-- What the library and the devices answer to the engine.
pub record Answers : Type 0 where
  pub com_succeeds : Bool
  pub device_made : Bool
  pub recording_available : Bool
  pub playout_available : Bool
  pub factory_made : Bool

-- The part after the initialisation of COM succeeded.
unfoldable make_device : Answers → Parts → Bool × (Parts × List StartupCall)
unfolding set_device_availability
make_device a p =
    if not a.device_made
    then (false, (record p { audio_device_module = false; audio_input_switcher = false }, []))
    else (
      a.factory_made,
      (
        record p {
          audio_device_module = true;
          audio_input_switcher = true;
          telemetry =
              set_device_availability true a.recording_available a.playout_available p.telemetry;
          peer_connection_factory = a.factory_made;
        },
        selects_recording ∷ selects_playout ∷ inits_device ∷ [],
      ),
    )

-- `Initialize`, without a factory.
unfoldable pub initialize : Answers → Parts → Bool × (Parts × List StartupCall)
unfolding make_device
initialize a p =
    let calls = if p.signaling_thread then [] else thread_starts ∷ [] in
    let q = record p { signaling_thread = true; com_initializer = a.com_succeeds } in
    if not a.com_succeeds
    then (false, (q, calls))
    else let rest = make_device a q in (rest.0, (rest.1.0, calls ++ rest.1.1))

-- `Shutdown`, past the closing of the peer connection.
unfoldable pub shut_down_parts : Act Parts StartupCall
unfolding reset_telemetry
shut_down_parts p = if p.shutdown_started then (p, []) else (
  record {
    signaling_thread = false;
    com_initializer = false;
    audio_input_switcher = false;
    audio_device_module = false;
    peer_connection_factory = false;
    telemetry = reset_telemetry p.telemetry;
    shutdown_started = true;
  },
  if p.signaling_thread then thread_stops ∷ [] else [],
)

pub data Capturer : Type 0 where
  device : ℕ → Capturer
  square_generator : Capturer

-- The loop over the devices from the number `i`: the ones that are left, and whether a capturer can
-- be made of each.
unfoldable pub first_device : ℕ → List Bool → Capturer
first_device i [] = square_generator
first_device i (works ∷ rest) =
    let later = first_device (i + 1) rest in if works then device i else later

-- `CreateCapturer`; without the device information there is no list.
unfoldable pub create_capturer : Option (List Bool) → Option Capturer
unfolding first_device
create_capturer none = none
create_capturer (some devices) = some (first_device 0 devices)

-- The devices that are broken before the rest.
broken : ℕ → List Bool → List Bool
broken zero rest = rest
broken (suc n) rest = false ∷ broken n rest

first_device-working :
    (n i : ℕ) (rest : List Bool) → first_device i (broken n (true ∷ rest)) ≡ device (i + n)
unfolding first_device broken
first_device-working zero i rest = ap device (omega arith)
first_device-working (suc n) i rest = first_device-working n (i + 1) rest ∙ ap device (omega arith)

first_device-none : (n i : ℕ) → first_device i (broken n []) ≡ square_generator
unfolding first_device broken
first_device-none zero i = refl
first_device-none (suc n) i = first_device-none n (i + 1)

abbrev blank_telemetry : EngineTelemetry
blank_telemetry = record {
  audio_device_module_available = false;
  recording_available = false;
  playout_available = false;
  local_audio_track_attached = false;
  remote_audio_track_attached = false;
}

-- The first device of which a capturer can be made is taken, whatever the ones behind it are, and
-- the generator of squares if there is none.
create_capturer-first :
    (n : ℕ) (rest : List Bool)
    → (create_capturer (some (broken n (true ∷ rest))) ≡ some (device n))
      × (create_capturer (some (broken n [])) ≡ some square_generator)
unfolding create_capturer
create_capturer-first n rest = (
  ap some (first_device-working n 0 rest ∙ ap device (omega arith)),
  ap some (first_device-none n 0),
)

-- A start on an engine that has not shut down and has no factory succeeds exactly when COM starts
-- and the device and the factory can be made, and there is a factory exactly when it succeeds.
-- However far it came, the shutdown after it stops the thread and leaves none of the parts, and a
-- second shutdown does nothing.
initialize-shut_down :
    (a : Answers) (p : Parts)
    → p.shutdown_started ≡ false
    → p.peer_connection_factory ≡ false
    → let r = initialize a p in
      let s = shut_down_parts r.1.0 in
      (r.0 ≡ (a.com_succeeds && a.device_made && a.factory_made))
      × (r.1.0.peer_connection_factory ≡ r.0)
      × (s.1 ≡ thread_stops ∷ [])
      × (s.0 ≡ record {
        signaling_thread = false;
        com_initializer = false;
        audio_input_switcher = false;
        audio_device_module = false;
        peer_connection_factory = false;
        telemetry = blank_telemetry;
        shutdown_started = true;
      })
      × (shut_down_parts s.0 ≡ (s.0, []))
unfolding initialize make_device shut_down_parts set_device_availability reset_telemetry
    set_local_audio_track_attached set_remote_audio_track_attached
initialize-shut_down a p h k = ground arith
