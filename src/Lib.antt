-- ===== src/Lib.antt =====
-- A model of the WebRTC call client (C++ under src/ and include/ of the repository).
--
-- The parts and how they work together. `SignalClient` receives texts from the signalling server;
-- `DispatchSignalingMessage` parses each one and calls the coordinator. `CallCoordinator` owns a
-- `CallManager`, the state machine of one call; a `WebRTCEngine`, which owns the peer connection;
-- and an `IceDisconnectWatchdog`, which ends a call whose media path is lost. The call manager calls
-- the coordinator back, the engine does so from callbacks of the WebRTC library, and the user
-- interface posts tasks to the call-control thread.
--
-- The files:
--   Prelude              shared names, texts, integers, tests and the effect-logging actions
--   SignalTypes          include/signal_types.h
--   Json                 nlohmann::json as a parameter, with its documented laws; `dump` throws on
--                        a text that is not UTF-8
--   Codec, Codec/Build, Codec/Parse, Codec/Parse/Payload
--                        src/signaling_codec.cc: `build_*` are the Build* functions, and
--                        `parse_signaling_message` is ParseSignalingMessage
--   Codec/Envelope, Codec/RoundTrip, Codec/RoundTrip/Messages and
--   Payloads, Codec/Errors
--                        the proofs about the messages
--   SignalClient, SignalClient/Url
--                        src/signalclient.cc: `step` is one call or one completion handler on the io
--                        thread; Sending has its Send functions and
--                        IoThread its thread; SignalClient/Queue, Reconnect, Link and Address are
--                        the proofs
--   Dispatcher           src/signal_message_dispatcher.cc; Dispatcher/Delivery its proofs
--   CallManager, CallManager/State
--                        src/callmanager.cc: `Manager` is the class's state, one function per
--                        method, `step` and `run` any sequence of calls; CallManager/Invariant,
--                        View, Stale and Timer are the proofs
--   Watchdog             src/ice_disconnect_watchdog.cc
--   LocalMedia, MediaLib include/local_media_source.h and the local media pipeline of
--                        src/webrtcengine_internal.h; the WebRTC library as a parameter
--   Engine, Engine/Tracks, Engine/Callbacks, Engine/Port, Engine/Telemetry, Engine/Startup
--                        src/webrtcengine_peer_connection.cc, src/webrtcengine_media_pipeline.cc,
--                        src/webrtcengine.cc, src/webrtcengine_telemetry.cc; the port is the class
--                        DefaultWebRTCEnginePort of src/call_coordinator_ports.cc; Engine/Guards and Engine/Candidates are proofs
--   Ports                include/call_coordinator_ports.h: the engine as the coordinator sees it
--   Coordinator, Coordinator/Handlers, Control, Signals, World
--                        src/call_coordinator.cc: `Coordinator` is the class's state; `Turn` and
--                        `turns` are the whole client, one event at a time in any order
--   Coordinator/Controller, Stats, Stats/Extract
--                        the operations that pass on to the engine or the signalling client, and
--                        the statistics; Stats/Rates is the proof
--   Coordinator/Frame, Invariant, Turns, Reach, History, Routing, Hangup, Quiet, Told, Follow,
--   Coordinator/Follow/Tasks
--                        the proofs about the client
--   TwoClients           two call managers, the messages between them, and the server that passes each
--                        on to its addressee; TwoClients/Setup and Agreement are the proofs
--   TwoClients/Relay     webrtc-signaling-server/main.go: `on_message` is what readPump does with a
--                        text, for addressees that are online; Relay/Passing is the proof
--   TwoClients/Media     two coordinators and the offer, the answer and the candidates between them;
--                        Media/Delivery and Media/Negotiation are the proofs
--   PeerConnectionClient, PeerConnectionClient/Text, Response, Control, Reading, Events
--                        src/peer_connection_client.cc, the older client: Response reads HTTP texts,
--                        Control has the calls and Reading what OnRead and OnHangingGetRead do;
--                        `step` and `run` any sequence of calls and events. Numbers, Entries,
--                        Listing, SignIn, SignOut, Chunks, Sockets, Pointers and Histories are the
--                        proofs
--   Config, Program      src/main.cc, include/app_config.h and src/defaults.cc: `parse_app_config` is
--                        ParseAppConfig, `main_program` is main; Config/Address its proofs
--   AudioInput           src/switchable_audio_input_win.cc: one function per method, `tick` one round
--                        of the thread; AudioInput/Producers and Pcm are the proofs
--   FileSource, FileSource/Decode, FileSource/Player
--                        src/ffmpeg_file_source.cc: `decode` is what DecodeLoop does from one answer of
--                        FFmpeg to the next; the player is that thread over the audio input.
--                        FileSource/Format, Buffer, Ending and NullDecoder are the proofs
--   VideoRenderer        src/videorenderer.cc; VideoRenderer/Frames its proofs
--   UserInterface, UserInterface/Panels, UserInterface/Texture, UserInterface/Window
--                        src/sdl_app.cc: `receive` is what each call of the coordinator does, `click`
--                        what each button does; `run_frames` is the event loop; UserInterface/Mirror, Logs
--                        and Window/Lifetime are the proofs
--   */Tests, */Sample    the theorems at concrete inputs, over small concrete libraries
--
-- How the code is read. A method is a function from the state to the new state and the list of the
-- calls that it makes on other parts, in order (`Act`). The 64-bit generation counters wrap
-- around (`% 2 ^ 64`). A timer is the generation that its thread captured; its running out is an
-- event that may come at any time, so the lengths of the delays play no part. A callback of the
-- WebRTC library carries the number of the callback guard it was made with; the guard of the engine
-- is that number or `none`. There is no fuel: every loop is over a list.
--
-- Not modelled: the locks, since each event runs on one thread at a time; log lines of the engine;
-- the rest of the signalling server; what the engine's thread and devices do once `Initialize` made them; what the interface draws;
-- pictures, and their conversion; and the adapters of src/call_coordinator_ports.cc other than the
-- engine's, which only pass calls on.
mod Prelude
pub mod SignalTypes
pub mod Json
pub mod Codec
pub mod LocalMedia
pub mod MediaLib
pub mod Watchdog
pub mod Ports
pub mod CallManager
pub mod Engine
pub mod Coordinator
pub mod Dispatcher
pub mod SignalClient
pub mod AudioInput
pub mod FileSource
pub mod Config
pub mod VideoRenderer
pub mod UserInterface
pub mod Program
pub mod TwoClients
pub mod PeerConnectionClient
