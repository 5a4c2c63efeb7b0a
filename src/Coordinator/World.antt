-- ===== src/Coordinator/World.antt =====
-- The whole client in one relation of turns: what the user, the media library, the timers and the
-- signalling server make it do, one at a time and in any order (src/call_coordinator.cc).
use webrtc_peerconnection_cl.Prelude.{String, Bool, true, false, List, [], ◌∷◌, skip, when, ◌⨾◌}
use webrtc_peerconnection_cl.CallManager.{new_manager, timer_expires}
use webrtc_peerconnection_cl.Watchdog.{new_watchdog, fire}
use webrtc_peerconnection_cl.Ports.{EnginePort}
use webrtc_peerconnection_cl.Coordinator.{Task, hangup_task, Coordinator, CoordinatorAct}
use webrtc_peerconnection_cl.Coordinator.Handlers.{run_manager}
use webrtc_peerconnection_cl.Coordinator.Control.{post_to_call_control}
use webrtc_peerconnection_cl.LocalMedia.{LocalVideoSourceConfig}
use webrtc_peerconnection_cl.Coordinator.Controller.{
  connect_to_signal_server, disconnect_from_signal_server, switch_local_video_source,
}
use webrtc_peerconnection_cl.Coordinator.Signals.{
  SignalCall, on_signal, shut_down, on_notices, run_next_task,
}

-- A user's switch of the video source carries the file name of `std::filesystem::path` and whether
-- the sender takes the new track. The other texts are what `GenerateCallId` would return in that turn.
pub data Turn (Callback : Type 0) : Type 0 where
  user_posts : String → Task → Turn Callback
  runs_task : String → Turn Callback
  media_calls : String → Callback → Turn Callback
  watchdog_fires : String → Turn Callback
  request_timer_expires : Turn Callback
  signals : SignalCall → Turn Callback
  signal_client_becomes : Bool → Bool → Turn Callback
  shuts_down : Turn Callback
  user_connects : String → String → Turn Callback
  user_disconnects : Turn Callback
  user_switches_source : (String → String) → Bool → LocalVideoSourceConfig → Turn Callback

module _ (P : EnginePort) where
  open P use {Engine, Callback, callback}

  -- After construction and `Initialize()`.
  abbrev pub initial : Engine → Coordinator Engine
  initial e = record {
    manager = record new_manager { has_transport = true; observer = true };
    engine = e;
    watchdog = new_watchdog;
    ui = true;
    current_peer_id = "";
    is_caller = false;
    ice_servers = [];
    last_ice_state = "Not connected";
    shutdown_started = false;
    signal_observed = true;
    signal_connected = false;
    io_running = false;
    tasks = [];
  }

  unfoldable pub media_turn : String → Callback → CoordinatorAct Engine
  unfolding on_notices
  media_turn fresh b c =
      let (e, notices) = callback b c.engine in on_notices P fresh notices (record c { engine = e })

  unfoldable pub turn : Turn Callback → CoordinatorAct Engine
  unfolding post_to_call_control run_next_task media_turn run_manager on_signal shut_down
      connect_to_signal_server disconnect_from_signal_server switch_local_video_source
  turn (user_posts fresh task) c = post_to_call_control P fresh task c
  turn (runs_task fresh) c = run_next_task P fresh c
  turn (media_calls fresh b) c = media_turn fresh b c
  turn (watchdog_fires fresh) c =
      (when (fire c.watchdog) (post_to_call_control P fresh hangup_task)) c
  turn request_timer_expires c = run_manager P timer_expires c
  turn (signals call) c = (when c.signal_observed (on_signal P call)) c
  turn (signal_client_becomes is_connected io_running) c =
      (record c { signal_connected = is_connected; io_running = io_running }, [])
  turn shuts_down c = shut_down P c
  turn (user_connects url client_id) c = connect_to_signal_server url client_id c
  turn user_disconnects c = disconnect_from_signal_server c
  turn (user_switches_source filename takes config) c =
      switch_local_video_source P filename takes config c

  unfoldable pub turns : List (Turn Callback) → CoordinatorAct Engine
  turns [] = skip
  turns (t ∷ ts) = turn t ⨾ turns ts
