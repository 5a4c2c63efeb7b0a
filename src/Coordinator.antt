-- ===== src/Coordinator.antt =====
-- include/call_coordinator.h: the state of the coordinator, which owns the call manager, the engine
-- and the ICE watchdog, and the calls that it makes on the signalling client and on the user
-- interface. The four components are present, as the default constructor creates them; the observer
-- of the user interface may be absent (`ui`).
pub mod Handlers
pub mod Control
pub mod Signals
pub mod Controller
pub mod World
mod Frame
pub mod Invariant
pub mod Turns
pub mod Reach
pub mod History
pub mod Routing
pub mod Hangup
pub mod Quiet
pub mod Told
pub mod Follow
pub mod Stats
mod Tests
use webrtc_peerconnection_cl.Prelude.{ℕ, String, Bool, List, Act, when, emit}
use webrtc_peerconnection_cl.SignalTypes.{
  ClientInfo, IceServerConfig, SessionDescriptionPayload, IceCandidatePayload,
}
use webrtc_peerconnection_cl.CallManager.{CallState, Effect, Manager}
use webrtc_peerconnection_cl.Watchdog.{Watchdog}
use webrtc_peerconnection_cl.Ports.{IceState}

-- The calls on `ICallUIObserver`.
pub data UiCall : Type 0 where
  start_local_renderer stop_local_renderer start_remote_renderer stop_remote_renderer : UiCall
  log_message show_error : String → String → UiCall
  signal_connected signal_error : String → UiCall
  signal_disconnected : UiCall
  client_list_update : List ClientInfo → UiCall
  ui_call_state_changed : CallState → String → UiCall
  ui_incoming_call : String → UiCall

-- `transport`: a call of the call manager on its signalling transport, which is the same client.
pub data Out : Type 0 where
  transport : Effect → Out
  send_offer send_answer : String → SessionDescriptionPayload → Out
  send_ice_candidate : String → IceCandidatePayload → Out
  connect_signal : String → String → Out
  disconnect_signal : Out
  ui_call : UiCall → Out

-- What is posted to the call-control thread.
pub data Task : Type 0 where
  start_call_task reject_call_task : String → Task
  accept_call_task end_call_task hangup_task : Task
  ice_state_task : IceState → Task

-- `signal_observed`: the coordinator is the signalling client's observer. `signal_connected` and
-- `io_running`: what `IsConnected()` and `InvokeOnIoThread` of that client answer.
pub record Coordinator (Engine : Type 0) : Type 0 where
  pub manager : Manager
  pub engine : Engine
  pub watchdog : Watchdog
  pub ui : Bool
  pub current_peer_id : String
  pub is_caller : Bool
  pub ice_servers : List IceServerConfig
  pub last_ice_state : String
  pub shutdown_started : Bool
  pub signal_observed : Bool
  pub signal_connected : Bool
  pub io_running : Bool
  pub tasks : List Task

abbrev pub CoordinatorAct : Type 0 → Type 0
CoordinatorAct Engine = Act (Coordinator Engine) Out

-- `if (ui_observer_) ui_observer_->...`
abbrev pub to_ui : {Engine : Type 0} → UiCall → CoordinatorAct Engine
to_ui call c = when c.ui (emit (ui_call call)) c
