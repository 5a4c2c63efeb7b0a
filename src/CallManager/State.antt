-- ===== src/CallManager/State.antt =====
-- include/callmanager.h and src/callmanager.cc: the state of a call manager and the calls it makes.
use webrtc_peerconnection_cl.Prelude.{
  ℕ, ◌+◌, ◌%◌, ◌^◌, String, Bool, false, Option, none, ◌==◌, str_eq,
}

pub data CallState : Type 0 where
  idle calling receiving connecting connected ending : CallState

-- `static_cast<int>(state)`
abbrev pub state_code : CallState → ℕ
state_code idle = 0
state_code calling = 1
state_code receiving = 2
state_code connecting = 3
state_code connected = 4
state_code ending = 5

abbrev pub is_state : CallState → CallState → Bool
is_state a b = state_code a == state_code b

abbrev pub is_empty : String → Bool
is_empty s = str_eq s ""

pub data Effect : Type 0 where
  send_call_request : String → String → Effect
  send_call_response : String → String → Bool → String → Effect
  send_call_cancel send_call_end : String → String → String → Effect
  call_state_changed : CallState → String → Effect
  incoming_call call_accepted : String → Effect
  call_rejected call_cancelled call_ended : String → String → Effect
  call_timeout : Effect
  need_create_peer_connection : String → Bool → Effect
  need_close_peer_connection : Effect

-- `has_transport` and `observer`: the two pointers are not null. `timer`: the generation that the
-- running timer thread captured.
pub record Manager : Type 0 where
  pub has_transport : Bool
  pub observer : Bool
  pub call_state : CallState
  pub current_peer : String
  pub current_call_id : String
  pub is_caller : Bool
  pub timer : Option ℕ
  pub timer_generation : ℕ

abbrev pub new_manager : Manager
new_manager = record {
  has_transport = false;
  observer = false;
  call_state = idle;
  current_peer = "";
  current_call_id = "";
  is_caller = false;
  timer = none;
  timer_generation = 0;
}

-- `++timer_generation_` on a `uint64_t`
abbrev pub next_generation : ℕ → ℕ
next_generation g = (g + 1) % 2 ^ 64
