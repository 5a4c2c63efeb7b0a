-- ===== src/PeerConnectionClient.antt =====
-- src/peer_connection_client.cc: the older client, which signs in at an HTTP server. `Client` is the
-- class's state. Texts are lists of bytes. The sockets, the resolver and the thread belong to the
-- library: the calls on them and on the observer are `Call`, and what the library answers is an
-- argument. A null pointer that is followed is the call `null_dereference`.
pub mod Text
pub mod Response
pub mod Control
pub mod Reading
pub mod Events
pub mod Sockets
pub mod Pointers
pub mod Histories
pub mod Numbers
pub mod Entries
pub mod Listing
pub mod SignIn
pub mod SignOut
pub mod Chunks
mod Tests
use webrtc_peerconnection_cl.Prelude.{
  ℕ, Bool, true, false, List, [], ◌∷◌, ◌++◌, ℤ, negsuc, Act, emit, when, modify, ◌⨾◌,
}
use webrtc_peerconnection_cl.PeerConnectionClient.Text.{Bytes}

pub data SessionState : Type 0 where
  not_connected resolving signing_in connected signing_out_waiting signing_out : SessionState

-- A socket's pointer and its state: null, `CS_CLOSED`, or another state.
pub data Socket : Type 0 where
  absent closed opened : Socket

pub data Which : Type 0 where
  control_socket hanging_get : Which

-- `err` of `OnClose`: `ECONNREFUSED`, or another value.
pub data CloseError : Type 0 where
  connection_refused : CloseError
  other_error : ℤ → CloseError

pub data Call : Type 0 where
  signed_in disconnected server_connection_failure : Call
  peer_connected message_from_peer : ℤ → Bytes → Call
  peer_disconnected message_sent : ℤ → Call
  resolver_starts sockets_created retry_posted null_dereference : Call
  socket_connects socket_closes : Which → Call
  socket_sends : Which → Bytes → Call
  thread_starts thread_quits thread_restarts : Call

-- `resolver`: the pointer is not null. `retries`: the delayed tasks that have not run.
pub record Client : Type 0 where
  pub state : SessionState
  pub control : Socket
  pub hanging : Socket
  pub resolver : Bool
  pub server : Bytes
  pub port : ℤ
  pub client_name : Bytes
  pub onconnect_data : Bytes
  pub control_data : Bytes
  pub notification_data : Bytes
  pub peers : List (ℤ × Bytes)
  pub my_id : ℤ
  pub retries : ℕ

abbrev pub minus_one : ℤ
minus_one = negsuc 0

abbrev pub new_client : Client
new_client = record {
  state = not_connected;
  control = absent;
  hanging = absent;
  resolver = false;
  server = [];
  port = negsuc 0;
  client_name = [];
  onconnect_data = [];
  control_data = [];
  notification_data = [];
  peers = [];
  my_id = minus_one;
  retries = 0;
}

abbrev pub is_open : Socket → Bool
is_open opened = true
is_open closed = false
is_open absent = false

abbrev pub is_absent : Socket → Bool
is_absent absent = true
is_absent closed = false
is_absent opened = false

abbrev pub state_code : SessionState → ℕ
state_code not_connected = 0
state_code resolving = 1
state_code signing_in = 2
state_code connected = 3
state_code signing_out_waiting = 4
state_code signing_out = 5

abbrev pub ClientAct : Type 0
ClientAct = Act Client Call

-- `Connect` and `Close` on a socket: `answers` is false for `SOCKET_ERROR`.
abbrev pub socket_of : Which → Client → Socket
socket_of control_socket c = c.control
socket_of hanging_get c = c.hanging

abbrev pub set_socket : Which → Socket → Client → Client
set_socket control_socket s c = record c { control = s }
set_socket hanging_get s c = record c { hanging = s }

-- The pointer of a socket is followed.
abbrev pub dereference : Which → ClientAct
dereference w c = (when (is_absent (socket_of w c)) (emit null_dereference)) c

abbrev pub connect_socket : Which → Bool → ClientAct
connect_socket w true = dereference w ⨾ emit (socket_connects w) ⨾ modify (set_socket w opened)
connect_socket w false = dereference w ⨾ emit (socket_connects w)

abbrev pub close_socket : Which → ClientAct
close_socket w = dereference w ⨾ emit (socket_closes w) ⨾ modify (set_socket w closed)

-- What comes after a call that returned a value.
abbrev pub go_on : Client × List Call → ClientAct → Client × List Call
go_on r act = let next = act r.0 in (next.0, r.1 ++ next.1)
