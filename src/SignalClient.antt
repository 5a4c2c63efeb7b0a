-- ===== src/SignalClient.antt =====
-- src/signalclient.cc: the connection to the signalling server. Each function is one call, or one
-- completion handler of boost::asio, on the io thread; `Request` lists what is asked of
-- boost::asio, and the calls on the observer. Completions may come at any time.
pub mod Url
pub mod Queue
pub mod Reconnect
pub mod Link
pub mod Address
pub mod IoThread
pub mod Sending
mod Tests
use webrtc_peerconnection_cl.Prelude.{
  ℕ, suc, ◌+◌, ◌*◌, ◌^◌, ◌-◌, String, Bool, true, false, not, ◌&&◌, ◌||◌, Option, none, some, List,
  [], ◌∷◌, ◌++◌, leb, ltb, if◌then◌else◌, Act, skip, emit, when, modify, ◌⨾◌, text_append,
}
use webrtc_peerconnection_cl.SignalTypes.{IceServerConfig}
use webrtc_peerconnection_cl.Json.{JsonLib}
use webrtc_peerconnection_cl.Codec.Build.{build_register_message, build_list_clients_message}
use webrtc_peerconnection_cl.Codec.Parse.{returned, returned_false, threw}
use webrtc_peerconnection_cl.Coordinator.Signals.{
  SignalCall, connected_call, disconnected_call, connection_error_call,
}
use webrtc_peerconnection_cl.Dispatcher.{SignalMessageDispatchOutcome, dispatch_signaling_message}
use webrtc_peerconnection_cl.SignalClient.Url.{
  ParsedUrl, UrlResult, parsed_url, bad_url, parse_url, handshake_target,
}

-- `observer_says`: a call on the observer. `escapes`: an exception of the codec leaves the handler or the
-- operation.
pub data Request (Wire : Type 0) : Type 0 where
  observer_says : SignalCall → Request Wire
  close_sockets connect_socket start_read : Request Wire
  resolve : String → String → Request Wire
  handshake : String → String → Request Wire
  start_write post_message : Wire → Request Wire
  wait_ms : ℕ → Request Wire
  escapes : Request Wire

-- `transport`: the resolver, the websocket and the reconnect timer are there.
pub record SignalClient (Wire : Type 0) : Type 0 where
  pub observer : Bool
  pub server_url : String
  pub client_id : String
  pub is_connected : Bool
  pub manual_disconnect : Bool
  pub reconnect_attempts : ℕ
  pub ice_servers : List IceServerConfig
  pub impl : Bool
  pub transport : Bool
  pub url : ParsedUrl
  pub write_queue : List Wire

abbrev pub max_reconnect_attempts : ℕ
max_reconnect_attempts = 5

-- `std::min(1000 * (1 << (attempts - 1)), 10000)`
abbrev pub reconnect_delay : ℕ → ℕ
reconnect_delay attempts = let d = 1000 * 2 ^ (attempts - 1) in if leb d 10000 then d else 10000

module _ (J : JsonLib) where
  open J use {Wire}

  abbrev pub Client : Type 0
  Client = SignalClient Wire

  abbrev pub ClientAct : Type 0
  ClientAct = Act Client (Request Wire)

  abbrev pub tell : SignalCall → ClientAct
  tell call s = when s.observer (emit (observer_says call)) s

  unfoldable pub report_connection_error : String → ClientAct
  report_connection_error error = tell (connection_error_call error)

  unfoldable pub report_disconnected : ClientAct
  report_disconnected s =
      (when (s.observer && s.is_connected) (emit (observer_says disconnected_call)))
        (record s { is_connected = false })

  unfoldable pub close_transport : ClientAct
  close_transport s =
      if not s.impl
      then (s, [])
      else (when s.transport (emit close_sockets))
          (record s { transport = false; write_queue = [] })

  recreate_transport : Client → Client
  recreate_transport s = record s { transport = true; write_queue = [] }

  unfoldable pub attempt_reconnect : ClientAct
  attempt_reconnect s =
      if s.manual_disconnect || leb max_reconnect_attempts s.reconnect_attempts
      then (s, [])
      else (when (s.impl && s.transport)
            (emit (wait_ms (reconnect_delay (suc s.reconnect_attempts)))))
          (record s { reconnect_attempts = suc s.reconnect_attempts })

  unfoldable pub connect_on_io_thread : ClientAct
  unfolding close_transport recreate_transport report_connection_error
  connect_on_io_thread = close_transport ⨾ modify recreate_transport ⨾ λ s.
      elim (parse_url s.server_url) [
        | bad_url what ↦ report_connection_error what s
        | parsed_url host port target ↦ (
          record s { url = record { host = host; port = port; target = target } },
          resolve host port ∷ [],
        )
      ]

  unfoldable pub connect : String → String → ClientAct
  unfolding connect_on_io_thread
  connect server_url client_id s = connect_on_io_thread (record s {
    server_url = server_url;
    client_id = client_id;
    manual_disconnect = false;
    reconnect_attempts = 0;
    impl = true;
  })

  unfoldable pub disconnect : ClientAct
  unfolding close_transport report_disconnected
  disconnect s =
      (close_transport ⨾ report_disconnected)
        (record s { manual_disconnect = true; reconnect_attempts = 0 })

  -- `QueueJsonMessage`, and the task that it posts.
  unfoldable pub queue_json_message : Wire → ClientAct
  queue_json_message message s = when s.impl (emit (post_message message)) s

  -- A built message is queued, or the exception of the building leaves the caller (`false`).
  unfoldable pub queue_built : Option Wire → Client → Bool × (Client × List (Request Wire))
  unfolding queue_json_message
  queue_built none s = (false, (s, escapes ∷ []))
  queue_built (some message) s = (true, queue_json_message message s)

  unfoldable pub write_next_message : ClientAct
  write_next_message s = elim s.write_queue [
    | [] ↦ (s, [])
    | m ∷ ms ↦ when (s.impl && s.transport) (emit (start_write m)) s
  ]

  unfoldable pub message_posted : Wire → ClientAct
  unfolding write_next_message
  message_posted message s = if not s.impl || not s.transport then (s, []) else elim s.write_queue [
    | [] ↦ write_next_message (record s { write_queue = message ∷ [] })
    | m ∷ ms ↦ (record s { write_queue = s.write_queue ++ message ∷ [] }, [])
  ]

  -- The three reports of a failed read or write.
  unfoldable pub lose_connection : String → ClientAct
  unfolding report_connection_error report_disconnected attempt_reconnect
  lose_connection error = report_connection_error error ⨾ report_disconnected ⨾ attempt_reconnect

  unfoldable pub written : Option String → ClientAct
  unfolding lose_connection write_next_message
  written (some error) s = lose_connection (text_append "Write failed: " error) s
  written none s = elim s.write_queue [
    | [] ↦ (s, [])
    | m ∷ ms ↦ write_next_message (record s { write_queue = ms })
  ]

  -- A failed step of connecting; `what` is "Resolve", "Connect" or "Handshake".
  unfoldable pub step_failed : String → String → ClientAct
  unfolding report_connection_error attempt_reconnect
  step_failed what error =
      report_connection_error (text_append what (text_append " failed: " error)) ⨾ attempt_reconnect

  unfoldable pub resolved : ClientAct
  resolved = emit connect_socket

  -- The connected socket asks for the handshake.
  unfoldable pub socket_connected : ClientAct
  socket_connected s = (
    s,
    handshake (text_append s.url.host (text_append ":" s.url.port))
          (handshake_target s.url.target s.client_id)
        ∷ [],
  )

  abbrev pub start_read_next : ClientAct
  start_read_next s = when (s.impl && s.transport) (emit start_read) s

  unfoldable pub register : ClientAct
  unfolding queue_built build_register_message
  register s =
      let (returns, r) = queue_built (build_register_message J s.client_id) s in
      ((λ d. r) ⨾ when returns start_read_next) s

  unfoldable pub handshaken : ClientAct
  unfolding register
  handshaken s =
      (tell (connected_call s.client_id) ⨾ register)
        (record s { is_connected = true; reconnect_attempts = 0 })

  unfoldable pub says_all : List SignalCall → List (Request Wire)
  says_all [] = []
  says_all (c ∷ cs) = observer_says c ∷ says_all cs

  -- It returns, or the exception leaves it (`false`).
  unfoldable pub finish_message :
      SignalMessageDispatchOutcome → Client → Bool × (Client × List (Request Wire))
  unfolding report_connection_error queue_built build_list_clients_message
  finish_message outcome s =
      let kept : Client = record s {
        ice_servers = if outcome.has_ice_servers then outcome.ice_servers else s.ice_servers;
      } in
      if not outcome.success
      then (true, report_connection_error outcome.error s)
      else if outcome.request_client_list
      then queue_built (build_list_clients_message J s.client_id) kept
      else (true, (kept, []))

  -- It returns, or the exception leaves it (`false`).
  unfoldable pub handle_incoming_message : Wire → Client → Bool × (Client × List (Request Wire))
  unfolding finish_message says_all
  handle_incoming_message message s =
      if not s.observer then (true, (s, [])) else elim (dispatch_signaling_message J true message) [
        | threw ↦ (false, (s, escapes ∷ []))
        | returned_false error ↦ (true, (s, []))
        | returned result ↦
            let (returns, finished) = finish_message result.0 s in
            (returns, ((λ d. (d, says_all result.1)) ⨾ λ d. finished) s)
      ]

  unfoldable pub message_read : Wire → ClientAct
  unfolding handle_incoming_message
  message_read message s =
      let (returns, (s', requests)) = handle_incoming_message message s in
      ((λ d. (d, requests)) ⨾ when returns start_read_next) s'

  unfoldable pub read_failed : String → ClientAct
  unfolding lose_connection
  read_failed error = lose_connection (text_append "Read failed: " error)

  -- What may happen on the io thread.
  pub data Event : Type 0 where
    connects : String → String → Event
    disconnects timer_fires resolves socket_connects handshakes : Event
    posts message_posts reads : Wire → Event
    writes : Option String → Event
    step_fails : String → String → Event
    read_fails : String → Event

  unfoldable pub step : Event → ClientAct
  unfolding connect disconnect connect_on_io_thread resolved socket_connected handshaken
      queue_json_message message_posted message_read written step_failed read_failed
  step (connects server_url client_id) = connect server_url client_id
  step disconnects = disconnect
  step timer_fires = connect_on_io_thread
  step resolves = resolved
  step socket_connects = socket_connected
  step handshakes = handshaken
  step (posts message) = queue_json_message message
  step (message_posts message) = message_posted message
  step (reads message) = message_read message
  step (writes error) = written error
  step (step_fails what error) = step_failed what error
  step (read_fails error) = read_failed error

  unfoldable pub run : List Event → ClientAct
  run [] = skip
  run (e ∷ es) = step e ⨾ run es
