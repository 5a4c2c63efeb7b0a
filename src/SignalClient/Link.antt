-- ===== src/SignalClient/Link.antt =====
-- What the observer knows of the connection (src/signalclient.cc).
use webrtc_peerconnection_cl.Prelude.{
  ◌≡◌, refl, ap, ◌∙◌, Bool, true, false, Option, none, some, when, List, [], ◌∷◌, ◌++◌, arith,
  if◌then◌else◌,
}
use webrtc_peerconnection_cl.Json.{JsonLib}
use webrtc_peerconnection_cl.Codec.{ParsedSignalingMessage}
use webrtc_peerconnection_cl.Codec.Parse.{
  CodecResult, returned, returned_false, threw, parse_signaling_message,
}
use webrtc_peerconnection_cl.Dispatcher.{
  observer_calls, SignalMessageDispatchOutcome, dispatch_signaling_message,
}
use webrtc_peerconnection_cl.Coordinator.Signals.{SignalCall, connected_call, disconnected_call}
use webrtc_peerconnection_cl.SignalClient.{
  Request, observer_says, says_all, Client, Event, connects, disconnects, timer_fires, resolves,
  socket_connects, handshakes, posts, message_posts, reads, writes, step_fails, read_fails, step,
  run, connect_on_io_thread, step_failed, connect, disconnect, handshaken, message_read,
  message_posted, written, read_failed, handle_incoming_message, finish_message, start_read_next,
  socket_connected, queue_json_message, queue_built, register,
}

-- The connection as the observer was told of it; `none` once it was told of the loss of a
-- connection that it did not know of.
abbrev pub heard : SignalCall → Bool → Option Bool
heard (connected_call client_id) b = some true
heard disconnected_call b = if b then some false else none
heard _ b = some b

module _ (J : JsonLib) where
  open J use {Wire}

  abbrev pub link : List (Request Wire) → Option Bool → Option Bool
  link rs none = none
  link [] (some b) = some b
  link (observer_says c ∷ rs) (some b) = link rs (heard c b)
  link (_ ∷ rs) (some b) = link rs (some b)

  link-append :
      (xs ys : List (Request Wire)) (b : Option Bool) → link (xs ++ ys) b ≡ link ys (link xs b)
  link-append xs ys none = refl
  link-append [] ys (some b) = refl
  link-append (observer_says c ∷ xs) ys (some b) = link-append xs ys (heard c b)
  link-append (x ∷ xs) ys (some b) = link-append xs ys (some b)

  -- A parsed message says nothing of the connection.
  link-parsed :
      (m : ParsedSignalingMessage) (b : Bool)
      → link (says_all J (observer_calls m)) (some b) ≡ some b
  unfolding observer_calls says_all
  link-parsed m b = ground arith

  abbrev calls_of : CodecResult (SignalMessageDispatchOutcome × List SignalCall) → List SignalCall
  calls_of (returned o) = o.1
  calls_of (returned_false error) = []
  calls_of threw = []

  dispatch-link :
      (p : CodecResult ParsedSignalingMessage) (w : Wire) (b : Bool)
      → parse_signaling_message J w ≡ p
      → link (says_all J (calls_of (dispatch_signaling_message J true w))) (some b) ≡ some b
  unfolding dispatch_signaling_message says_all
  dispatch-link (returned m) w b e = rw (dispatch_signaling_message, e) (link-parsed m b)
  dispatch-link (returned_false error) w b e = rw (dispatch_signaling_message, e) refl
  dispatch-link threw w b e = rw (dispatch_signaling_message, e) refl

  finish-link :
      (o : SignalMessageDispatchOutcome) (s : Client J) (b : Bool)
      → let r = (finish_message J o s).1 in
        (link r.1 (some b) ≡ some b)
        × (r.0.observer ≡ s.observer)
        × (r.0.is_connected ≡ s.is_connected)
  unfolding finish_message queue_built
  finish-link o s b = ground arith

  read-link :
      (d : CodecResult (SignalMessageDispatchOutcome × List SignalCall)) (message : Wire)
      (s : Client J) (b : Bool)
      → dispatch_signaling_message J true message ≡ d
      → link (says_all J (calls_of d)) (some b) ≡ some b
      → let r = handle_incoming_message J message s in
        (link r.1.1 (some b) ≡ some b)
        × (r.1.0.observer ≡ s.observer)
        × (r.1.0.is_connected ≡ s.is_connected)
  unfolding handle_incoming_message
  read-link threw message s b e h = ground (arith, e)
  read-link (returned_false error) message s b e h = ground (arith, e)
  read-link (returned o) message s b e h = ground (
    arith,
    e,
    h,
    finish-link o.0 s b,
    link-append (says_all J o.1) (finish_message J o.0 s).1.1 (some b),
  )

  step-link :
      (e : Event J) (s : Client J)
      → s.observer ≡ true
      → let r = step J e s in
        (r.0.observer ≡ true) × (link r.1 (some s.is_connected) ≡ some r.0.is_connected)
  unfolding step
  step-link (connects server_url client_id) s o = unfold connect in ground arith
  step-link disconnects s o = unfold disconnect in ground arith
  step-link timer_fires s o = unfold connect_on_io_thread in ground arith
  step-link resolves s o = ground arith
  step-link socket_connects s o = unfold socket_connected in ground arith
  step-link handshakes s o = unfold handshaken register queue_built in ground arith
  step-link (posts message) s o = unfold queue_json_message in ground arith
  step-link (message_posts message) s o = unfold message_posted in ground arith
  step-link (reads message) s o =
      let r = handle_incoming_message J message s in
      let w = when r.0 (start_read_next J) r.1.0 in
      let d = dispatch_signaling_message J true message in
      let b = s.is_connected in
      unfold message_read in
      ground (
        arith,
        read-link d message s b refl
            (dispatch-link (parse_signaling_message J message) message b refl),
        link-append r.1.1 w.1 (some b),
      )
  step-link (writes (some error)) s o = unfold written in ground arith
  step-link (writes none) s o = unfold written in ground arith
  step-link (step_fails what error) s o = unfold step_failed in ground arith
  step-link (read_fails error) s o = unfold read_failed in ground arith

  -- While an observer is registered, over any events: what the observer was last told of the
  -- connection, connected or lost, is what `IsConnected` answers, and it is told of a loss only
  -- when it knew the client to be connected.
  pub run-link :
      (es : List (Event J)) (s : Client J)
      → s.observer ≡ true
      → link (run J es s).1 (some s.is_connected) ≡ some (run J es s).0.is_connected
  unfolding run
  run-link [] s o = refl
  run-link (e ∷ es) s o =
      let r = step J e s in
      let h = step-link e s o in
      link-append r.1 (run J es r.0).1 (some s.is_connected)
      ∙ (ap (link (run J es r.0).1) h.1 ∙ run-link es r.0 h.0)
