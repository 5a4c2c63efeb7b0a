-- ===== src/SignalClient/Reconnect.antt =====
-- When the client tries to connect again (src/signalclient.cc).
use webrtc_peerconnection_cl.Prelude.{
  ℕ, zero, suc, ◌≤◌, ◌<◌, ◌≡◌, refl, ◌∙◌, String, true, false, none, some, when, List, [], ◌∷◌,
  ◌++◌, leb, text_append, if◌then◌else◌, arith,
}
use webrtc_peerconnection_cl.Json.{JsonLib}
use webrtc_peerconnection_cl.Codec.Parse.{CodecResult, returned, returned_false, threw}
use webrtc_peerconnection_cl.Coordinator.Signals.{SignalCall}
use webrtc_peerconnection_cl.Dispatcher.{SignalMessageDispatchOutcome, dispatch_signaling_message}
use webrtc_peerconnection_cl.SignalClient.{
  says_all, finish_message, handle_incoming_message, start_read_next, Request, wait_ms, Client,
  Event, connects, disconnects, timer_fires, resolves, socket_connects, handshakes, posts,
  message_posts, reads, writes, step_fails, read_fails, step, run, reconnect_delay,
  max_reconnect_attempts, connect_on_io_thread, step_failed, connect, disconnect, handshaken,
  message_read, message_posted, written, read_failed, attempt_reconnect, lose_connection,
  socket_connected, queue_json_message, queue_built, register,
}

reconnect_delay-bounds :
    (n : ℕ) → n < 5 → (1000 ≤ reconnect_delay (suc n)) × (reconnect_delay (suc n) ≤ 10000)
reconnect_delay-bounds zero h = (ground arith, ground arith)
reconnect_delay-bounds (suc zero) h = (ground arith, ground arith)
reconnect_delay-bounds (suc (suc zero)) h = (ground arith, ground arith)
reconnect_delay-bounds (suc (suc (suc zero))) h = (ground arith, ground arith)
reconnect_delay-bounds (suc (suc (suc (suc zero)))) h = (ground arith, ground arith)
reconnect_delay-bounds (suc (suc (suc (suc (suc n))))) h = absurd (ground arith)

-- The planned delay after a number of attempts: doubled each time, ten seconds at most.
abbrev pub planned : ℕ → ℕ
planned zero = 1000
planned (suc zero) = 2000
planned (suc (suc zero)) = 4000
planned (suc (suc (suc zero))) = 8000
planned (suc (suc (suc (suc n)))) = 10000

reconnect_delay-planned : (n : ℕ) → n < 5 → reconnect_delay (suc n) ≡ planned n
reconnect_delay-planned zero h = refl
reconnect_delay-planned (suc zero) h = refl
reconnect_delay-planned (suc (suc zero)) h = refl
reconnect_delay-planned (suc (suc (suc zero))) h = refl
reconnect_delay-planned (suc (suc (suc (suc zero)))) h = refl
reconnect_delay-planned (suc (suc (suc (suc (suc n))))) h = absurd (ground arith)

module _ (J : JsonLib) where
  open J use {Wire}

  abbrev pub waits_of : List (Request Wire) → List ℕ
  waits_of [] = []
  waits_of (wait_ms d ∷ rs) = d ∷ waits_of rs
  waits_of (_ ∷ rs) = waits_of rs

  waits-append : (xs ys : List (Request Wire)) → waits_of (xs ++ ys) ≡ waits_of xs ++ waits_of ys
  waits-append [] ys = refl
  waits-append (x ∷ xs) ys = ground (arith, waits-append xs ys)

  -- Steps of connecting that fail, each followed by the running out of the reconnect timer.
  abbrev pub failures : List (String × String) → List (Event J)
  failures [] = []
  failures (f ∷ fs) = step_fails f.0 f.1 ∷ timer_fires ∷ failures fs

  -- The delays that are waited for, from a number of attempts on.
  abbrev pub schedule : ℕ → List (String × String) → List ℕ
  schedule n [] = []
  schedule n (f ∷ fs) =
      let rest = schedule (suc n) fs in
      let over = schedule n fs in if leb max_reconnect_attempts n then over else planned n ∷ rest

  fail-waits :
      (what error : String) (s : Client J)
      → s.impl ≡ true
      → s.transport ≡ true
      → s.manual_disconnect ≡ false
      → let r = step J (step_fails what error) s in
        (r.0.impl ≡ true)
        × (r.0.manual_disconnect ≡ false)
        × (r.0.reconnect_attempts ≡ (
            if leb max_reconnect_attempts s.reconnect_attempts
            then s.reconnect_attempts
            else suc s.reconnect_attempts))
        × (waits_of r.1 ≡ (
            if leb max_reconnect_attempts s.reconnect_attempts
            then []
            else reconnect_delay (suc s.reconnect_attempts) ∷ []))
  unfolding step step_failed
  fail-waits what error s i t m = ground arith

  timer-waits :
      (s : Client J)
      → s.impl ≡ true
      → let r = step J timer_fires s in
        (r.0.impl ≡ true)
        × (r.0.transport ≡ true)
        × (r.0.manual_disconnect ≡ s.manual_disconnect)
        × (r.0.reconnect_attempts ≡ s.reconnect_attempts)
        × (waits_of r.1 ≡ [])
  unfolding step connect_on_io_thread
  timer-waits s i = ground arith

  -- While connecting fails and the timer keeps running out, the client waits once before each new
  -- attempt, with the scheduled delays, and gives up for good after the fifth attempt. The
  -- connection starts with its transport there, and the user has not disconnected.
  pub run-schedule :
      (fs : List (String × String)) (s : Client J)
      → s.impl ≡ true
      → s.transport ≡ true
      → s.manual_disconnect ≡ false
      → waits_of (run J (failures fs) s).1 ≡ schedule s.reconnect_attempts fs
  unfolding run
  run-schedule [] s i t m = refl
  run-schedule (f ∷ fs) s i t m =
      let a = (step J (step_fails f.0 f.1) s).0 in
      let x = (step J (step_fails f.0 f.1) s).1 in
      let b = (step J timer_fires a).0 in
      let y = (step J timer_fires a).1 in
      let z = (run J (failures fs) b).1 in
      let h = fail-waits f.0 f.1 s i t m in
      let k = timer-waits a h.0 in
      let rest = run-schedule fs b k.0 k.1 (k.2 ∙ h.1) in
      ground (
        arith,
        waits-append x (y ++ z),
        waits-append y z,
        h,
        k,
        rest,
        reconnect_delay-planned s.reconnect_attempts,
      )

  abbrev pub AllBounded : List ℕ → Type 0
  AllBounded [] = Unit {0}
  AllBounded (d ∷ ds) = (1000 ≤ d) × (d ≤ 10000) × AllBounded ds

  both-AllBounded : (xs ys : List ℕ) → AllBounded xs → AllBounded ys → AllBounded (xs ++ ys)
  both-AllBounded [] ys v w = w
  both-AllBounded (x ∷ xs) ys v w = (v.0, v.1, both-AllBounded xs ys v.2 w)

  attempt-bounded :
      (s : Client J)
      → s.reconnect_attempts ≤ 5
      → let r = attempt_reconnect J s in (r.0.reconnect_attempts ≤ 5) × AllBounded (waits_of r.1)
  unfolding attempt_reconnect
  attempt-bounded s n = ground (arith, reconnect_delay-bounds s.reconnect_attempts)

  lose-bounded :
      (error : String) (s : Client J)
      → s.reconnect_attempts ≤ 5
      → let r = lose_connection J error s in
        (r.0.reconnect_attempts ≤ 5) × AllBounded (waits_of r.1)
  unfolding lose_connection
  lose-bounded error s n = ground (arith, reconnect_delay-bounds s.reconnect_attempts)

  says-waits : (cs : List SignalCall) → waits_of (says_all J cs) ≡ []
  unfolding says_all
  says-waits [] = refl
  says-waits (c ∷ cs) = says-waits cs

  finish-waits :
      (o : SignalMessageDispatchOutcome) (s : Client J)
      → (waits_of (finish_message J o s).1.1 ≡ [])
        × ((finish_message J o s).1.0.reconnect_attempts ≡ s.reconnect_attempts)
  unfolding finish_message queue_built
  finish-waits o s = ground arith

  read-waits :
      (d : CodecResult (SignalMessageDispatchOutcome × List SignalCall)) (message : Wire)
      (s : Client J)
      → dispatch_signaling_message J true message ≡ d
      → let r = handle_incoming_message J message s in
        (waits_of r.1.1 ≡ []) × (r.1.0.reconnect_attempts ≡ s.reconnect_attempts)
  unfolding handle_incoming_message
  read-waits threw message s e = ground (arith, e)
  read-waits (returned_false error) message s e = ground (arith, e)
  read-waits (returned o) message s e = ground (
    arith,
    e,
    says-waits o.1,
    finish-waits o.0 s,
    waits-append (says_all J o.1) (finish_message J o.0 s).1.1,
  )

  step-bounded :
      (e : Event J) (s : Client J)
      → s.reconnect_attempts ≤ 5
      → let r = step J e s in (r.0.reconnect_attempts ≤ 5) × AllBounded (waits_of r.1)
  unfolding step
  step-bounded (connects server_url client_id) s n = unfold connect in ground arith
  step-bounded disconnects s n = unfold disconnect in ground arith
  step-bounded timer_fires s n = unfold connect_on_io_thread in ground arith
  step-bounded resolves s n = ground arith
  step-bounded socket_connects s n = unfold socket_connected in ground arith
  step-bounded handshakes s n = unfold handshaken register queue_built in ground arith
  step-bounded (posts message) s n = unfold queue_json_message in ground arith
  step-bounded (message_posts message) s n = unfold message_posted in ground arith
  step-bounded (reads message) s n =
      let r = handle_incoming_message J message s in
      let w = when r.0 (start_read_next J) r.1.0 in
      unfold message_read in
      ground (
        arith,
        read-waits (dispatch_signaling_message J true message) message s refl,
        waits-append r.1.1 w.1,
      )
  step-bounded (writes (some error)) s n =
      unfold written in lose-bounded (text_append "Write failed: " error) s n
  step-bounded (writes none) s n = unfold written in ground arith
  step-bounded (step_fails what error) s n =
      unfold step_failed in ground (arith, reconnect_delay-bounds s.reconnect_attempts)
  step-bounded (read_fails error) s n =
      unfold read_failed in lose-bounded (text_append "Read failed: " error) s n

  -- Over any events, from at most five attempts on: there are never more than five attempts since
  -- the last success, and every delay that is waited for lies between one and ten seconds.
  pub run-bounded :
      (es : List (Event J)) (s : Client J)
      → s.reconnect_attempts ≤ 5
      → let r = run J es s in (r.0.reconnect_attempts ≤ 5) × AllBounded (waits_of r.1)
  unfolding run
  run-bounded [] s n = (n, tt)
  run-bounded (e ∷ es) s n =
      let r = step J e s in
      let h = step-bounded e s n in
      let rest = run-bounded es r.0 h.0 in
      (
        rest.0,
        rw (waits-append r.1 (run J es r.0).1)
            (both-AllBounded (waits_of r.1) (waits_of (run J es r.0).1) h.1 rest.1),
      )
