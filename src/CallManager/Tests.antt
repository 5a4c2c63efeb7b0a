-- ===== src/CallManager/Tests.antt =====
-- The call manager at concrete inputs (src/callmanager.cc).
use webrtc_peerconnection_cl.Prelude.{
  ◌≡◌, ◌≢◌, inl, refl, String, true, false, none, some, List, [], ◌∷◌, arith, eq_iff,
}
use webrtc_peerconnection_cl.CallManager.{
  idle, calling, connecting, connected, Manager, new_manager, Event, set_signal_transport,
  register_observer, initiates, gets_response, establishes, ends, run, step, initiate_call,
  handle_call_response, handle_call_cancel, handle_call_end, timer_expires, end_call,
  notify_peer_connection_established, send_call_request, send_call_end, call_state_changed,
  call_accepted, need_create_peer_connection, need_close_peer_connection, call_ended, call_timeout,
}
use webrtc_peerconnection_cl.CallManager.Invariant.{Inv, run-new_manager-Inv}
use webrtc_peerconnection_cl.CallManager.View.{seen, view, run-seen}
use webrtc_peerconnection_cl.CallManager.Stale.{stale_ignored}
use webrtc_peerconnection_cl.CallManager.Timer.{
  observed_manager, expires_calling, rejected_unobserved_stuck,
}

abbrev calling_bob : Manager
calling_bob = record {
  has_transport = true;
  observer = true;
  call_state = calling;
  current_peer = "bob";
  current_call_id = "c1";
  is_caller = true;
  timer = some 1;
  timer_generation = 1;
}

-- A whole call of the caller's side.
abbrev whole_call : List Event
whole_call =
    set_signal_transport true
    ∷ register_observer true
    ∷ initiates true "bob" "c1"
    ∷ gets_response "bob" "c1" true ""
    ∷ establishes
    ∷ ends
    ∷ []

abbrev start_of_call : List Event
start_of_call = set_signal_transport true ∷ initiates true "bob" "c1" ∷ []

abbrev first_id : String
first_id = "c1"

c1_named : first_id ≢ ""
c1_named = ground (arith, eq_iff first_id "")

run-new_manager-Inv_example : Inv (run whole_call new_manager).0
run-new_manager-Inv_example =
    run-new_manager-Inv whole_call (tt, (tt, (c1_named, (tt, (tt, (tt, tt))))))

run-seen_example :
    seen (run whole_call observed_manager).1 (view observed_manager)
    ≡ view (run whole_call observed_manager).0
unfolding run step
run-seen_example =
    run-seen whole_call observed_manager (tt, (tt, (c1_named, (tt, (tt, (tt, tt))))))
      (tt, (refl, (tt, (tt, (tt, (tt, tt)))))) refl
      (run-new_manager-Inv (register_observer true ∷ []) (tt, tt))

stale_ignored_example :
    (handle_call_response "eve" "c1" true "" calling_bob ≡ (calling_bob, []))
    × (handle_call_cancel "eve" "c1" "" calling_bob ≡ (calling_bob, []))
    × (handle_call_end "eve" "c1" "" calling_bob ≡ (calling_bob, []))
stale_ignored_example =
    stale_ignored "eve" "c1" "" true calling_bob (inl (ground (arith, eq_iff "bob" "eve")))

expires_calling_example :
    let m = (run start_of_call observed_manager).0 in
    let r = timer_expires m in
    (r.1 ≡ call_timeout ∷ call_state_changed idle "" ∷ [])
    × (r.0.call_state ≡ idle)
    × (r.0.current_peer ≡ "")
    × (r.0.current_call_id ≡ "")
unfolding run step initiate_call
expires_calling_example = expires_calling start_of_call (tt, (tt, tt)) refl

abbrev answered : Manager
answered = record calling_bob { call_state = connected }

abbrev unobserved : Manager
unobserved = record calling_bob { observer = false }

rejected_unobserved_stuck_example :
    let m' = (handle_call_response "bob" "c1" false "rejected" unobserved).0 in
    (m'.call_state ≡ calling)
    × ((timer_expires m').0.call_state ≡ calling)
    × ((timer_expires m').0.timer ≡ none)
rejected_unobserved_stuck_example =
    rejected_unobserved_stuck "c1" "rejected" unobserved refl refl refl c1_named refl (ground arith)

whole_call_effects :
    (run whole_call new_manager).1
    ≡ call_state_changed calling "bob"
      ∷ send_call_request "bob" "c1"
      ∷ call_state_changed connecting "bob"
      ∷ call_accepted "bob"
      ∷ need_create_peer_connection "bob" true
      ∷ call_state_changed connected "bob"
      ∷ call_accepted "bob"
      ∷ send_call_end "bob" "c1" "hangup"
      ∷ need_close_peer_connection
      ∷ call_ended "bob" "hangup"
      ∷ call_state_changed idle ""
      ∷ []
unfolding run step initiate_call handle_call_response notify_peer_connection_established end_call
whole_call_effects = refl
