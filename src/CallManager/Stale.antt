-- ===== src/CallManager/Stale.antt =====
-- Messages of another call, and requests to a busy client (src/callmanager.cc).
use webrtc_peerconnection_cl.Prelude.{
  ◌≡◌, ◌≢◌, ◌⊎◌, String, Bool, true, false, [], ◌∷◌, arith, eq_iff,
}
use webrtc_peerconnection_cl.CallManager.{
  CallState, idle, receiving, connecting, connected, calling, Manager, send_call_response,
  call_state_changed, call_rejected, call_cancelled, call_ended, need_close_peer_connection,
  handle_call_request, handle_call_response, handle_call_cancel, handle_call_end, call_accepted,
  need_create_peer_connection,
}

-- A response, a cancellation or an end that comes from another peer than the current one, or
-- carries another call identifier or none, changes nothing and calls nobody.
pub stale_ignored :
    (from call_id reason : String) (accepted : Bool) (m : Manager)
    → (m.current_peer ≢ from) ⊎ (m.current_call_id ≢ call_id) ⊎ (call_id ≡ "")
    → (handle_call_response from call_id accepted reason m ≡ (m, []))
      × (handle_call_cancel from call_id reason m ≡ (m, []))
      × (handle_call_end from call_id reason m ≡ (m, []))
unfolding handle_call_response handle_call_cancel handle_call_end
stale_ignored from call_id reason accepted m h = (
  ground (arith, eq_iff m.current_peer from, eq_iff m.current_call_id call_id, eq_iff call_id ""),
  ground (arith, eq_iff m.current_peer from, eq_iff m.current_call_id call_id, eq_iff call_id ""),
  ground (arith, eq_iff m.current_peer from, eq_iff m.current_call_id call_id, eq_iff call_id ""),
)

-- With a transport, a call request with an identifier, at a client in a call, leaves the
-- client as it is and is answered by one refusal with reason "busy" that names that request; a
-- request with no identifier is dropped.
pub busy_refused :
    (from call_id : String) (m : Manager)
    → m.has_transport ≡ true
    → m.call_state ≢ idle
    → call_id ≢ ""
    → (handle_call_request from call_id m ≡ (m, send_call_response from call_id false "busy" ∷ []))
      × (handle_call_request from "" m ≡ (m, []))
unfolding handle_call_request
busy_refused from call_id m t b n =
    (ground (arith, eq_iff call_id ""), ground (arith, eq_iff "" ""))

abbrev pub in_state : CallState → Manager → Manager
in_state s m = record m { call_state = s; observer = true }

-- What a message of the current call does, with an observer and a call identifier that is not
-- empty. An accepted response in `calling` asks for a peer connection as the caller and leads
-- to `connecting`; a refused one, a cancellation in `receiving`, and an end in `connected`
-- lead to `idle`. The list is what the observer is told.
pub current_handled :
    (reason : String) (m : Manager)
    → m.current_call_id ≢ ""
    → let peer = m.current_peer in
      let call_id = m.current_call_id in
      let accepted = handle_call_response peer call_id true reason (in_state calling m) in
      let refused = handle_call_response peer call_id false reason (in_state calling m) in
      let cancelled = handle_call_cancel peer call_id reason (in_state receiving m) in
      let ended = handle_call_end peer call_id reason (in_state connected m) in
      (accepted.0.call_state ≡ connecting)
      × (accepted.1
          ≡ call_state_changed connecting peer
            ∷ call_accepted peer
            ∷ need_create_peer_connection peer true
            ∷ [])
      × (refused.0.call_state ≡ idle)
      × (refused.1
          ≡ call_state_changed idle peer
            ∷ call_rejected peer reason
            ∷ call_state_changed idle ""
            ∷ [])
      × (cancelled.0.call_state ≡ idle)
      × (cancelled.1 ≡ call_cancelled peer reason ∷ call_state_changed idle "" ∷ [])
      × (ended.0.call_state ≡ idle)
      × (ended.1
          ≡ call_ended peer reason ∷ need_close_peer_connection ∷ call_state_changed idle "" ∷ [])
unfolding handle_call_response handle_call_cancel handle_call_end
current_handled reason m n = ground (
  arith,
  eq_iff m.current_peer m.current_peer,
  eq_iff m.current_call_id m.current_call_id,
  eq_iff m.current_call_id "",
)
