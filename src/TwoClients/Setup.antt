-- ===== src/TwoClients/Setup.antt =====
-- A call between two clients, from the call managers of src/callmanager.cc through the messages and
-- back.
use mathlib.Core.Path.{subst}
use webrtc_peerconnection_cl.Prelude.{
  ◌≡◌, ◌≢◌, refl, sym, ap, ◌∙◌, String, Bool, true, false, List, [], ◌∷◌, ℤ, arith, eq_iff,
  append_nil, some, str_eq,
}
use webrtc_peerconnection_cl.Json.{JsonLib}
use webrtc_peerconnection_cl.CallManager.{
  CallState, calling, set_call_state, start_timer, finish_response, idle, receiving, connecting,
  Effect, send_call_request, send_call_response, call_state_changed, call_accepted,
  need_create_peer_connection, Manager, initiate_call, accept_call, handle_call_request,
  handle_call_response,
}
use webrtc_peerconnection_cl.Codec.RoundTrip.{
  Sent, sent_request, sent_response, build, Names, CanBeWritten,
}
use webrtc_peerconnection_cl.Dispatcher.Delivery.{arrival, meant_dispatched}
use webrtc_peerconnection_cl.Codec.Parse.{returned}
use webrtc_peerconnection_cl.Dispatcher.{success_outcome, dispatch_signaling_message}
use webrtc_peerconnection_cl.TwoClients.Relay.{on_message}
use webrtc_peerconnection_cl.TwoClients.Relay.Passing.{build_then_relay}
use webrtc_peerconnection_cl.TwoClients.{
  set_up, send_first, wires, receive_wire, take_wire, take_wires, manager_call, manager_calls,
}

module _ (J : JsonLib) where
  -- Both clients are named, and their names and the message can be written.
  abbrev pub CanPass : String → String → Sent → Type 0
  CanPass from to s = (from ≢ "") × (to ≢ "") × Names J from to × CanBeWritten J s

  -- What the server makes of a built message arrives as one call.
  pub relayed_call :
      (from to : String) (s : Sent)
      → CanPass from to s
      → (w w' : J.Wire) × (build J from to s ≡ some w)
        × (on_message J from w ≡ some (to, w'))
        × (dispatch_signaling_message J true w' ≡ returned (success_outcome, arrival from s ∷ []))
  unfolding dispatch_signaling_message
  relayed_call from to s can =
      let (w, w', built, passed, read) = build_then_relay J from to s can.0 can.1 can.2 can.3 in
      (w, w', built, passed, meant_dispatched J from s w' read)

  -- A message reaches the call manager of its addressee as one call.
  one_wire :
      (from to : String) (s : Sent) (m : Manager)
      → CanPass from to s
      → take_wires J from to (send_first J (build J from to s) []) m
        ≡ manager_call (arrival from s) m
  unfolding take_wires take_wire receive_wire manager_calls
  one_wire from to s m can =
      let r = manager_call (arrival from s) m in
      let (w, w', built, passed, dispatched) = relayed_call from to s can in
      let addressed : str_eq to to ≡ true = ground (arith, eq_iff to to) in
      simp
        (
          built,
          send_first,
          take_wires,
          take_wire,
          receive_wire,
          passed,
          addressed,
          dispatched,
          manager_calls,
          append_nil r.1,
        )
        refl

  pub delivered :
      (from to : String) (s : Sent) (m : Manager) {ws : List J.Wire}
      → CanPass from to s
      → ws ≡ send_first J (build J from to s) []
      → take_wires J from to ws m ≡ manager_call (arrival from s) m
  delivered from to s m can e =
      ap (λ list. take_wires J from to list m) e ∙ one_wire from to s m can

-- The part of a call manager that a call is about.
abbrev pub InCall : CallState → String → String → Bool → Manager → Type 0
InCall state peer call_id is_caller m =
    (m.call_state ≡ state)
    × (m.current_peer ≡ peer)
    × (m.current_call_id ≡ call_id)
    × (m.is_caller ≡ is_caller)
    × (m.observer ≡ true)
    × (m.has_transport ≡ true)

initiate-InCall :
    (bob call_id : String) (a : Manager)
    → a.call_state ≡ idle
    → a.observer ≡ true
    → a.has_transport ≡ true
    → let r = (initiate_call true bob call_id a).1 in
      InCall calling bob call_id true r.0
      × (r.1 ≡ call_state_changed calling bob ∷ send_call_request bob call_id ∷ [])
unfolding initiate_call set_call_state start_timer
initiate-InCall bob call_id a i o t = ground arith

request-InCall :
    (alice call_id : String) (b : Manager)
    → call_id ≢ ""
    → b.call_state ≡ idle
    → b.observer ≡ true
    → b.has_transport ≡ true
    → InCall receiving alice call_id false (handle_call_request alice call_id b).0
unfolding handle_call_request
request-InCall alice call_id b n i o t = ground (arith, eq_iff call_id "")

accept-InCall :
    (alice call_id : String) (b : Manager)
    → InCall receiving alice call_id false b
    → let r = accept_call b in
      InCall connecting alice call_id false r.0
      × (r.1
          ≡ send_call_response alice call_id true ""
            ∷ call_state_changed connecting alice
            ∷ need_create_peer_connection alice false
            ∷ [])
unfolding accept_call set_call_state
accept-InCall alice call_id b h = ground arith

response-InCall :
    (bob call_id : String) (a : Manager)
    → call_id ≢ ""
    → InCall calling bob call_id true a
    → let r = handle_call_response bob call_id true "" a in
      InCall connecting bob call_id true r.0
      × (r.1
          ≡ call_state_changed connecting bob
            ∷ call_accepted bob
            ∷ need_create_peer_connection bob true
            ∷ [])
unfolding handle_call_response finish_response
response-InCall bob call_id a n h =
    ground (arith, eq_iff call_id "", eq_iff a.current_peer bob, eq_iff a.current_call_id call_id)

module _ (J : JsonLib) where
  -- The callee, after the caller's request.
  rings-InCall :
      (now_ms : ℤ) (alice bob call_id : String) (b : Manager) (es : List Effect)
      → CanPass J alice bob (sent_request now_ms call_id)
      → call_id ≢ ""
      → b.call_state ≡ idle
      → b.observer ≡ true
      → b.has_transport ≡ true
      → es ≡ call_state_changed calling bob ∷ send_call_request bob call_id ∷ []
      → InCall receiving alice call_id false (take_wires J alice bob (wires J now_ms alice es) b).0
  unfolding wires build manager_call
  rings-InCall now_ms alice bob call_id b es can n i o t e =
      let rung =
        delivered J alice bob (sent_request now_ms call_id) b can (ap (wires J now_ms alice) e) in
      subst (λ r. InCall receiving alice call_id false r.0) (sym rung)
        (request-InCall alice call_id b n i o t)

  -- The caller, after the callee's answer.
  answered-InCall :
      (now_ms : ℤ) (alice bob call_id : String) (a : Manager) (es : List Effect)
      → CanPass J bob alice (sent_response call_id true "")
      → call_id ≢ ""
      → InCall calling bob call_id true a
      → es
        ≡ send_call_response alice call_id true ""
          ∷ call_state_changed connecting alice
          ∷ need_create_peer_connection alice false
          ∷ []
      → let r = take_wires J bob alice (wires J now_ms bob es) a in
        InCall connecting bob call_id true r.0
        × (r.1
            ≡ call_state_changed connecting bob
              ∷ call_accepted bob
              ∷ need_create_peer_connection bob true
              ∷ [])
  unfolding wires build manager_call
  answered-InCall now_ms alice bob call_id a es can n h e =
      let answer =
        delivered J bob alice (sent_response call_id true "") a can (ap (wires J now_ms bob) e) in
      subst
        (λ r.
          InCall connecting bob call_id true r.0
          × (r.1
              ≡ call_state_changed connecting bob
                ∷ call_accepted bob
                ∷ need_create_peer_connection bob true
                ∷ []))
        (sym answer) (response-InCall bob call_id a n h)

  pub set_up-InCall :
      (now_ms : ℤ) (alice bob call_id : String) (a b : Manager)
      → CanPass J alice bob (sent_request now_ms call_id)
      → CanPass J bob alice (sent_response call_id true "")
      → call_id ≢ ""
      → InCall idle a.current_peer a.current_call_id a.is_caller a
      → InCall idle b.current_peer b.current_call_id b.is_caller b
      → let r = set_up J now_ms alice bob call_id a b in
        (InCall connecting bob call_id true r.0.0
          × (r.0.1
              ≡ call_state_changed connecting bob
                ∷ call_accepted bob
                ∷ need_create_peer_connection bob true
                ∷ []))
        × (InCall connecting alice call_id false r.1.0
            × (r.1.1
                ≡ send_call_response alice call_id true ""
                  ∷ call_state_changed connecting alice
                  ∷ need_create_peer_connection alice false
                  ∷ []))
  unfolding set_up
  set_up-InCall now_ms alice bob call_id a b there back n ha hb =
      let calls = initiate-InCall bob call_id a ha.0 ha.4 ha.5 in
      let rings = rings-InCall now_ms alice bob call_id b _ there n hb.0 hb.4 hb.5 calls.1 in
      let accepts = accept-InCall alice call_id _ rings in
      (answered-InCall now_ms alice bob call_id _ _ back n calls.0 accepts.1, accepts)
