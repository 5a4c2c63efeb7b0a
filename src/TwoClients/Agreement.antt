-- ===== src/TwoClients/Agreement.antt =====
-- A call between two clients from the request to the end, in the call managers of both
-- (src/callmanager.cc, with the messages of src/signalclient.cc).
use webrtc_peerconnection_cl.Prelude.{
  ◌≡◌, ◌≢◌, refl, ap, ◌∙◌, String, Bool, true, false, [], ◌∷◌, ℤ, arith, eq_iff,
}
use webrtc_peerconnection_cl.Json.{JsonLib, is_signed}
use webrtc_peerconnection_cl.CallManager.{
  cleanup_call, idle, connecting, send_call_response, send_call_end, call_state_changed,
  call_accepted, call_ended, need_create_peer_connection, need_close_peer_connection, Manager,
  end_call, handle_call_end,
}
use webrtc_peerconnection_cl.Codec.RoundTrip.{sent_end, build, Names}
use webrtc_peerconnection_cl.TwoClients.Setup.{CanPass, InCall, delivered, set_up-InCall}
use webrtc_peerconnection_cl.TwoClients.{set_up, hang_up, wires, manager_call}

end-idle :
    (bob call_id : String) (is_caller : Bool) (a : Manager)
    → bob ≢ ""
    → InCall connecting bob call_id is_caller a
    → let r = end_call a in
      (r.0.call_state ≡ idle)
      × (r.1
          ≡ send_call_end bob call_id "hangup"
            ∷ need_close_peer_connection
            ∷ call_ended bob "hangup"
            ∷ call_state_changed idle ""
            ∷ [])
unfolding end_call cleanup_call
end-idle bob call_id is_caller a n h = ground (arith, eq_iff bob "")

ended-idle :
    (alice call_id : String) (is_caller : Bool) (b : Manager)
    → call_id ≢ ""
    → InCall connecting alice call_id is_caller b
    → let r = handle_call_end alice call_id "hangup" b in
      (r.0.call_state ≡ idle)
      × (r.1
          ≡ call_ended alice "hangup"
            ∷ need_close_peer_connection
            ∷ call_state_changed idle ""
            ∷ [])
unfolding handle_call_end cleanup_call
ended-idle alice call_id is_caller b n h =
    ground (arith, eq_iff call_id "", eq_iff b.current_peer alice, eq_iff b.current_call_id call_id)

module _ (J : JsonLib) where
  hang_up-idle :
      (now_ms : ℤ) (alice bob call_id : String) (c d : Bool) (a b : Manager)
      → CanPass J alice bob (sent_end call_id "hangup")
      → call_id ≢ ""
      → InCall connecting bob call_id c a
      → InCall connecting alice call_id d b
      → let r = hang_up J now_ms alice bob a b in
        (r.0.0.call_state ≡ idle)
        × (r.1.0.call_state ≡ idle)
        × (r.1.1
            ≡ call_ended alice "hangup"
              ∷ need_close_peer_connection
              ∷ call_state_changed idle ""
              ∷ [])
  unfolding hang_up wires build manager_call
  hang_up-idle now_ms alice bob call_id c d a b can n ha hb =
      let ends = end-idle bob call_id c a can.1 ha in
      let told =
        delivered J alice bob (sent_end call_id "hangup") b can
          (ap (wires J now_ms alice) ends.1) in
      let ended = ended-idle alice call_id d b n hb in
      (ends.0, ap (λ r. r.0.call_state) told ∙ ended.0, ap (λ r. r.1) told ∙ ended.1)

  -- When an idle client with an observer and a transport calls another such client under a call
  -- identifier that is not empty and the other accepts, then after the three messages on their way
  -- (request, response, and the end) past the server, which passes each on to its addressee alone,
  -- the clients agree: before the end both are connecting, each
  -- with the other as its peer, under the same identifier, in opposite roles, and each was told
  -- last to create its peer connection in that role; and whichever of the two then hangs up, both
  -- are idle again, and the one that did not hang up is told of the end and to close its
  -- connection. The names of both are not empty; they and the identifier
  -- are UTF-8, and the time is a number of 64 bits.
  pub call_agreed :
      (now_ms : ℤ) (alice bob call_id : String) (a b : Manager)
      → call_id ≢ ""
      → alice ≢ ""
      → bob ≢ ""
      → Names J alice bob
      → J.is_utf8 call_id ≡ true
      → is_signed 64 now_ms ≡ true
      → (a.call_state ≡ idle) × (a.observer ≡ true) × (a.has_transport ≡ true)
      → (b.call_state ≡ idle) × (b.observer ≡ true) × (b.has_transport ≡ true)
      → let r = set_up J now_ms alice bob call_id a b in
        let by_caller = hang_up J now_ms alice bob r.0.0 r.1.0 in
        let by_callee = hang_up J now_ms bob alice r.1.0 r.0.0 in
        InCall connecting bob call_id true r.0.0
        × InCall connecting alice call_id false r.1.0
        × (r.0.1
            ≡ call_state_changed connecting bob
              ∷ call_accepted bob
              ∷ need_create_peer_connection bob true
              ∷ [])
        × (r.1.1
            ≡ send_call_response alice call_id true ""
              ∷ call_state_changed connecting alice
              ∷ need_create_peer_connection alice false
              ∷ [])
        × (by_caller.0.0.call_state ≡ idle)
        × (by_caller.1.0.call_state ≡ idle)
        × (by_caller.1.1
            ≡ call_ended alice "hangup"
              ∷ need_close_peer_connection
              ∷ call_state_changed idle ""
              ∷ [])
        × (by_callee.0.0.call_state ≡ idle)
        × (by_callee.1.0.call_state ≡ idle)
        × (by_callee.1.1
            ≡ call_ended bob "hangup"
              ∷ need_close_peer_connection
              ∷ call_state_changed idle ""
              ∷ [])
  call_agreed now_ms alice bob call_id a b n na nb names id now ha hb =
      let back : Names J bob alice = (names.1, names.0) in
      let plain = J.is_utf8-ascii "" refl in
      let hangup = J.is_utf8-ascii "hangup" refl in
      let s =
        set_up-InCall J now_ms alice bob call_id a b (na, nb, names, (id, now))
          (nb, na, back, (id, plain)) n (ha.0, refl, refl, refl, ha.1, ha.2)
          (hb.0, refl, refl, refl, hb.1, hb.2) in
      let x =
        hang_up-idle now_ms alice bob call_id true false _ _ (na, nb, names, (id, hangup)) n s.0.0
          s.1.0 in
      let y =
        hang_up-idle now_ms bob alice call_id false true _ _ (nb, na, back, (id, hangup)) n s.1.0
          s.0.0 in
      (s.0.0, s.1.0, s.0.1, s.1.1, x.0, x.1, x.2, y.0, y.1, y.2)
