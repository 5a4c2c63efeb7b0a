-- ===== src/PeerConnectionClient/SignOut.antt =====
-- How a session with the server ends, and what is lost on the way (src/peer_connection_client.cc).
use webrtc_peerconnection_cl.Prelude.{
  ℕ, ◌+◌, ◌^◌, ◌<◌, ◌≡◌, ◌≢◌, refl, Bool, true, false, some, List, [], ◌∷◌, ◌++◌, ℤ, pos, drop,
  if◌then◌else◌, arith, append_nil,
}
use webrtc_peerconnection_cl.PeerConnectionClient.Text.{Bytes, int_eq}
use webrtc_peerconnection_cl.PeerConnectionClient.Response.{
  complete, asks_to_close, response_status, pragma_of,
}
use webrtc_peerconnection_cl.PeerConnectionClient.Control.{
  is_in, sign_in_request, send_to_peer, connect_control_socket, on_close, retry, do_connect,
  on_connect, has_id,
}
use webrtc_peerconnection_cl.PeerConnectionClient.Reading.{
  append_all, start_waiting, after_read, on_read,
}
use webrtc_peerconnection_cl.PeerConnectionClient.Listing.{
  Listed, IsListed, listing, others, announced, insert_all,
}
use webrtc_peerconnection_cl.PeerConnectionClient.SignIn.{
  closing, complete-header_end, read-complete, answer-first,
}
use webrtc_peerconnection_cl.PeerConnectionClient.Events.{
  sends, closes, retry_due, connected_control, step, run,
}
use webrtc_peerconnection_cl.PeerConnectionClient.{
  signing_in, connected, signing_out_waiting, not_connected, closed, opened, control_socket,
  hanging_get, connection_refused, Call, signed_in, disconnected, socket_closes, socket_connects,
  socket_sends, thread_quits, thread_restarts, thread_starts, retry_posted, sockets_created, Client,
  minus_one,
}

-- Everything of the session forgotten, but the unfinished responses of both sockets.
abbrev pub ended : Client → Client
ended c = record c {
  state = not_connected;
  control = closed;
  hanging = closed;
  resolver = false;
  onconnect_data = [];
  peers = [];
  my_id = minus_one;
}

abbrev pub ending_calls : List Call
ending_calls = socket_closes control_socket ∷ socket_closes hanging_get ∷ disconnected ∷ []

-- A sign-out while the answer to the request that signs in is still awaited is lost: when that
-- answer comes, complete and in order, the client takes its number and tells the observer that it
-- is signed in; it stays in the state in which it waits to sign out, and it neither signs out nor
-- waits for notifications.
pub on_read-sign_out_lost :
    (connects reconnects : Bool) (chunks : List Bytes) (c : Client) (eoh n id : ℕ)
    (ps : List Listed) (b : Bool)
    → c.state ≡ signing_out_waiting
    → c.my_id ≡ minus_one
    → c.control ≡ opened
    → complete (append_all c.control_data chunks) ≡ some (eoh, n)
    → asks_to_close (append_all c.control_data chunks) eoh ≡ b
    → n ≢ 0
    → response_status (append_all c.control_data chunks) ≡ pos 200
    → pragma_of (append_all c.control_data chunks) eoh ≡ id
    → id < 2 ^ 31
    → drop (eoh + 4) (append_all c.control_data chunks) ≡ listing ps
    → IsListed ps
    → on_read connects reconnects chunks c ≡ (
      record c {
        my_id = pos id;
        peers = insert_all (others (pos id) ps) c.peers;
        control_data = [];
        control = if b then closed else opened;
      },
      closing b ++ (announced (others (pos id) ps) ++ signed_in ∷ []),
    )
unfolding on_read after_read start_waiting
on_read-sign_out_lost connects reconnects chunks c eoh n id ps b s fresh o whole asks n0 ok pragma
      small body named =
    let text = append_all c.control_data chunks in
    let read = record c { control_data = text; control = if b then closed else opened } in
    let found = complete-header_end text eoh n whole in
    let answered =
      answer-first connects read eoh n id ps fresh n0 ok found pragma small body named in
    let waiting : is_in signing_in c ≡ false = ground arith in
    rw
      (
        on_read,
        read-complete connects chunks c eoh n b o whole asks,
        after_read,
        answered,
        start_waiting,
        waiting,
        append_nil (announced (others (pos id) ps) ++ signed_in ∷ []),
      )
      refl

-- When the connection for a message to a peer is refused, the message is lost: the retry signs in
-- again, under the client's number, which it keeps.
pub refused_send-lost :
    (b : Bool) (peer_id : ℤ) (message : Bytes) (c : Client)
    → c.state ≡ connected
    → has_id c ≡ true
    → int_eq peer_id minus_one ≡ false
    → c.control ≡ closed
    → let history =
        sends true peer_id message
        ∷ closes b control_socket connection_refused
        ∷ retry_due true
        ∷ connected_control
        ∷ [] in
      let r = run history c in
      (r.0.state ≡ signing_in)
      × (r.0.my_id ≡ c.my_id)
      × (r.0.onconnect_data ≡ [])
      × (r.1
          ≡ socket_connects control_socket
            ∷ thread_quits
            ∷ thread_restarts
            ∷ socket_closes control_socket
            ∷ retry_posted
            ∷ sockets_created
            ∷ socket_connects control_socket
            ∷ thread_starts
            ∷ socket_sends control_socket (sign_in_request c.client_name)
            ∷ [])
unfolding run step send_to_peer connect_control_socket on_close retry do_connect on_connect
refused_send-lost b peer_id message c s n p o = ground arith
