-- ===== src/PeerConnectionClient/SignIn.antt =====
-- Signing in: the response to the first request (src/peer_connection_client.cc).
use webrtc_peerconnection_cl.Prelude.{
  ℕ, ◌+◌, ◌^◌, ◌<◌, ◌≡◌, ◌≢◌, refl, Bool, true, false, some, List, [], ◌∷◌, ◌++◌, pos, ◌==◌,
  if◌then◌else◌, drop, arith, append_assoc,
}
use webrtc_peerconnection_cl.PeerConnectionClient.Text.{Bytes, int_eq, to_int, find}
use webrtc_peerconnection_cl.PeerConnectionClient.Response.{
  complete, asks_to_close, response_status, pragma_of, header_end,
}
use webrtc_peerconnection_cl.PeerConnectionClient.Control.{on_close}
use webrtc_peerconnection_cl.PeerConnectionClient.Reading.{
  append_all, first_response, on_read, read_into_buffer, check_buffer, check_found, if_parsed,
  after_read, answer, start_waiting, parse_server_response, on_response,
}
use webrtc_peerconnection_cl.PeerConnectionClient.{
  signing_in, connected, opened, closed, control_socket, socket_closes, message_sent, hanging_get,
  Call, signed_in, socket_connects, Client, minus_one,
}
use webrtc_peerconnection_cl.PeerConnectionClient.Listing.{
  Listed, IsListed, listing, others, announced, insert_all, add_listed-lines,
}

to_int-small : (n : ℕ) → n < 2 ^ 31 → to_int n ≡ pos n
unfolding to_int
to_int-small n h = ground arith

pub complete-header_end :
    (text : Bytes) (eoh n : ℕ) → complete text ≡ some (eoh, n) → find header_end text ≡ some eoh
unfolding complete
complete-header_end text eoh n h = ground arith

-- What the connection's closing adds.
abbrev pub closing : Bool → List Call
closing true =
    socket_closes control_socket ∷ socket_closes control_socket ∷ message_sent (pos 0) ∷ []
closing false = []

pub read-complete :
    (connects : Bool) (chunks : List Bytes) (c : Client) (eoh n : ℕ) (b : Bool)
    → c.control ≡ opened
    → complete (append_all c.control_data chunks) ≡ some (eoh, n)
    → asks_to_close (append_all c.control_data chunks) eoh ≡ b
    → read_into_buffer connects control_socket chunks c ≡ (
      some n,
      (
        record c {
          control_data = append_all c.control_data chunks;
          control = if b then closed else opened;
        },
        closing b,
      ),
    )
unfolding read_into_buffer check_buffer check_found
read-complete connects chunks c eoh n true o h k =
    rw (read_into_buffer, check_buffer, h, check_found, k) (unfold on_close in ground arith)
read-complete connects chunks c eoh n false o h k =
    rw (read_into_buffer, check_buffer, h, check_found, k) (ground arith)

pub parse-ok :
    (text : Bytes) (c : Client) (eoh id : ℕ)
    → response_status text ≡ pos 200
    → find header_end text ≡ some eoh
    → pragma_of text eoh ≡ id
    → parse_server_response text c ≡ (some (id, eoh), (c, []))
unfolding parse_server_response
parse-ok text c eoh id ok found pragma = rw (parse_server_response, ok, found, pragma) refl

first_response-listing :
    (c : Client) (text : Bytes) (eoh n id : ℕ) (ps : List Listed)
    → n ≢ 0
    → id < 2 ^ 31
    → drop (eoh + 4) text ≡ listing ps
    → IsListed ps
    → first_response n id eoh text c ≡ (
      record c { my_id = pos id; peers = insert_all (others (pos id) ps) c.peers },
      announced (others (pos id) ps) ++ signed_in ∷ [],
    )
unfolding first_response
first_response-listing c text eoh n id ps n0 small body named =
    let some_length : (n == 0) ≡ false = ground (arith, n0) in
    rw
      (
        first_response,
        some_length,
        body,
        to_int-small id small,
        add_listed-lines ps (record c { my_id = pos id }) named,
      )
      refl

on_response-first :
    (connects : Bool) (n id eoh : ℕ) (c : Client)
    → c.my_id ≡ minus_one
    → on_response connects n id eoh c ≡ first_response n id eoh c.control_data c
unfolding on_response
on_response-first connects n id eoh c fresh =
    let unset : int_eq c.my_id minus_one ≡ true = ground (arith, fresh) in
    rw (on_response, unset) refl

-- The answer to the request that signs in.
pub answer-first :
    (connects : Bool) (c : Client) (eoh n id : ℕ) (ps : List Listed)
    → c.my_id ≡ minus_one
    → n ≢ 0
    → response_status c.control_data ≡ pos 200
    → find header_end c.control_data ≡ some eoh
    → pragma_of c.control_data eoh ≡ id
    → id < 2 ^ 31
    → drop (eoh + 4) c.control_data ≡ listing ps
    → IsListed ps
    → answer connects n c ≡ (
      record c { my_id = pos id; peers = insert_all (others (pos id) ps) c.peers },
      announced (others (pos id) ps) ++ signed_in ∷ [],
    )
unfolding answer if_parsed
answer-first connects c eoh n id ps fresh n0 ok found pragma small body named =
    rw
      (
        answer,
        parse-ok c.control_data c eoh id ok found pragma,
        if_parsed,
        on_response-first connects n id eoh c fresh,
        first_response-listing c c.control_data eoh n id ps n0 small body named,
      )
      refl

pub start_waiting-signing_in :
    (c : Client)
    → c.state ≡ signing_in
    → c.hanging ≡ closed
    → start_waiting true c
      ≡ (record c { state = connected; hanging = opened }, socket_connects hanging_get ∷ [])
unfolding start_waiting
start_waiting-signing_in c s h = ground arith

-- While the client signs in, a complete response with status 200 whose `Pragma` header has its new
-- number and whose body lists clients, in any number of pieces, connects it: it takes the number; it
-- tells the observer of the listed clients but itself, in their order, and then that it is signed
-- in; it keeps them as its peers; and it starts to wait for notifications. If the response asks for
-- it, the connection is closed before. The announced length is not zero, the names are not empty
-- and have no comma and no line feed, and the numbers are `int`s.
pub on_read-signed_in :
    (connects : Bool) (chunks : List Bytes) (c : Client) (eoh n id : ℕ) (ps : List Listed)
    (b : Bool)
    → c.state ≡ signing_in
    → c.my_id ≡ minus_one
    → c.control ≡ opened
    → c.hanging ≡ closed
    → complete (append_all c.control_data chunks) ≡ some (eoh, n)
    → asks_to_close (append_all c.control_data chunks) eoh ≡ b
    → n ≢ 0
    → response_status (append_all c.control_data chunks) ≡ pos 200
    → pragma_of (append_all c.control_data chunks) eoh ≡ id
    → id < 2 ^ 31
    → drop (eoh + 4) (append_all c.control_data chunks) ≡ listing ps
    → IsListed ps
    → on_read connects true chunks c ≡ (
      record c {
        state = connected;
        my_id = pos id;
        peers = insert_all (others (pos id) ps) c.peers;
        control_data = [];
        control = if b then closed else opened;
        hanging = opened;
      },
      closing b ++ (announced (others (pos id) ps) ++ signed_in ∷ socket_connects hanging_get ∷ []),
    )
unfolding on_read after_read
on_read-signed_in connects chunks c eoh n id ps b s fresh o cl whole k n0 ok pragma small body
      named =
    let text = append_all c.control_data chunks in
    let read = record c { control_data = text; control = if b then closed else opened } in
    let found = complete-header_end text eoh n whole in
    let answered =
      answer-first connects read eoh n id ps fresh n0 ok found pragma small body named in
    let incoming = read-complete connects chunks c eoh n b o whole k in
    let last = record read {
      my_id = pos id;
      peers = insert_all (others (pos id) ps) c.peers;
      control_data = [];
    } in
    rw
      (
        on_read,
        incoming,
        after_read,
        answered,
        start_waiting-signing_in last s cl,
        append_assoc (announced (others (pos id) ps)) (signed_in ∷ [])
            (socket_connects hanging_get ∷ []),
      )
      refl
