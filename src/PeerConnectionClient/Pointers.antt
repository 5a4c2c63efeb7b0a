-- ===== src/PeerConnectionClient/Pointers.antt =====
-- No history of the older client follows a null pointer, but a sign-out while it resolves the
-- server's name (src/peer_connection_client.cc).
use webrtc_peerconnection_cl.Prelude.{
  ℕ, ◌+◌, if◌then◌else◌, refl, Bool, true, false, not, ◌&&◌, Option, none, some, List, [], ◌∷◌, ℤ,
  pos, ◌==◌, drop, arith, ◌⨾◌, when, emit, modify,
}
use webrtc_peerconnection_cl.PeerConnectionClient.Text.{Bytes, int_eq, to_int}
use webrtc_peerconnection_cl.PeerConnectionClient.Response.{
  parse_entry, complete, asks_to_close, lines, same_text,
}
use webrtc_peerconnection_cl.PeerConnectionClient.Control.{
  is_in, close, on_message_from_peer, on_close, bye_message,
}
use webrtc_peerconnection_cl.PeerConnectionClient.Reading.{
  append_all, buffer, set_buffer, check_found, if_parsed, check_buffer, read_into_buffer,
  parse_server_response, add_peer, add_listed, first_response, on_response, answer, start_waiting,
  after_read, on_read, notified, notification, erase_peer, wait_again, after_hanging_get_read,
  on_hanging_get_read,
}
use webrtc_peerconnection_cl.PeerConnectionClient.Sockets.{
  if-Good, if-Keeps, HasSockets, Good, Keeps, Good-go_on, seq-Keeps, when-Keeps, close_socket-Keeps,
  close-Keeps, sign_out-Good, on_close-Keeps,
}
use webrtc_peerconnection_cl.PeerConnectionClient.{
  Which, control_socket, hanging_get, other_error, disconnected, peer_disconnected,
  message_from_peer, signed_in, minus_one, signing_out, signing_out_waiting, Call, Client,
  ClientAct, close_socket,
}

set_buffer-HasSockets :
    (w : Which) (text : Bytes) (c : Client) → HasSockets c → HasSockets (set_buffer w text c)
set_buffer-HasSockets control_socket text c h = h
set_buffer-HasSockets hanging_get text c h = h

check_found-Good :
    (b : Bool) (w : Which) (text : Bytes) (c : Client) (o : Option (ℕ × ℕ))
    → HasSockets c
    → Good (check_found b w text c o).1
unfolding check_found
check_found-Good b w text c none h = (set_buffer-HasSockets w text c h, refl)
check_found-Good b w text c (some found) h =
    when-Keeps (asks_to_close text found.0) (close_socket w ⨾ on_close b w (other_error (pos 0)))
      (seq-Keeps (close_socket w) (on_close b w (other_error (pos 0))) (close_socket-Keeps w)
        (on_close-Keeps b w (other_error (pos 0))))
      (set_buffer w text c) (set_buffer-HasSockets w text c h)

read_into_buffer-Good :
    (b : Bool) (w : Which) (chunks : List Bytes) (c : Client)
    → HasSockets c
    → Good (read_into_buffer b w chunks c).1
unfolding read_into_buffer check_buffer
read_into_buffer-Good b w chunks c h =
    let text = append_all (buffer w c) chunks in check_found-Good b w text c (complete text) h

parse_server_response-Good :
    (text : Bytes) (c : Client) → HasSockets c → Good (parse_server_response text c).1
unfolding parse_server_response close
parse_server_response-Good text c h = ground arith

if_parsed-Good :
    (act : ℕ × ℕ → ClientAct) (r : Option (ℕ × ℕ) × (Client × List Call))
    → ((found : ℕ × ℕ) → Keeps (act found))
    → Good r.1
    → Good (if_parsed act r)
unfolding if_parsed
if_parsed-Good act (none, parsed) k h = h
if_parsed-Good act (some found, parsed) k h = Good-go_on parsed (act found) h (k found)

add_peer-Keeps : (id : ℤ) (name : Bytes) → Keeps (add_peer id name)
unfolding add_peer
add_peer-Keeps id name c h = ground arith

add_listed-Keeps : (ls : List Bytes) → Keeps (add_listed ls)
unfolding add_listed
add_listed-Keeps [] c h = (h, refl)
add_listed-Keeps (line ∷ ls) c h =
    let entry = (parse_entry line).1 in
    let add =
      when ((parse_entry line).0 && not (int_eq entry.id c.my_id)) (add_peer entry.id entry.name) in
    Good-go_on (add c) (add_listed ls)
      (when-Keeps ((parse_entry line).0 && not (int_eq entry.id c.my_id))
        (add_peer entry.id entry.name) (add_peer-Keeps entry.id entry.name) c h)
      (add_listed-Keeps ls)

first_response-Keeps :
    (n peer_id eoh : ℕ) (text : Bytes) → Keeps (first_response n peer_id eoh text)
unfolding first_response
first_response-Keeps n peer_id eoh text c h =
    let listed = add_listed (lines (drop (eoh + 4) text)) in
    seq-Keeps (when (not (n == 0)) listed) (emit signed_in)
      (when-Keeps (not (n == 0)) listed (add_listed-Keeps (lines (drop (eoh + 4) text))))
      (λ d k. (k, refl)) (record c { my_id = to_int peer_id }) h

on_response-Keeps : (b : Bool) (n peer_id eoh : ℕ) → Keeps (on_response b n peer_id eoh)
unfolding on_response
on_response-Keeps b n peer_id eoh c h =
    if-Good (int_eq c.my_id minus_one) _ _ (first_response-Keeps n peer_id eoh c.control_data c h) (
      if-Good (is_in signing_out c) _ _
        (seq-Keeps close (emit disconnected) close-Keeps (λ d k. (k, refl)) c h)
        (if-Good (is_in signing_out_waiting c) _ _ (sign_out-Good b c h) (h, refl)))

answer-Keeps : (b : Bool) (n : ℕ) → Keeps (answer b n)
unfolding answer
answer-Keeps b n c h =
    if_parsed-Good (λ found. on_response b n found.0 found.1)
      (parse_server_response c.control_data c) (λ found. on_response-Keeps b n found.0 found.1)
      (parse_server_response-Good c.control_data c h)

start_waiting-Keeps : (b : Bool) → Keeps (start_waiting b)
unfolding start_waiting
start_waiting-Keeps true c h = ground arith
start_waiting-Keeps false c h = ground arith

after_read-Good :
    (a b : Bool) (r : Option ℕ × (Client × List Call)) → Good r.1 → Good (after_read a b r)
unfolding after_read
after_read-Good a b (none, read) h = h
after_read-Good a b (some n, read) h =
    let clear = modify (λ d. record d { control_data = [] }) in
    Good-go_on read (answer a n ⨾ clear ⨾ start_waiting b) h (
      seq-Keeps (answer a n) (clear ⨾ start_waiting b) (answer-Keeps a n)
        (seq-Keeps clear (start_waiting b) (λ d k. (k, refl)) (start_waiting-Keeps b)))

pub on_read-Keeps : (a b : Bool) (chunks : List Bytes) → Keeps (on_read a b chunks)
unfolding on_read
on_read-Keeps a b chunks c h =
    after_read-Good a b (read_into_buffer a control_socket chunks c)
      (read_into_buffer-Good a control_socket chunks c h)

on_message_from_peer-Keeps :
    (peer_id : ℤ) (message : Bytes) → Keeps (on_message_from_peer peer_id message)
unfolding on_message_from_peer
on_message_from_peer-Keeps peer_id message =
    if-Keeps (same_text message bye_message) (emit (peer_disconnected peer_id))
      (emit (message_from_peer peer_id message)) (λ d k. (k, refl)) (λ d k. (k, refl))

notified-Keeps : (peer_id : ℕ) (body : Bytes) → Keeps (notified peer_id body)
unfolding notified
notified-Keeps peer_id body c h =
    let (ok, entry) = parse_entry body in
    let remove =
      modify (λ d. record d { peers = erase_peer entry.id d.peers })
      ⨾ emit (peer_disconnected entry.id) in
    let change = if entry.is_connected then add_peer entry.id entry.name else remove in
    if-Good (int_eq c.my_id (to_int peer_id)) _ _
      (when-Keeps ok change
        (if-Keeps entry.is_connected (add_peer entry.id entry.name) remove
          (add_peer-Keeps entry.id entry.name) (λ d k. (k, refl)))
        c h)
      (on_message_from_peer-Keeps (to_int peer_id) body c h)

notification-Keeps : Keeps notification
unfolding notification
notification-Keeps c h =
    if_parsed-Good (λ found. notified found.0 (drop (found.1 + 4) c.notification_data))
      (parse_server_response c.notification_data c)
      (λ found. notified-Keeps found.0 (drop (found.1 + 4) c.notification_data))
      (parse_server_response-Good c.notification_data c h)

wait_again-Keeps : (b : Bool) → Keeps (wait_again b)
unfolding wait_again
wait_again-Keeps true c h = ground arith
wait_again-Keeps false c h = ground arith

after_hanging_get_read-Good :
    (b : Bool) (r : Option ℕ × (Client × List Call)) → Good r.1 → Good (after_hanging_get_read b r)
unfolding after_hanging_get_read
after_hanging_get_read-Good b (none, read) h = Good-go_on read (wait_again b) h (wait_again-Keeps b)
after_hanging_get_read-Good b (some n, read) h =
    let clear = modify (λ d. record d { notification_data = [] }) in
    Good-go_on read (notification ⨾ clear ⨾ wait_again b) h (
      seq-Keeps notification (clear ⨾ wait_again b) notification-Keeps
        (seq-Keeps clear (wait_again b) (λ d k. (k, refl)) (wait_again-Keeps b)))

pub on_hanging_get_read-Keeps :
    (a b : Bool) (chunks : List Bytes) → Keeps (on_hanging_get_read a b chunks)
unfolding on_hanging_get_read
on_hanging_get_read-Keeps a b chunks c h =
    after_hanging_get_read-Good b (read_into_buffer a hanging_get chunks c)
      (read_into_buffer-Good a hanging_get chunks c h)
