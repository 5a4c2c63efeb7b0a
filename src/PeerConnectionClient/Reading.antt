-- ===== src/PeerConnectionClient/Reading.antt =====
-- src/peer_connection_client.cc: reading from the two sockets. `chunks` is what `Recv` returns until it
-- returns nothing; `connects` and `reconnects` are the answers of `Connect`.
use webrtc_peerconnection_cl.Prelude.{
  ℕ, ◌+◌, Bool, not, ◌&&◌, Option, none, some, List, [], ◌∷◌, ◌++◌, ℤ, pos, ◌==◌, if◌then◌else◌,
  drop, skip, emit, when, modify, ◌⨾◌,
}
use webrtc_peerconnection_cl.PeerConnectionClient.Text.{Bytes, int_eq, to_int, find}
use webrtc_peerconnection_cl.PeerConnectionClient.Response.{
  header_end, complete, asks_to_close, parse_entry, response_status, pragma_of, lines,
}
use webrtc_peerconnection_cl.PeerConnectionClient.Control.{
  is_in, close, on_close, sign_out, on_message_from_peer,
}
use webrtc_peerconnection_cl.PeerConnectionClient.{
  connected, signing_in, signing_out_waiting, signing_out, Which, control_socket, hanging_get,
  other_error, Call, signed_in, disconnected, peer_connected, peer_disconnected, Client, minus_one,
  is_open, ClientAct, connect_socket, close_socket, go_on,
}

abbrev pub buffer : Which → Client → Bytes
buffer control_socket c = c.control_data
buffer hanging_get c = c.notification_data

abbrev pub set_buffer : Which → Bytes → Client → Client
set_buffer control_socket text c = record c { control_data = text }
set_buffer hanging_get text c = record c { notification_data = text }

abbrev pub append_all : Bytes → List Bytes → Bytes
append_all text [] = text
append_all text (chunk ∷ chunks) = append_all (text ++ chunk) chunks

-- The part after the loop, with what `complete` finds in the text; the content length is `some` if
-- the whole response has been read.
unfoldable pub check_found :
    Bool → Which → Bytes → Client → Option (ℕ × ℕ) → Option ℕ × (Client × List Call)
unfolding on_close
check_found connects w text c none = (none, (set_buffer w text c, []))
check_found connects w text c (some found) = (
  some found.1,
  (when (asks_to_close text found.0) (close_socket w ⨾ on_close connects w (other_error (pos 0))))
      (set_buffer w text c),
)

unfoldable pub check_buffer : Bool → Which → Bytes → Client → Option ℕ × (Client × List Call)
unfolding check_found
check_buffer connects w text c = check_found connects w text c (complete text)

unfoldable pub read_into_buffer :
    Bool → Which → List Bytes → Client → Option ℕ × (Client × List Call)
unfolding check_buffer
read_into_buffer connects w chunks c = check_buffer connects w (append_all (buffer w c) chunks) c

-- `ParseServerResponse`: the number of the peer, and where the headers end.
unfoldable pub parse_server_response : Bytes → Client → Option (ℕ × ℕ) × (Client × List Call)
unfolding close header_end
parse_server_response response c =
    if not (int_eq (response_status response) (pos 200))
    then (none, (close ⨾ emit disconnected) c)
    else (
      elim (find header_end response) [
        | none ↦ none
        | some eoh ↦ some (pragma_of response eoh, eoh)
      ],
      (c, []),
    )

-- `peers_[id] = name` and `peers_.erase(id)`
unfoldable pub insert_peer : ℤ → Bytes → List (ℤ × Bytes) → List (ℤ × Bytes)
insert_peer id name [] = (id, name) ∷ []
insert_peer id name ((j, old) ∷ peers) =
    let rest = insert_peer id name peers in
    if int_eq j id then (id, name) ∷ peers else (j, old) ∷ rest

unfoldable pub erase_peer : ℤ → List (ℤ × Bytes) → List (ℤ × Bytes)
erase_peer id [] = []
erase_peer id ((j, old) ∷ peers) =
    let rest = erase_peer id peers in if int_eq j id then rest else (j, old) ∷ rest

unfoldable pub add_peer : ℤ → Bytes → ClientAct
unfolding insert_peer
add_peer id name =
    modify (λ c. record c { peers = insert_peer id name c.peers }) ⨾ emit (peer_connected id name)

-- The peers that are listed in the body of the first response.
unfoldable pub add_listed : List Bytes → ClientAct
unfolding add_peer
add_listed [] = skip
add_listed (line ∷ rest) =
    (λ c.
      let (ok, entry) = parse_entry line in
      (when (ok && not (int_eq entry.id c.my_id)) (add_peer entry.id entry.name)) c)
    ⨾ add_listed rest

unfoldable pub first_response : ℕ → ℕ → ℕ → Bytes → ClientAct
unfolding add_listed
first_response content_length peer_id eoh text =
    modify (λ c. record c { my_id = to_int peer_id })
    ⨾ when (not (content_length == 0)) (add_listed (lines (drop (eoh + 4) text)))
    ⨾ emit signed_in

-- `OnRead` on a response that is complete and in order.
unfoldable pub on_response : Bool → ℕ → ℕ → ℕ → ClientAct
unfolding first_response close sign_out
on_response connects content_length peer_id eoh c =
    if int_eq c.my_id minus_one
    then first_response content_length peer_id eoh c.control_data c
    else if is_in signing_out c
    then (close ⨾ emit disconnected) c
    else if is_in signing_out_waiting c
    then (sign_out connects c).1
    else (c, [])

-- What is done with a response that was parsed.
unfoldable pub if_parsed :
    (ℕ × ℕ → ClientAct) → Option (ℕ × ℕ) × (Client × List Call) → Client × List Call
if_parsed act (none, parsed) = parsed
if_parsed act (some found, parsed) = go_on parsed (act found)

unfoldable pub answer : Bool → ℕ → ClientAct
unfolding parse_server_response on_response if_parsed
answer connects content_length c =
    if_parsed (λ found. on_response connects content_length found.0 found.1)
      (parse_server_response c.control_data c)

unfoldable pub start_waiting : Bool → ClientAct
start_waiting reconnects c =
    (when (is_in signing_in c)
        (modify (λ d. record d { state = connected }) ⨾ connect_socket hanging_get reconnects))
      c

unfoldable pub after_read : Bool → Bool → Option ℕ × (Client × List Call) → Client × List Call
unfolding answer start_waiting
after_read connects reconnects (none, read) = read
after_read connects reconnects (some content_length, read) = go_on read (
    answer connects content_length
    ⨾ modify (λ d. record d { control_data = [] })
    ⨾ start_waiting reconnects)

unfoldable pub on_read : Bool → Bool → List Bytes → ClientAct
unfolding read_into_buffer after_read
on_read connects reconnects chunks c =
    after_read connects reconnects (read_into_buffer connects control_socket chunks c)

-- A notification about another client, or a message from one.
unfoldable pub notified : ℕ → Bytes → ClientAct
unfolding add_peer erase_peer on_message_from_peer
notified peer_id body c =
    let (ok, entry) = parse_entry body in
    if int_eq c.my_id (to_int peer_id)
    then (when ok (
          if entry.is_connected
          then add_peer entry.id entry.name
          else modify (λ d. record d { peers = erase_peer entry.id d.peers })
            ⨾ emit (peer_disconnected entry.id)))
        c
    else on_message_from_peer (to_int peer_id) body c

unfoldable pub notification : ClientAct
unfolding parse_server_response notified if_parsed
notification c =
    if_parsed (λ found. notified found.0 (drop (found.1 + 4) c.notification_data))
      (parse_server_response c.notification_data c)

unfoldable pub wait_again : Bool → ClientAct
wait_again reconnects c =
    (when (not (is_open c.hanging) && is_in connected c) (connect_socket hanging_get reconnects)) c

unfoldable pub after_hanging_get_read : Bool → Option ℕ × (Client × List Call) → Client × List Call
unfolding notification wait_again
after_hanging_get_read reconnects (none, read) = go_on read (wait_again reconnects)
after_hanging_get_read reconnects (some content_length, read) =
    go_on read
      (notification ⨾ modify (λ d. record d { notification_data = [] }) ⨾ wait_again reconnects)

unfoldable pub on_hanging_get_read : Bool → Bool → List Bytes → ClientAct
unfolding read_into_buffer after_hanging_get_read
on_hanging_get_read connects reconnects chunks c =
    after_hanging_get_read reconnects (read_into_buffer connects hanging_get chunks c)
