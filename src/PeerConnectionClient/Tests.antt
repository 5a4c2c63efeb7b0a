-- ===== src/PeerConnectionClient/Tests.antt =====
-- The older client at concrete responses.
use webrtc_peerconnection_cl.Prelude.{
  ◌+◌, ◌≡◌, refl, true, none, some, List, [], ◌∷◌, ◌++◌, pos, ◌⨾◌, drop, arith,
}
use webrtc_peerconnection_cl.PeerConnectionClient.Text.{Bytes, codes, decimal}
use webrtc_peerconnection_cl.PeerConnectionClient.Response.{
  crlf, header_end, complete, asks_to_close, response_status, pragma_of, parse_entry,
}
use webrtc_peerconnection_cl.PeerConnectionClient.Control.{sign_in_request}
use webrtc_peerconnection_cl.PeerConnectionClient.Reading.{append_all, on_read, on_hanging_get_read}
use webrtc_peerconnection_cl.PeerConnectionClient.Entries.{entry_line, parse_entry-line}
use webrtc_peerconnection_cl.PeerConnectionClient.Listing.{
  Listed, IsListed, listing, others, announced, insert_all,
}
use webrtc_peerconnection_cl.PeerConnectionClient.SignIn.{closing, on_read-signed_in}
use webrtc_peerconnection_cl.PeerConnectionClient.SignOut.{on_read-sign_out_lost, refused_send-lost}
use webrtc_peerconnection_cl.PeerConnectionClient.Chunks.{on_read-joined}
use webrtc_peerconnection_cl.PeerConnectionClient.Events.{
  Event, connects_to, sends, closes, retry_due, connected_control, run,
}
use webrtc_peerconnection_cl.PeerConnectionClient.{
  signing_in, connected, signing_out, signing_out_waiting, opened, closed, control_socket,
  hanging_get, connection_refused, signed_in, socket_connects, socket_closes, socket_sends,
  thread_quits, thread_restarts, thread_starts, retry_posted, sockets_created, Client, new_client,
}

abbrev al : Bytes
al = 97 ∷ 108 ∷ []

abbrev me : Bytes
me = 109 ∷ 101 ∷ []

parse_entry-line_example :
    parse_entry (entry_line al 3 true (10 ∷ []))
    ≡ (true, record { name = al; id = pos 3; is_connected = true })
parse_entry-line_example =
    parse_entry-line al 3 true (10 ∷ []) (cc) (ground arith, (ground arith, tt)) (omega arith) refl

abbrev two_clients : List Listed
two_clients = (7, me) ∷ (3, al) ∷ []

abbrev headers : Bytes
headers =
    codes "HTTP/1.0 200 OK"
    ++ (crlf
        ++ (codes "Content-Length: 14"
            ++ (crlf
                ++ (codes "Connection: close" ++ (crlf ++ (codes "Pragma: 7" ++ header_end))))))

abbrev response : Bytes
response = headers ++ listing two_clients

abbrev pieces : List Bytes
pieces = response ∷ []

abbrev signing_in_client : Client
signing_in_client = record new_client { state = signing_in; control = opened; hanging = closed }

response-complete : complete (append_all [] pieces) ≡ some (65, 14)
unfolding codes header_end complete decimal
response-complete = refl

response-closes : asks_to_close (append_all [] pieces) 65 ≡ true
unfolding codes header_end asks_to_close decimal
response-closes = refl

response-ok : response_status (append_all [] pieces) ≡ pos 200
unfolding codes header_end response_status decimal
response-ok = refl

response-number : pragma_of (append_all [] pieces) 65 ≡ 7
unfolding codes header_end pragma_of decimal
response-number = refl

response-body : drop (65 + 4) (append_all [] pieces) ≡ listing two_clients
unfolding codes header_end
response-body = refl

two_clients-IsListed : IsListed two_clients
two_clients-IsListed = (
  cc,
  (ground arith, (ground arith, tt)),
  (ground arith, (ground arith, tt)),
  omega arith,
  (cc, (ground arith, (ground arith, tt)), (ground arith, (ground arith, tt)), omega arith, tt),
)

on_read-signed_in_example : on_read true true pieces signing_in_client ≡ (
  record signing_in_client {
    state = connected;
    my_id = pos 7;
    peers = insert_all (others (pos 7) two_clients) [];
    control_data = [];
    control = closed;
    hanging = opened;
  },
  closing true
      ++ (announced (others (pos 7) two_clients) ++ signed_in ∷ socket_connects hanging_get ∷ []),
)
on_read-signed_in_example =
    on_read-signed_in true pieces signing_in_client 65 14 7 two_clients true refl refl refl refl
      response-complete response-closes (omega arith) response-ok response-number (omega arith)
      response-body two_clients-IsListed

abbrev leaving_early : Client
leaving_early = record signing_in_client { state = signing_out_waiting }

on_read-sign_out_lost_example : on_read true true pieces leaving_early ≡ (
  record leaving_early {
    my_id = pos 7;
    peers = insert_all (others (pos 7) two_clients) [];
    control_data = [];
    control = closed;
  },
  closing true ++ (announced (others (pos 7) two_clients) ++ signed_in ∷ []),
)
on_read-sign_out_lost_example =
    on_read-sign_out_lost true true pieces leaving_early 65 14 7 two_clients true refl refl refl
      response-complete response-closes (omega arith) response-ok response-number (omega arith)
      response-body two_clients-IsListed

abbrev leaving : Client
leaving = record signing_in_client { state = signing_out; my_id = pos 7; peers = (pos 3, al) ∷ [] }

abbrev first_piece : List Bytes
first_piece = codes "HTTP/1.0 200 OK" ∷ []

abbrev talking : Client
talking = record signing_in_client {
  state = connected;
  my_id = pos 7;
  control = closed;
  hanging = opened;
}

first_piece-incomplete : complete (append_all [] first_piece) ≡ none
unfolding codes complete header_end
first_piece-incomplete = refl

on_read-joined_example :
    ((on_read true true first_piece ⨾ on_read true true pieces) talking
      ≡ on_read true true (first_piece ++ pieces) talking)
    × ((on_hanging_get_read true true first_piece ⨾ on_hanging_get_read true true pieces) talking
        ≡ on_hanging_get_read true true (first_piece ++ pieces) talking)
on_read-joined_example =
    on_read-joined true true true true first_piece pieces talking refl first_piece-incomplete
      first_piece-incomplete

abbrev resolving_history : List Event
resolving_history = connects_to true true al (pos 80) me ∷ []

refused_send-lost_example :
    let history =
      sends true (pos 3) al
      ∷ closes true control_socket connection_refused
      ∷ retry_due true
      ∷ connected_control
      ∷ [] in
    let r = run history talking in
    (r.0.state ≡ signing_in)
    × (r.0.my_id ≡ talking.my_id)
    × (r.0.onconnect_data ≡ [])
    × (r.1
        ≡ socket_connects control_socket
          ∷ thread_quits
          ∷ thread_restarts
          ∷ socket_closes control_socket
          ∷ retry_posted
          ∷ sockets_created
          ∷ socket_connects control_socket
          ∷ thread_starts
          ∷ socket_sends control_socket (sign_in_request talking.client_name)
          ∷ [])
refused_send-lost_example = refused_send-lost true (pos 3) al talking refl refl refl refl
