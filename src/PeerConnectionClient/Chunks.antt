-- ===== src/PeerConnectionClient/Chunks.antt =====
-- In how many pieces a response comes makes no difference (src/peer_connection_client.cc).
use webrtc_peerconnection_cl.Prelude.{◌≡◌, refl, ap, Bool, none, List, [], ◌∷◌, ◌++◌, ◌⨾◌, arith}
use webrtc_peerconnection_cl.PeerConnectionClient.Text.{Bytes}
use webrtc_peerconnection_cl.PeerConnectionClient.Response.{complete}
use webrtc_peerconnection_cl.PeerConnectionClient.Reading.{
  append_all, check_buffer, check_found, after_read, after_hanging_get_read, read_into_buffer,
  on_read, on_hanging_get_read, wait_again,
}
use webrtc_peerconnection_cl.PeerConnectionClient.{control_socket, hanging_get, opened, Client}

append_all-append :
    (text : Bytes) (xs ys : List Bytes)
    → append_all (append_all text xs) ys ≡ append_all text (xs ++ ys)
append_all-append text [] ys = refl
append_all-append text (x ∷ xs) ys = append_all-append (text ++ x) xs ys

read-joined :
    (connects : Bool) (xs ys : List Bytes) (c : Client)
    → (read_into_buffer connects control_socket ys
          (record c { control_data = append_all c.control_data xs })
        ≡ read_into_buffer connects control_socket (xs ++ ys) c)
      × (read_into_buffer connects hanging_get ys
            (record c { notification_data = append_all c.notification_data xs })
          ≡ read_into_buffer connects hanging_get (xs ++ ys) c)
unfolding read_into_buffer check_buffer
read-joined connects xs ys c = (
  ap (λ text. check_buffer connects control_socket text c) (append_all-append c.control_data xs ys),
  ap (λ text. check_buffer connects hanging_get text c)
      (append_all-append c.notification_data xs ys),
)

on_read-incomplete :
    (connects reconnects : Bool) (xs : List Bytes) (c : Client)
    → complete (append_all c.control_data xs) ≡ none
    → on_read connects reconnects xs c
      ≡ (record c { control_data = append_all c.control_data xs }, [])
unfolding on_read read_into_buffer check_buffer check_found after_read
on_read-incomplete connects reconnects xs c h =
    rw (on_read, read_into_buffer, check_buffer, h, check_found) refl

on_hanging_get_read-incomplete :
    (connects reconnects : Bool) (xs : List Bytes) (c : Client)
    → c.hanging ≡ opened
    → complete (append_all c.notification_data xs) ≡ none
    → on_hanging_get_read connects reconnects xs c
      ≡ (record c { notification_data = append_all c.notification_data xs }, [])
unfolding on_hanging_get_read read_into_buffer check_buffer check_found after_hanging_get_read
    wait_again
on_hanging_get_read-incomplete connects reconnects xs c o h =
    rw
      (
        on_hanging_get_read, read_into_buffer, check_buffer, h, check_found, after_hanging_get_read,
        wait_again,
      )
      (ground arith)

-- While a response is not complete, its bytes are only kept, so that reading the rest later does
-- what reading all of it at once does, on both sockets, of which that of the hanging request is
-- open.
pub on_read-joined :
    (a b connects reconnects : Bool) (xs ys : List Bytes) (c : Client)
    → c.hanging ≡ opened
    → complete (append_all c.control_data xs) ≡ none
    → complete (append_all c.notification_data xs) ≡ none
    → ((on_read a b xs ⨾ on_read connects reconnects ys) c
        ≡ on_read connects reconnects (xs ++ ys) c)
      × ((on_hanging_get_read a b xs ⨾ on_hanging_get_read connects reconnects ys) c
          ≡ on_hanging_get_read connects reconnects (xs ++ ys) c)
unfolding on_read on_hanging_get_read
on_read-joined a b connects reconnects xs ys c o h k =
    let joined = read-joined connects xs ys c in
    (
      rw (on_read-incomplete a b xs c h) (ap (after_read connects reconnects) joined.0),
      rw (on_hanging_get_read-incomplete a b xs c o k)
          (ap (after_hanging_get_read reconnects) joined.1),
    )
