-- ===== src/PeerConnectionClient/Events.antt =====
-- Any sequence of the calls on the older client and of the events of its library
-- (src/peer_connection_client.cc).
use webrtc_peerconnection_cl.Prelude.{Bool, not, List, [], ◌∷◌, ℤ, ltb, skip, when, ◌⨾◌}
use webrtc_peerconnection_cl.PeerConnectionClient.Text.{Bytes}
use webrtc_peerconnection_cl.PeerConnectionClient.Control.{
  is_in, connect, on_resolve_result, send_to_peer, send_hang_up, sign_out, on_connect,
  on_hanging_get_connect, on_close, retry,
}
use webrtc_peerconnection_cl.PeerConnectionClient.Reading.{on_read, on_hanging_get_read}
use webrtc_peerconnection_cl.PeerConnectionClient.{
  resolving, Which, control_socket, hanging_get, CloseError, Client, ClientAct, is_absent,
  socket_of,
}

-- Each `Bool` is an answer of the library, in the order of the operation's arguments.
pub data Event : Type 0 where
  connects_to : Bool → Bool → Bytes → ℤ → Bytes → Event
  resolved : Bool → Bool → Event
  sends : Bool → ℤ → Bytes → Event
  hangs_up : Bool → ℤ → Event
  signs_out : Bool → Event
  connected_control connected_hanging : Event
  readable : Bool → Bool → Which → List Bytes → Event
  closes : Bool → Which → CloseError → Event
  retry_due : Bool → Event

abbrev exists : Which → Client → Bool
exists w c = not (is_absent (socket_of w c))

-- An event of a socket or of the resolver comes only while that is there, and a delayed task only
-- after it was posted.
unfoldable pub step : Event → ClientAct
unfolding connect on_resolve_result send_to_peer send_hang_up sign_out on_connect
    on_hanging_get_connect on_close retry on_read on_hanging_get_read
step (connects_to unresolved answers server port name) c =
    connect unresolved answers server port name c
step (resolved ok answers) c = (when (is_in resolving c) (on_resolve_result ok answers)) c
step (sends answers peer_id message) c = (send_to_peer answers peer_id message c).1
step (hangs_up answers peer_id) c = (send_hang_up answers peer_id c).1
step (signs_out answers) c = (sign_out answers c).1
step connected_control c = (when (exists control_socket c) on_connect) c
step connected_hanging c = (when (exists hanging_get c) on_hanging_get_connect) c
step (readable answers again control_socket chunks) c =
    (when (exists control_socket c) (on_read answers again chunks)) c
step (readable answers again hanging_get chunks) c =
    (when (exists hanging_get c) (on_hanging_get_read answers again chunks)) c
step (closes answers w err) c = (when (exists w c) (on_close answers w err)) c
step (retry_due answers) c = (when (ltb 0 c.retries) (retry answers)) c

unfoldable pub run : List Event → ClientAct
unfolding step
run [] = skip
run (e ∷ es) = step e ⨾ run es
