-- ===== src/PeerConnectionClient/Histories.antt =====
-- No history of the older client follows a null pointer, but a sign-out while it resolves the
-- server's name (src/peer_connection_client.cc).
use webrtc_peerconnection_cl.Prelude.{
  ℤ, if◌then◌else◌, ◌≡◌, ◌⊎◌, Bool, true, false, ◌&&◌, List, [], ◌∷◌, ltb,
}
use webrtc_peerconnection_cl.PeerConnectionClient.Text.{Bytes}
use webrtc_peerconnection_cl.PeerConnectionClient.Control.{is_in, is_positive, default_server_port}
use webrtc_peerconnection_cl.PeerConnectionClient.Sockets.{follows_null, HasSockets}
use webrtc_peerconnection_cl.PeerConnectionClient.Events.{Event, signs_out, step}
use webrtc_peerconnection_cl.PeerConnectionClient.{
  resolving, absent, Call, Client, is_absent, state_code,
}

set_up : Bytes → ℤ → Bytes → Client → Client
set_up server port name c = record c {
  server = server;
  port = if is_positive port then port else default_server_port;
  client_name = name;
}

-- No sockets yet, so the client is not connected or resolves the server's name.
abbrev pub Bare : Client → Type 0
Bare c = (c.control ≡ absent) × (c.hanging ≡ absent) × (ltb (state_code c.state) 2 ≡ true)

abbrev pub Inv : Client → Type 0
Inv c = HasSockets c ⊎ Bare c

abbrev Sound : Client × List Call → Type 0
Sound r = Inv r.0 × (follows_null r.1 ≡ false)

-- A sign-out while the server's name is resolved, before there are sockets.
abbrev pub is_hasty : Event → Client → Bool
is_hasty (signs_out b) c = is_in resolving c && is_absent c.hanging
is_hasty _ c = false

-- No sign-out of the history comes while the server's name is resolved before there are sockets.
abbrev pub IsPatient : List Event → Client → Type 0
IsPatient [] c = Unit {0}
IsPatient (e ∷ es) c = (is_hasty e c ≡ false) × IsPatient es (step e c).0
