-- ===== src/PeerConnectionClient/Sockets.antt =====
-- Which pointers to sockets src/peer_connection_client.cc follows.
use webrtc_peerconnection_cl.Prelude.{
  ◌≡◌, refl, Bool, true, false, ◌||◌, List, [], ◌∷◌, ◌++◌, ℤ, arith, ◌⨾◌, when, if◌then◌else◌,
}
use webrtc_peerconnection_cl.PeerConnectionClient.Text.{Bytes}
use webrtc_peerconnection_cl.PeerConnectionClient.Control.{
  close, connect_control_socket, do_connect, send_to_peer, sign_out_now, sign_out, on_close,
}
use webrtc_peerconnection_cl.PeerConnectionClient.{
  Which, control_socket, hanging_get, CloseError, connection_refused, other_error, Call,
  null_dereference, Client, ClientAct, is_absent, connect_socket, close_socket, go_on,
}

abbrev is_null : Call → Bool
is_null null_dereference = true
is_null _ = false

-- Is a null pointer followed?
abbrev pub follows_null : List Call → Bool
follows_null [] = false
follows_null (e ∷ es) = is_null e || follows_null es

abbrev pub HasSockets : Client → Type 0
HasSockets c = (is_absent c.control ≡ false) × (is_absent c.hanging ≡ false)

-- There are sockets after it, and it followed no null pointer.
abbrev pub Good : Client × List Call → Type 0
Good r = HasSockets r.0 × (follows_null r.1 ≡ false)

abbrev pub Keeps : ClientAct → Type 0
Keeps f = (c : Client) → HasSockets c → Good (f c)

pub follows_null-append :
    (xs ys : List Call)
    → follows_null xs ≡ false
    → follows_null ys ≡ false
    → follows_null (xs ++ ys) ≡ false
follows_null-append [] ys h k = k
follows_null-append (x ∷ xs) ys h k = ground (arith, follows_null-append xs ys)

pub Good-go_on : (r : Client × List Call) (f : ClientAct) → Good r → Keeps f → Good (go_on r f)
Good-go_on r f h k = let next = k r.0 h.0 in (next.0, follows_null-append r.1 (f r.0).1 h.1 next.1)

pub seq-Keeps : (f g : ClientAct) → Keeps f → Keeps g → Keeps (f ⨾ g)
seq-Keeps f g h k c s = Good-go_on (f c) g (h c s) k

pub when-Keeps : (b : Bool) (f : ClientAct) → Keeps f → Keeps (when b f)
when-Keeps true f h c s = h c s
when-Keeps false f h c s = (s, refl)

pub if-Good : (b : Bool) (x y : Client × List Call) → Good x → Good y → Good (if b then x else y)
if-Good true x y h k = h
if-Good false x y h k = k

pub if-Keeps : (b : Bool) (f g : ClientAct) → Keeps f → Keeps g → Keeps (if b then f else g)
if-Keeps true f g h k c s = h c s
if-Keeps false f g h k c s = k c s

pub close_socket-Keeps : (w : Which) → Keeps (close_socket w)
close_socket-Keeps control_socket c h = ground arith
close_socket-Keeps hanging_get c h = ground arith

pub connect_socket-Keeps : (w : Which) (b : Bool) → Keeps (connect_socket w b)
connect_socket-Keeps control_socket true c h = ground arith
connect_socket-Keeps control_socket false c h = ground arith
connect_socket-Keeps hanging_get true c h = ground arith
connect_socket-Keeps hanging_get false c h = ground arith

pub close-Keeps : Keeps close
unfolding close
close-Keeps c h = ground arith

pub connect_control_socket-Keeps : (b : Bool) → Keeps (connect_control_socket b)
unfolding connect_control_socket
connect_control_socket-Keeps true = connect_socket-Keeps control_socket true
connect_control_socket-Keeps false =
    seq-Keeps (connect_socket control_socket false) close
      (connect_socket-Keeps control_socket false) close-Keeps

-- From any state: both sockets are made first.
pub do_connect-Good : (b : Bool) (c : Client) → Good (do_connect b c)
unfolding do_connect connect_control_socket close
do_connect-Good true c = ground arith
do_connect-Good false c = ground arith

pub send_to_peer-Good :
    (b : Bool) (peer_id : ℤ) (message : Bytes) (c : Client)
    → HasSockets c
    → Good (send_to_peer b peer_id message c).1
unfolding send_to_peer connect_control_socket close
send_to_peer-Good true peer_id message c h = ground arith
send_to_peer-Good false peer_id message c h = ground arith

pub sign_out-Good : (b : Bool) (c : Client) → HasSockets c → Good (sign_out b c).1
unfolding sign_out sign_out_now connect_control_socket close
sign_out-Good true c h = ground arith
sign_out-Good false c h = ground arith

pub on_close-Keeps : (b : Bool) (w : Which) (e : CloseError) → Keeps (on_close b w e)
unfolding on_close close
on_close-Keeps true hanging_get (other_error n) c h = ground arith
on_close-Keeps false hanging_get (other_error n) c h = ground arith
on_close-Keeps b control_socket (other_error n) c h = ground arith
on_close-Keeps b control_socket connection_refused c h = ground arith
on_close-Keeps b hanging_get connection_refused c h = ground arith
