-- ===== src/PeerConnectionClient/Control.antt =====
-- src/peer_connection_client.cc: signing in and out, sending, and the events of the sockets other than
-- reading.
use webrtc_peerconnection_cl.Prelude.{
  zero, suc, ◌-◌, Bool, true, false, not, ◌&&◌, ◌||◌, List, [], ◌∷◌, ◌++◌, ℤ, pos, ◌==◌,
  if◌then◌else◌, take, emit, when, modify, ◌⨾◌, length,
}
use webrtc_peerconnection_cl.PeerConnectionClient.Text.{
  Bytes, codes, c_str, int_eq, decimal, signed_decimal,
}
use webrtc_peerconnection_cl.PeerConnectionClient.Response.{is_nil, same_text, header_end, crlf}
use webrtc_peerconnection_cl.PeerConnectionClient.{
  SessionState, not_connected, resolving, signing_in, connected, signing_out_waiting, signing_out,
  closed, Which, control_socket, hanging_get, CloseError, connection_refused, other_error, Call,
  disconnected, server_connection_failure, message_from_peer, peer_disconnected, message_sent,
  resolver_starts, sockets_created, retry_posted, socket_sends, thread_starts, thread_quits,
  thread_restarts, Client, minus_one, is_open, state_code, ClientAct, dereference, connect_socket,
  close_socket,
}

abbrev pub is_in : SessionState → Client → Bool
is_in s c = state_code c.state == state_code s

-- `is_connected`
abbrev pub has_id : Client → Bool
has_id c = not (int_eq c.my_id minus_one)

unfoldable pub close : ClientAct
close =
    close_socket control_socket
    ⨾ close_socket hanging_get
    ⨾ modify (λ c. record c {
      onconnect_data = [];
      peers = [];
      resolver = false;
      my_id = minus_one;
      state = not_connected;
    })

-- The argument: `Connect` does not report `SOCKET_ERROR`.
unfoldable pub connect_control_socket : Bool → ClientAct
unfolding close
connect_control_socket true = connect_socket control_socket true
connect_control_socket false = connect_socket control_socket false ⨾ close

-- ` HTTP/1.0`, and the empty line
unfoldable http_end : Bytes
unfolding codes header_end
http_end = codes " HTTP/1.0" ++ header_end

-- What fits into the buffer of 1024 characters.
unfoldable pub sign_in_request : Bytes → Bytes
unfolding codes http_end c_str
sign_in_request name = take 1023 (codes "GET /sign_in?" ++ (c_str name ++ http_end))

unfoldable pub sign_out_request : ℤ → Bytes
unfolding codes http_end signed_decimal
sign_out_request id = codes "GET /sign_out?peer_id=" ++ (signed_decimal id ++ http_end)

unfoldable pub wait_request : ℤ → Bytes
unfolding codes http_end signed_decimal
wait_request id = codes "GET /wait?peer_id=" ++ (signed_decimal id ++ http_end)

unfoldable pub message_request : ℤ → ℤ → Bytes → Bytes
unfolding codes decimal signed_decimal header_end
message_request id peer_id message =
    codes "POST /message?peer_id="
    ++ (signed_decimal id
        ++ (codes "&to="
            ++ (signed_decimal peer_id
                ++ (codes " HTTP/1.0"
                    ++ (crlf
                        ++ (codes "Content-Length: "
                            ++ (decimal (length message)
                                ++ (crlf
                                    ++ (codes "Content-Type: text/plain"
                                        ++ (header_end ++ message))))))))))

unfoldable pub do_connect : Bool → ClientAct
unfolding connect_control_socket
do_connect connects c =
    (emit sockets_created
        ⨾ connect_control_socket connects
        ⨾ (if connects
            then modify (λ d. record d { state = signing_in })
            else emit server_connection_failure)
        ⨾ emit thread_starts)
      (record c {
        control = closed;
        hanging = closed;
        onconnect_data = sign_in_request c.client_name;
      })

-- `kDefaultServerPort`
abbrev pub default_server_port : ℤ
default_server_port = pos 8888

abbrev pub is_positive : ℤ → Bool
is_positive (pos zero) = false
is_positive (pos (suc n)) = true
is_positive n = false

-- `unresolved`: what `IsUnresolvedIP` answers.
unfoldable pub connect : Bool → Bool → Bytes → ℤ → Bytes → ClientAct
unfolding do_connect
connect unresolved connects server port name c =
    if not (is_in not_connected c) || is_nil server || is_nil name
    then (c, server_connection_failure ∷ [])
    else (if unresolved
          then emit resolver_starts ⨾ modify (λ d. record d { state = resolving; resolver = true })
          else do_connect connects)
        (record c {
          server = server;
          port = if is_positive port then port else default_server_port;
          client_name = name;
        })

-- `resolved`: no error, and an address of the Internet.
unfoldable pub on_resolve_result : Bool → Bool → ClientAct
unfolding do_connect
on_resolve_result true connects = do_connect connects
on_resolve_result false connects =
    emit server_connection_failure
    ⨾ modify (λ c. record c { resolver = false; state = not_connected })

unfoldable pub send_to_peer : Bool → ℤ → Bytes → Client → Bool × (Client × List Call)
unfolding connect_control_socket
send_to_peer connects peer_id message c =
    if not (is_in connected c) || not (has_id c) || int_eq peer_id minus_one
    then (false, (c, []))
    else (
      true,
      (connect_control_socket connects ⨾ emit thread_quits ⨾ emit thread_restarts)
          (record c { onconnect_data = message_request c.my_id peer_id message }),
    )

unfoldable pub bye_message : Bytes
unfolding codes
bye_message = codes "BYE"

unfoldable pub send_hang_up : Bool → ℤ → Client → Bool × (Client × List Call)
unfolding send_to_peer
send_hang_up connects peer_id = send_to_peer connects peer_id bye_message

unfoldable pub is_sending_message : Client → Bool
is_sending_message c = is_in connected c && is_open c.control

unfoldable pub sign_out_now : Bool → Client → Bool × (Client × List Call)
unfolding connect_control_socket
sign_out_now connects c =
    if has_id c
    then (
      connects,
      (connect_control_socket connects)
          (record c { state = signing_out; onconnect_data = sign_out_request c.my_id }),
    )
    else (true, (record c { state = signing_out }, []))

unfoldable pub sign_out : Bool → Client → Bool × (Client × List Call)
unfolding sign_out_now
sign_out connects c =
    let stop =
      dereference hanging_get
      ⨾ when (is_open c.hanging) (close_socket hanging_get)
      ⨾ dereference control_socket in
    let first = stop c in
    let last = sign_out_now connects first.0 in
    if is_in not_connected c || is_in signing_out c
    then (true, (c, []))
    else if is_open c.control
    then (true, (stop ⨾ modify (λ d. record d { state = signing_out_waiting })) c)
    else (last.0, (last.1.0, first.1 ++ last.1.1))

unfoldable pub on_connect : ClientAct
on_connect c = (record c { onconnect_data = [] }, socket_sends control_socket c.onconnect_data ∷ [])

unfoldable pub on_hanging_get_connect : ClientAct
on_hanging_get_connect c = (c, socket_sends hanging_get (wait_request c.my_id) ∷ [])

unfoldable pub on_message_from_peer : ℤ → Bytes → ClientAct
unfolding bye_message
on_message_from_peer peer_id message =
    if same_text message bye_message
    then emit (peer_disconnected peer_id)
    else emit (message_from_peer peer_id message)

-- `connects`: what `Connect` on the socket of the hanging request answers.
unfoldable pub on_close : Bool → Which → CloseError → ClientAct
unfolding close
on_close connects hanging_get (other_error err) c =
    (close_socket hanging_get
        ⨾ when (is_in connected c) (close_socket hanging_get ⨾ connect_socket hanging_get connects))
      c
on_close connects control_socket (other_error err) c =
    (close_socket control_socket ⨾ emit (message_sent err)) c
on_close connects control_socket connection_refused c =
    (close_socket control_socket ⨾ emit retry_posted) (record c { retries = suc c.retries })
on_close connects hanging_get connection_refused c =
    (close_socket hanging_get ⨾ close ⨾ emit disconnected) c

-- The delayed task, two seconds later.
unfoldable pub retry : Bool → ClientAct
unfolding do_connect
retry connects = modify (λ c. record c { retries = c.retries - 1 }) ⨾ do_connect connects
