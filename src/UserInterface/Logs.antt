-- ===== src/UserInterface/Logs.antt =====
-- The log drawer of src/sdl_app.cc.
use webrtc_peerconnection_cl.Prelude.{
  append_assoc, append_nil, ◌≡◌, refl, sym, ap, ◌∙◌, ◌-◌, String, List, [], ◌∷◌, ◌++◌, length, drop,
  pop_while_over, pop_while_over-drop, pop_while_over-append, arith, text_append,
}
use webrtc_peerconnection_cl.Coordinator.{
  UiCall, start_local_renderer, stop_local_renderer, start_remote_renderer, stop_remote_renderer,
  log_message, show_error, signal_connected, signal_error, signal_disconnected, client_list_update,
  ui_call_state_changed, ui_incoming_call,
}
use webrtc_peerconnection_cl.UserInterface.{
  LogEntry, UiSnapshot, log_entry, receive, push_log, on_show_error, on_client_list_update,
  on_call_state_changed, new_ui,
}

-- What a call leaves in the log.
abbrev pub entries_of : String → UiCall → List LogEntry
entries_of now (log_message message level) = log_entry now level message ∷ []
entries_of now (show_error title message) =
    log_entry now "error" (text_append title (text_append ": " message)) ∷ []
entries_of now (signal_error error) = log_entry now "error" error ∷ []
entries_of now _ = []

abbrev pub all_entries : List (String × UiCall) → List LogEntry
all_entries [] = []
all_entries ((now, call) ∷ calls) = entries_of now call ++ all_entries calls

abbrev pub receive_all : List (String × UiCall) → UiSnapshot → UiSnapshot
receive_all [] s = s
receive_all ((now, call) ∷ calls) s = receive_all calls (receive now call s)

unchanged :
    (s : UiSnapshot) (all : List LogEntry)
    → s.logs ≡ pop_while_over 200 all
    → s.logs ≡ pop_while_over 200 (all ++ [])
unchanged s all h = h ∙ ap (pop_while_over 200) (sym (append_nil all))

pushed :
    (e : LogEntry) (s : UiSnapshot) (all : List LogEntry)
    → s.logs ≡ pop_while_over 200 all
    → pop_while_over 200 (s.logs ++ e ∷ []) ≡ pop_while_over 200 (all ++ e ∷ [])
pushed e s all h =
    ap (λ logs. pop_while_over 200 (logs ++ e ∷ [])) h ∙ pop_while_over-append 200 all (e ∷ [])

receive-logs :
    (now : String) (call : UiCall) (s : UiSnapshot) (all : List LogEntry)
    → s.logs ≡ pop_while_over 200 all
    → (receive now call s).logs ≡ pop_while_over 200 (all ++ entries_of now call)
unfolding receive push_log on_show_error on_client_list_update on_call_state_changed
receive-logs now (log_message message level) s all h = pushed (log_entry now level message) s all h
receive-logs now (show_error title message) s all h =
    pushed (log_entry now "error" (text_append title (text_append ": " message))) s all h
receive-logs now (signal_error error) s all h = pushed (log_entry now "error" error) s all h
receive-logs now start_local_renderer s all h = unchanged s all h
receive-logs now stop_local_renderer s all h = unchanged s all h
receive-logs now start_remote_renderer s all h = unchanged s all h
receive-logs now stop_remote_renderer s all h = unchanged s all h
receive-logs now (signal_connected client_id) s all h = unchanged s all h
receive-logs now signal_disconnected s all h = unchanged s all h
receive-logs now (ui_call_state_changed state peer_id) s all h = unchanged s all h
receive-logs now (ui_incoming_call caller_id) s all h = unchanged s all h
receive-logs now (client_list_update clients) s all h = ground (arith, unchanged s all h)

receive_all-logs :
    (calls : List (String × UiCall)) (s : UiSnapshot) (all : List LogEntry)
    → s.logs ≡ pop_while_over 200 all
    → (receive_all calls s).logs ≡ pop_while_over 200 (all ++ all_entries calls)
receive_all-logs [] s all h = unchanged s all h
receive_all-logs ((now, call) ∷ calls) s all h =
    receive_all-logs calls (receive now call s) (all ++ entries_of now call)
      (receive-logs now call s all h)
    ∙ ap (pop_while_over 200) (append_assoc all (entries_of now call) (all_entries calls))

-- After any calls of the coordinator on a new interface, the log shows the last two hundred messages
-- of all those that were to be logged, in their order, each with its time and level: the log
-- messages, the errors, with their titles, the errors of the signalling client, and the first one
-- that the interface logs itself.
pub receive_all-last_logs :
    (now : String) (calls : List (String × UiCall))
    → let all = log_entry now "info" "Application started" ∷ all_entries calls in
      (receive_all calls (new_ui now)).logs ≡ drop (length all - 200) all
unfolding new_ui push_log
receive_all-last_logs now calls =
    let first = log_entry now "info" "Application started" in
    let all = first ∷ all_entries calls in
    receive_all-logs calls (new_ui now) (first ∷ []) refl ∙ pop_while_over-drop 200 all
