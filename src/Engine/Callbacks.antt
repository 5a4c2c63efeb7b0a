-- ===== src/Engine/Callbacks.antt =====
-- src/webrtcengine_peer_connection.cc and src/webrtcengine_internal.h: what the WebRTC library
-- calls the engine back with. A callback holds the guard of the connection it was made for, and is
-- dropped when that guard has expired.
use webrtc_peerconnection_cl.Prelude.{
  ℕ, String, Bool, true, false, Option, none, some, List, [], ◌∷◌, ℤ, if◌then◌else◌, Act, when,
  emit, modify, ◌⨾◌, ◌==◌, text_append,
}
use webrtc_peerconnection_cl.LocalMedia.{MediaFiles}
use webrtc_peerconnection_cl.MediaLib.{MediaLib, Track}
use webrtc_peerconnection_cl.Ports.{
  IceState, ice_connected, completed, Report, engine_error, Notice, report,
  ice_connection_state_changed, offer_created, answer_created, ice_candidate_generated,
}
use webrtc_peerconnection_cl.Engine.{State, create_answer, process_pending_ice_candidates}
use webrtc_peerconnection_cl.Engine.Tracks.{
  add_tracks, publish_remote_tracks, on_track, on_remove_track,
}

-- `library_moves`: the library changes its own connection. The last field of a result is the error,
-- if any; `remote_set` says whether an answer is due, `local_set` whether it was an offer.
pub data Event (Connection : Type 0) : Type 0 where
  library_moves : Connection → Event Connection
  track_added track_removed : Track → Event Connection
  ice_changed : IceState → Event Connection
  candidate_found : String → ℤ → String → Event Connection
  description_made : Bool → String → Event Connection
  description_failed : String → Event Connection
  remote_set : Bool → Option String → Event Connection
  local_set : Bool → String → Option String → Event Connection

pub record Callback (Connection : Type 0) : Type 0 where
  pub guard : ℕ
  pub event : Event Connection

abbrev is_established : IceState → Bool
is_established ice_connected = true
is_established completed = true
is_established _ = false

abbrev pub as_notices : List Report → List Notice
as_notices [] = []
as_notices (r ∷ rs) = report r ∷ as_notices rs

module _ (L : MediaLib) (F : MediaFiles) where
  open L use {Connection, set_local_description}

  abbrev tell : Notice → Act (State L) Notice
  tell n e = when e.observer (emit n) e

  -- `PublishRemoteTracks`, then the local tracks and the answer.
  answer_offer : Act (State L) Notice
  unfolding add_tracks create_answer
  answer_offer e =
      let (ok, (e', reports)) = add_tracks L F e in
      (if ok then create_answer L e' else e', as_notices reports)

  on_remote_set : Bool → Option String → Act (State L) Notice
  unfolding answer_offer publish_remote_tracks process_pending_ice_candidates
  on_remote_set should_answer (some text) =
      tell (report (engine_error (text_append "SetRemoteDescription failed: " text)))
  on_remote_set should_answer none =
      modify (process_pending_ice_candidates L)
      ⨾ publish_remote_tracks L F
      ⨾ when should_answer answer_offer

  on_local_set : Bool → String → Option String → Act (State L) Notice
  unfolding process_pending_ice_candidates
  on_local_set is_offer sdp (some text) =
      tell (report (engine_error (text_append "SetLocalDescription failed: " text)))
  on_local_set is_offer sdp none =
      modify (process_pending_ice_candidates L)
      ⨾ tell (if is_offer then offer_created sdp else answer_created sdp)

  -- `OnSessionDescriptionSuccess` hands the description to the connection.
  on_description_made : Bool → String → State L → State L
  on_description_made is_offer sdp e = elim e.peer_connection [
    | none ↦ e
    | some pc ↦ record e { peer_connection = some (set_local_description is_offer sdp pc) }
  ]

  move_connection : Connection → State L → State L
  move_connection pc e = elim e.peer_connection [
    | none ↦ e
    | some old ↦ record e { peer_connection = some pc }
  ]

  unfoldable pub handle : Event Connection → Act (State L) Notice
  unfolding on_track on_remove_track publish_remote_tracks on_description_made on_remote_set
      on_local_set move_connection
  handle (library_moves pc) e = (move_connection pc e, [])
  handle (track_added track) e = on_track L F track e
  handle (track_removed track) e = on_remove_track L F track e
  handle (ice_changed state) e =
      (when (is_established state) (publish_remote_tracks L F)
          ⨾ tell (ice_connection_state_changed state))
        e
  handle (candidate_found mid index text) e = tell (ice_candidate_generated mid index text) e
  handle (description_made is_offer sdp) e = (on_description_made is_offer sdp e, [])
  handle (description_failed text) e =
      tell (report (engine_error (text_append "Create session description failed: " text))) e
  handle (remote_set should_answer error) e = on_remote_set should_answer error e
  handle (local_set is_offer sdp error) e = on_local_set is_offer sdp error e

  -- `callback_guard.expired()`
  abbrev pub is_live : ℕ → Option ℕ → Bool
  is_live g none = false
  is_live g (some live) = live == g

  unfoldable pub callback : Callback Connection → Act (State L) Notice
  unfolding handle
  callback b e = if is_live b.guard e.guard then handle b.event e else (e, [])
