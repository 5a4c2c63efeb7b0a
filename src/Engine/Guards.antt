-- ===== src/Engine/Guards.antt =====
-- Late callbacks of a closed connection (src/webrtcengine_peer_connection.cc).
use webrtc_peerconnection_cl.Prelude.{
  ℕ, ◌<◌, ◌≡◌, refl, sym, ap, ◌∙◌, Bool, true, false, Option, none, some, [], arith,
}
use webrtc_peerconnection_cl.LocalMedia.{MediaFiles}
use webrtc_peerconnection_cl.MediaLib.{MediaLib}
use webrtc_peerconnection_cl.Engine.{
  State, has_peer_connection, create_peer_connection, close_peer_connection, create_answer,
  process_pending_ice_candidates,
}
use webrtc_peerconnection_cl.Engine.Tracks.{add_tracks, publish_remote_tracks}
use webrtc_peerconnection_cl.Engine.Callbacks.{
  Callback, Event, library_moves, track_added, track_removed, ice_changed, candidate_found,
  description_made, description_failed, remote_set, local_set, handle, callback,
}

module _ (L : MediaLib) (F : MediaFiles) where
  open L use {Connection}

  abbrev Below : Option ℕ → ℕ → Type 0
  Below none n = Unit {0}
  Below (some g) n = g < n

  abbrev is_some : Option ℕ → Bool
  is_some none = false
  is_some (some g) = true

  -- The engine has a connection exactly while a guard is live, and guards are numbered upwards.
  pub record Inv (e : State L) : Type 0 where
    pub paired : has_peer_connection L e ≡ is_some e.guard
    pub fresh : Below e.guard e.next_guard

  abbrev Same : State L → State L → Type 0
  Same e d =
      (d.guard ≡ e.guard)
      × (d.next_guard ≡ e.next_guard)
      × (has_peer_connection L d ≡ has_peer_connection L e)

  pending-Same : (e : State L) → Same e (process_pending_ice_candidates L e)
  unfolding process_pending_ice_candidates has_peer_connection
  pending-Same e = ground arith

  publish-Same : (e : State L) → Same e (publish_remote_tracks L F e).0
  unfolding publish_remote_tracks has_peer_connection
  publish-Same e = ground arith

  add_tracks-Same : (e : State L) → Same e (add_tracks L F e).1.0
  unfolding add_tracks has_peer_connection
  add_tracks-Same e = ground arith

  create_answer-Same : (e : State L) → Same e (create_answer L e)
  unfolding create_answer has_peer_connection
  create_answer-Same e = ground arith

  -- An offer that was set as the remote description is answered.
  answered-Same : (e : State L) → Same e (handle L F (remote_set true none) e).0
  unfolding handle
  answered-Same e =
      let a = process_pending_ice_candidates L e in
      let b = (publish_remote_tracks L F a).0 in
      let c = (add_tracks L F b).1.0 in
      ground (arith, pending-Same e, publish-Same a, add_tracks-Same b, create_answer-Same c)

  -- What the library calls back changes neither the guard nor whether there is a connection.
  handle-Same : (b : Event Connection) (e : State L) → Same e (handle L F b e).0
  unfolding handle has_peer_connection
  handle-Same (library_moves pc) e = ground arith
  handle-Same (track_added track) e = ground arith
  handle-Same (track_removed track) e = ground arith
  handle-Same (ice_changed state) e = unfold publish_remote_tracks in ground arith
  handle-Same (candidate_found mid index text) e = ground arith
  handle-Same (description_made is_offer sdp) e = ground arith
  handle-Same (description_failed text) e = ground arith
  handle-Same (remote_set true none) e = answered-Same e
  handle-Same (remote_set false none) e =
      unfold publish_remote_tracks process_pending_ice_candidates in ground arith
  handle-Same (remote_set should_answer (some text)) e = ground arith
  handle-Same (local_set is_offer sdp none) e =
      unfold process_pending_ice_candidates in ground arith
  handle-Same (local_set is_offer sdp (some text)) e = ground arith

  relabel-Inv : (e d : State L) → Same e d → Inv e → Inv d
  relabel-Inv e d s v = record {
    paired = s.2 ∙ (v.paired ∙ ap is_some (sym s.0));
    fresh = rw (s.0, s.1) v.fresh;
  }

  callback-Inv : (b : Callback Connection) (e : State L) → Inv e → Inv (callback L F b e).0
  unfolding callback
  callback-Inv b e v =
      ground (arith, relabel-Inv e (handle L F b.event e).0 (handle-Same b.event e) v)

  create-Inv :
      (e : State L) → has_peer_connection L e ≡ false → Inv e → Inv (create_peer_connection L e).1.0
  unfolding create_peer_connection has_peer_connection
  create-Inv e h v = ground arith

  close-Inv : (e : State L) → Inv (close_peer_connection L e)
  unfolding close_peer_connection has_peer_connection
  close-Inv e = ground arith

  -- The engine has a connection exactly while a callback guard is live, and the live guard is older
  -- than the next one: closing, creating a connection where there was none, and every callback of
  -- the library keep this.
  pub guards_kept :
      (b : Callback Connection) (e : State L)
      → Inv e
      → Inv (callback L F b e).0
        × Inv (close_peer_connection L e)
        × Inv (create_peer_connection L (close_peer_connection L e)).1.0
  guards_kept b e v = (
    callback-Inv b e v,
    close-Inv e,
    create-Inv (close_peer_connection L e)
        (unfold close_peer_connection has_peer_connection in refl) (close-Inv e),
  )

  -- A callback that was made for a connection before the last close does nothing, whether the
  -- engine has since opened another connection or not.
  pub late_callback_dropped :
      (b : Callback Connection) (e : State L)
      → b.guard < e.next_guard
      → let closed = close_peer_connection L e in
        (callback L F b closed ≡ (closed, []))
        × (callback L F b (create_peer_connection L closed).1.0
            ≡ ((create_peer_connection L closed).1.0, []))
  unfolding callback close_peer_connection create_peer_connection
  late_callback_dropped b e lt = (refl, ground arith)
