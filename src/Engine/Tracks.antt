-- ===== src/Engine/Tracks.antt =====
-- src/webrtcengine_media_pipeline.cc: the local tracks, and the remote video track that is shown.
use webrtc_peerconnection_cl.Prelude.{
  ℕ, Bool, true, false, not, ◌&&◌, ◌||◌, Option, none, some, List, [], ◌∷◌, ◌++◌, if◌then◌else◌,
  Act, when, emit, ◌==◌,
}
use webrtc_peerconnection_cl.CallManager.{is_empty}
use webrtc_peerconnection_cl.LocalMedia.{
  LocalVideoSourceConfig, Outcome, done, failed, MediaFiles, validate_config,
  create_source_for_config,
}
use webrtc_peerconnection_cl.MediaLib.{MediaLib, TrackKind, video, audio, Track}
use webrtc_peerconnection_cl.Ports.{
  Report, local_video_track_added, Notice, remote_video_track_added, remote_video_track_removed,
}
use webrtc_peerconnection_cl.Engine.{State, error_to_observer, has_peer_connection}

abbrev pub is_video : TrackKind → Bool
is_video video = true
is_video audio = false

module _ (L : MediaLib) (F : MediaFiles) where
  open L use {Connection, has_sender, add_track, receivers}

  -- Each returns whether `AddTracks` goes on.
  abbrev Fallible : Type 0
  Fallible = State L → Bool × (State L × List Report)

  add_video : Connection → Fallible
  add_video pc e = elim (create_source_for_config F e.source_config) [
    | failed text ↦ (
      false,
      error_to_observer L (if is_empty text then "Failed to create local video source" else text)
          (record e { video_source = false }),
    )
    | done ↦
        let (ok, pc') = add_track video pc in
        let e' = record e {
          video_source = true;
          local_video_track = true;
          peer_connection = some pc';
        } in
        if ok
        then (
          true,
          (when e.observer (emit local_video_track_added))
              (record e' { video_sender = true; source_active = true }),
        )
        else (false, error_to_observer L "Failed to add video track" e')
  ]

  add_audio : Connection → Fallible
  add_audio pc e =
      let (ok, pc') = add_track audio pc in
      let e' = record e { local_audio_track = true; peer_connection = some pc' } in
      if ok
      then (true, (record e' { audio_sender = true; local_audio_attached = true }, []))
      else (false, error_to_observer L "Failed to add audio track" e')

  -- `if (!has_audio_sender) { ... }`, on the connection as the video track left it.
  then_audio : Bool → Fallible
  unfolding add_audio
  then_audio has_audio e = elim e.peer_connection [
    | none ↦ (false, (e, []))
    | some pc ↦ if has_audio then (true, (e, [])) else add_audio pc e
  ]

  then_tracks : Bool → Bool → Connection → Fallible
  unfolding add_video then_audio
  then_tracks has_video has_audio pc e =
      if has_video
      then then_audio has_audio e
      else let (ok, (e', reports)) = add_video pc e in
        if ok
        then (let (ok', (e'', reports')) = then_audio has_audio e' in
            (ok', (e'', reports ++ reports')))
        else (false, (e', reports))

  unfoldable pub add_tracks : State L → Bool × (State L × List Report)
  unfolding then_tracks
  add_tracks e = elim e.peer_connection [
    | none ↦ (false, (e, []))
    | some pc ↦
        let has_video = has_sender video pc in
        let has_audio = has_sender audio pc in
        if has_video && has_audio then (true, (e, [])) else then_tracks has_video has_audio pc e
  ]

  -- `remote_video_track_.get() == track`
  abbrev same_track : Option ℕ → ℕ → Bool
  same_track none id = false
  same_track (some shown) id = shown == id

  unfoldable pub publish_remote_video_track : ℕ → Act (State L) Notice
  publish_remote_video_track id e =
      if same_track e.remote_video_track id
      then (e, [])
      else (when e.observer (emit remote_video_track_added))
          (record e { remote_video_track = some id })

  unfoldable pub first_video : List Track → Option ℕ
  first_video [] = none
  first_video (track ∷ tracks) =
      let rest = first_video tracks in if is_video track.kind then some track.id else rest

  clear_remote : Option ℕ → Act (State L) Notice
  clear_remote none e = (e, [])
  clear_remote (some shown) e =
      (when e.observer (emit remote_video_track_removed)) (record e { remote_video_track = none })

  publish_found : Option ℕ → Act (State L) Notice
  unfolding publish_remote_video_track clear_remote
  publish_found none e = clear_remote e.remote_video_track e
  publish_found (some id) e = publish_remote_video_track id e

  unfoldable pub publish_remote_tracks : Act (State L) Notice
  unfolding publish_found first_video
  publish_remote_tracks e = elim e.peer_connection [
    | none ↦ (e, [])
    | some pc ↦ publish_found (first_video (receivers pc)) e
  ]

  -- `OnPeerConnectionTrack` and `OnPeerConnectionAddTrack`, for a receiver that has a track.
  unfoldable pub on_track : Track → Act (State L) Notice
  unfolding publish_remote_video_track
  on_track track e =
      if is_video track.kind
      then publish_remote_video_track track.id e
      else (record e { remote_audio_attached = true }, [])

  unfoldable pub on_remove_track : Track → Act (State L) Notice
  on_remove_track track e =
      if is_video track.kind
      then (when e.observer (emit remote_video_track_removed))
          (record e { remote_video_track = none })
      else (record e { remote_audio_attached = false }, [])

  -- The second half of `SetLocalVideoSource`, given the new source and whether the sender takes the
  -- new track.
  replace_source :
      Outcome → Bool → LocalVideoSourceConfig → State L → Outcome × (State L × List Report)
  replace_source (failed text) set_track config e = (
    failed (if is_empty text then "Failed to create the requested local video source." else text),
    (e, []),
  )
  replace_source done set_track config e =
      if set_track
      then (
        done,
        (when e.observer (emit local_video_track_added)) (record e {
          source_config = config;
          source_active = true;
          video_source = true;
          local_video_track = true;
        }),
      )
      else (failed "Failed to replace the local video track.", (e, []))

  -- `SetLocalVideoSource`, whose error is the text given to the caller.
  unfoldable pub set_local_video_source :
      Bool → LocalVideoSourceConfig → State L → Outcome × (State L × List Report)
  unfolding validate_config create_source_for_config replace_source has_peer_connection
  set_local_video_source set_track config e = elim (validate_config F config) [
    | failed text ↦ (failed text, (e, []))
    | done ↦
        if not (has_peer_connection L e) || not e.video_sender
        then (done, (record e { source_config = config; source_active = false }, []))
        else replace_source (create_source_for_config F config) set_track config e
  ]
