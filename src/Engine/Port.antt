-- ===== src/Engine/Port.antt =====
-- The engine fills the coordinator's interface (include/call_coordinator_ports.h and the class
-- `DefaultWebRTCEnginePort` of src/call_coordinator_ports.cc).
use webrtc_peerconnection_cl.Prelude.{
  ◌≡◌, refl, ℤ, String, Bool, true, false, none, some, List, arith,
}
use webrtc_peerconnection_cl.SignalTypes.{IceServerConfig}
use webrtc_peerconnection_cl.LocalMedia.{MediaFiles, LocalVideoSourceConfig}
use webrtc_peerconnection_cl.MediaLib.{MediaLib}
use webrtc_peerconnection_cl.Ports.{EnginePort}
use webrtc_peerconnection_cl.Engine.{
  State, has_peer_connection, create_peer_connection, close_peer_connection, create_offer,
  create_answer, set_remote_description, add_ice_candidate, process_pending_ice_candidates,
  shutdown,
}
use webrtc_peerconnection_cl.Engine.Tracks.{
  add_tracks, publish_remote_tracks, set_local_video_source,
}
use webrtc_peerconnection_cl.Engine.Callbacks.{
  Callback, Event, library_moves, track_added, track_removed, ice_changed, candidate_found,
  description_made, description_failed, remote_set, local_set, handle, callback,
}

module _ (L : MediaLib) (F : MediaFiles) where
  open L use {Connection, Candidate}

  pub close-has : (e : State L) → has_peer_connection L (close_peer_connection L e) ≡ false
  unfolding has_peer_connection close_peer_connection
  close-has e = refl

  -- Without a connection no operation but `CreatePeerConnection` makes one.
  no_connection : (e : State L) → has_peer_connection L e ≡ false → e.peer_connection ≡ none
  unfolding has_peer_connection
  no_connection e h = ground arith

  handle-none :
      (b : Event Connection) (e : State L)
      → e.peer_connection ≡ none
      → (handle L F b e).0.peer_connection ≡ none
  unfolding handle publish_remote_tracks process_pending_ice_candidates
  handle-none (library_moves pc) e n = ground arith
  handle-none (track_added track) e n = ground arith
  handle-none (track_removed track) e n = ground arith
  handle-none (ice_changed state) e n = ground arith
  handle-none (candidate_found mid index text) e n = ground arith
  handle-none (description_made is_offer sdp) e n = ground arith
  handle-none (description_failed text) e n = ground arith
  handle-none (remote_set true none) e n = unfold add_tracks create_answer in ground arith
  handle-none (remote_set false none) e n = ground arith
  handle-none (remote_set should_answer (some text)) e n = ground arith
  handle-none (local_set is_offer sdp none) e n = ground arith
  handle-none (local_set is_offer sdp (some text)) e n = ground arith

  pub callback-has :
      (b : Callback Connection) (e : State L)
      → has_peer_connection L e ≡ false
      → has_peer_connection L (callback L F b e).0 ≡ false
  unfolding callback has_peer_connection
  callback-has b e h = ground (arith, handle-none b.event e (no_connection e h))

  pub set_remote-has :
      (is_offer : Bool) (sdp : String) (e : State L)
      → has_peer_connection L e ≡ false
      → has_peer_connection L (set_remote_description L is_offer sdp e).0 ≡ false
  unfolding set_remote_description has_peer_connection
  set_remote-has is_offer sdp e h = ground arith

  pub add_candidate-has :
      (mid : String) (index : ℤ) (text : String) (e : State L)
      → has_peer_connection L e ≡ false
      → has_peer_connection L (add_ice_candidate L mid index text e) ≡ false
  unfolding add_ice_candidate has_peer_connection
  add_candidate-has mid index text e h = ground arith

  unfoldable pub set_observer : Bool → State L → State L
  set_observer b e = record e { observer = b }

  unfoldable pub set_ice_servers : List IceServerConfig → State L → State L
  set_ice_servers servers e = record e { ice_servers = servers }

  pub set_observer-has :
      (b : Bool) (e : State L)
      → has_peer_connection L e ≡ false
      → has_peer_connection L (set_observer b e) ≡ false
  unfolding set_observer has_peer_connection
  set_observer-has b e h = h

  pub set_ice_servers-has :
      (servers : List IceServerConfig) (e : State L)
      → has_peer_connection L e ≡ false
      → has_peer_connection L (set_ice_servers servers e) ≡ false
  unfolding set_ice_servers has_peer_connection
  set_ice_servers-has servers e h = h

  pub set_local_video_source-has :
      (takes : Bool) (config : LocalVideoSourceConfig) (e : State L)
      → has_peer_connection L e ≡ false
      → has_peer_connection L (set_local_video_source L F takes config e).1.0 ≡ false
  unfolding set_local_video_source has_peer_connection
  set_local_video_source-has takes config e h = ground arith

  pub shutdown-has :
      (e : State L) → has_peer_connection L e ≡ false → has_peer_connection L (shutdown L e) ≡ false
  unfolding shutdown has_peer_connection
  shutdown-has e h = ground arith

  -- The engine as the coordinator sees it, over any media library.
  abbrev pub engine_port : EnginePort
  engine_port = record {
    Engine = State L;
    Callback = Callback Connection;
    has_peer_connection = has_peer_connection L;
    set_observer = set_observer;
    set_ice_servers = set_ice_servers;
    create_peer_connection = create_peer_connection L;
    close_peer_connection = close_peer_connection L;
    add_tracks = add_tracks L F;
    create_offer = create_offer L;
    set_remote_offer = set_remote_description L true;
    set_remote_answer = set_remote_description L false;
    add_ice_candidate = add_ice_candidate L;
    set_local_video_source = set_local_video_source L F;
    callback = callback L F;
    shutdown = shutdown L;
    close-has = close-has;
    set_observer-has = set_observer-has;
    set_ice_servers-has = set_ice_servers-has;
    set_remote_offer-has = set_remote-has true;
    set_remote_answer-has = set_remote-has false;
    add_ice_candidate-has = add_candidate-has;
    set_local_video_source-has = set_local_video_source-has;
    callback-has = callback-has;
    shutdown-has = shutdown-has;
  }
