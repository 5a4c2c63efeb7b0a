-- ===== src/Ports.antt =====
-- include/call_coordinator_ports.h and include/webrtcengine.h: what the coordinator asks of the
-- engine, and what the engine reports. The coordinator is written against `EnginePort`; the laws
-- are the part of its contract that the coordinator's proofs use.
use webrtc_peerconnection_cl.Prelude.{◌≡◌, Bool, false, List, String, ℤ, Act}
use webrtc_peerconnection_cl.SignalTypes.{IceServerConfig}
use webrtc_peerconnection_cl.LocalMedia.{LocalVideoSourceConfig, Outcome}

-- `webrtc::PeerConnectionInterface::IceConnectionState`
pub data IceState : Type 0 where
  ice_new checking ice_connected completed failed disconnected closed : IceState

-- The calls on `WebRTCEngineObserver` that the engine makes while it is being called.
pub data Report : Type 0 where
  local_video_track_added : Report
  engine_error : String → Report

-- Those that it makes from callbacks of the media library.
pub data Notice : Type 0 where
  report : Report → Notice
  remote_video_track_added remote_video_track_removed : Notice
  ice_connection_state_changed : IceState → Notice
  offer_created answer_created : String → Notice
  ice_candidate_generated : String → ℤ → String → Notice

-- `Callback` is what the media library calls the engine back with.
pub record EnginePort : Type 1 where
  pub Engine : Type 0
  pub Callback : Type 0
  pub has_peer_connection : Engine → Bool
  pub set_observer : Bool → Engine → Engine
  pub set_ice_servers : List IceServerConfig → Engine → Engine
  pub create_peer_connection : Engine → Bool × (Engine × List Report)
  pub close_peer_connection : Engine → Engine
  pub add_tracks : Engine → Bool × (Engine × List Report)
  pub create_offer : Engine → Engine
  pub set_remote_offer : String → Act Engine Report
  pub set_remote_answer : String → Act Engine Report
  pub add_ice_candidate : String → ℤ → String → Engine → Engine
  -- The flag: whether the sender takes the new track.
  pub set_local_video_source :
      Bool → LocalVideoSourceConfig → Engine → Outcome × (Engine × List Report)
  pub callback : Callback → Act Engine Notice
  pub shutdown : Engine → Engine
  pub close-has : (e : Engine) → has_peer_connection (close_peer_connection e) ≡ false
  pub set_observer-has :
      (b : Bool) (e : Engine)
      → has_peer_connection e ≡ false
      → has_peer_connection (set_observer b e) ≡ false
  pub set_ice_servers-has :
      (servers : List IceServerConfig) (e : Engine)
      → has_peer_connection e ≡ false
      → has_peer_connection (set_ice_servers servers e) ≡ false
  pub set_remote_offer-has :
      (sdp : String) (e : Engine)
      → has_peer_connection e ≡ false
      → has_peer_connection (set_remote_offer sdp e).0 ≡ false
  pub set_remote_answer-has :
      (sdp : String) (e : Engine)
      → has_peer_connection e ≡ false
      → has_peer_connection (set_remote_answer sdp e).0 ≡ false
  pub add_ice_candidate-has :
      (mid : String) (index : ℤ) (candidate : String) (e : Engine)
      → has_peer_connection e ≡ false
      → has_peer_connection (add_ice_candidate mid index candidate e) ≡ false
  pub set_local_video_source-has :
      (takes : Bool) (config : LocalVideoSourceConfig) (e : Engine)
      → has_peer_connection e ≡ false
      → has_peer_connection (set_local_video_source takes config e).1.0 ≡ false
  pub callback-has :
      (c : Callback) (e : Engine)
      → has_peer_connection e ≡ false
      → has_peer_connection (callback c e).0 ≡ false
  pub shutdown-has :
      (e : Engine) → has_peer_connection e ≡ false → has_peer_connection (shutdown e) ≡ false
