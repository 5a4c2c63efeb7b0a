-- ===== src/Engine.antt =====
-- include/webrtcengine.h and src/webrtcengine_peer_connection.cc: the state of the engine, and the
-- operations on its peer connection.
pub mod Tracks
pub mod Callbacks
pub mod Port
pub mod Telemetry
pub mod Startup
pub mod Guards
pub mod Candidates
pub mod Sample
mod Tests
use webrtc_peerconnection_cl.Prelude.{
  ℕ, suc, ◌+◌, String, Bool, true, false, not, ◌&&◌, ◌||◌, Option, none, some, List, [], ◌∷◌, ◌++◌,
  ℤ, if◌then◌else◌, Act, when, emit, text_append, ◌==◌,
}
use webrtc_peerconnection_cl.SignalTypes.{IceServerConfig}
use webrtc_peerconnection_cl.LocalMedia.{LocalVideoSourceConfig, camera}
use webrtc_peerconnection_cl.MediaLib.{MediaLib, Made, made, refused}
use webrtc_peerconnection_cl.Ports.{Report, engine_error}

-- `guard`: the live callback guard, numbered; a callback that holds another one is expired.
-- The Boolean track fields: the pointer is not null. `remote_video_track`: its identifier.
pub record Engine (Connection Candidate : Type 0) : Type 0 where
  pub observer : Bool
  pub peer_connection : Option Connection
  pub guard : Option ℕ
  pub next_guard : ℕ
  pub pending : List Candidate
  pub ice_servers : List IceServerConfig
  pub source_config : LocalVideoSourceConfig
  pub source_active : Bool
  pub video_source : Bool
  pub local_video_track : Bool
  pub local_audio_track : Bool
  pub remote_video_track : Option ℕ
  pub video_sender : Bool
  pub audio_sender : Bool
  pub local_audio_attached : Bool
  pub remote_audio_attached : Bool
  pub is_creating_offer : Bool
  pub shutdown_started : Bool

abbrev pub default_stun : IceServerConfig
default_stun = record { urls = "stun:stun.l.google.com:19302" ∷ []; username = ""; credential = "" }

-- The servers of the configuration: those received, or the default one.
unfoldable pub configured_servers : List IceServerConfig → List IceServerConfig
configured_servers [] = default_stun ∷ []
configured_servers (s ∷ ss) = s ∷ ss

module _ (L : MediaLib) where
  open L use {
    Connection, Candidate, create_connection, parse_description, parse_candidate,
    has_remote_description, add_candidate,
  }

  abbrev pub State : Type 0
  State = Engine Connection Candidate

  abbrev pub EngineAct : Type 0
  EngineAct = Act State Report

  -- `if (observer_) observer_->OnError(...)`
  abbrev pub error_to_observer : String → EngineAct
  error_to_observer text e = when e.observer (emit (engine_error text)) e

  unfoldable pub has_peer_connection : State → Bool
  has_peer_connection e = elim e.peer_connection [ none ↦ false | some pc ↦ true ]

  -- `RenewPeerConnectionCallbackGuard`
  renew_guard : State → State
  renew_guard e = record e { guard = some e.next_guard; next_guard = suc e.next_guard }

  unfoldable pub create_peer_connection : State → Bool × (State × List Report)
  unfolding renew_guard configured_servers
  create_peer_connection e = elim (create_connection (configured_servers e.ice_servers)) [
    | made pc ↦ (true, (record (renew_guard e) { peer_connection = some pc }, []))
    | refused text ↦ (false, error_to_observer text (record (renew_guard e) { guard = none }))
  ]

  -- Every reference of the closed call is dropped, its queued candidates too.
  unfoldable pub close_peer_connection : State → State
  close_peer_connection e = record e {
    guard = none;
    peer_connection = none;
    local_video_track = false;
    local_audio_track = false;
    remote_video_track = none;
    video_sender = false;
    audio_sender = false;
    local_audio_attached = false;
    remote_audio_attached = false;
    video_source = false;
    source_active = false;
    pending = [];
  }

  unfoldable pub create_offer : State → State
  create_offer e = elim e.peer_connection [
    | none ↦ e
    | some pc ↦ record e { is_creating_offer = true; peer_connection = some (L.create_offer pc) }
  ]

  unfoldable pub create_answer : State → State
  create_answer e = elim e.peer_connection [
    | none ↦ e
    | some pc ↦ record e { is_creating_offer = false; peer_connection = some (L.create_answer pc) }
  ]

  -- `is_offer` stands for the type text, "offer" or "answer".
  unfoldable pub set_remote_description : Bool → String → EngineAct
  set_remote_description is_offer sdp e = elim e.peer_connection [
    | none ↦ (e, [])
    | some pc ↦ elim (parse_description is_offer sdp) [
      | refused text ↦ error_to_observer (text_append "Failed to parse SDP: " text) e
      | made desc ↦ (record e { peer_connection = some (L.set_remote_description desc pc) }, [])
    ]
  ]

  -- A parsed candidate on an open connection: taken, or queued.
  offer_candidate : Candidate → Connection → State → State
  offer_candidate candidate pc e =
      if not (has_remote_description pc)
      then record e { pending = e.pending ++ candidate ∷ [] }
      else let (taken, pc') = add_candidate candidate pc in
        record e {
          peer_connection = some pc';
          pending = if taken then e.pending else e.pending ++ candidate ∷ [];
        }

  unfoldable pub add_ice_candidate : String → ℤ → String → State → State
  unfolding offer_candidate
  add_ice_candidate mid index text e = elim e.peer_connection [
    | none ↦ e
    | some pc ↦ elim (parse_candidate mid index text) [
      | none ↦ e
      | some candidate ↦ offer_candidate candidate pc e
    ]
  ]

  -- The loop of `ProcessPendingIceCandidates`: the candidates that are refused again, and the
  -- connection.
  unfoldable pub retry_candidates : List Candidate → Connection → List Candidate × Connection
  retry_candidates [] pc = ([], pc)
  retry_candidates (candidate ∷ rest) pc =
      let (taken, pc') = add_candidate candidate pc in
      let (remaining, pc'') = retry_candidates rest pc' in
      (if taken then remaining else candidate ∷ remaining, pc'')

  unfoldable pub process_pending_ice_candidates : State → State
  unfolding retry_candidates
  process_pending_ice_candidates e = elim e.peer_connection [
    | none ↦ e
    | some pc ↦
        if not (has_remote_description pc)
        then e
        else let (remaining, pc') = retry_candidates e.pending pc in
          record e { peer_connection = some pc'; pending = remaining }
  ]

  unfoldable pub shutdown : State → State
  unfolding close_peer_connection
  shutdown e =
      if e.shutdown_started then e else record (close_peer_connection e) { shutdown_started = true }
