-- ===== src/MediaLib.antt =====
-- What the engine asks of the WebRTC library: its peer connection, its parsers, and its answers.
-- Nothing is assumed of them, so there are no laws; `receivers` lists the tracks of the receivers.
use webrtc_peerconnection_cl.Prelude.{ℕ, String, Bool, List, Option, ℤ}
use webrtc_peerconnection_cl.SignalTypes.{IceServerConfig}

pub data TrackKind : Type 0 where
  video audio : TrackKind

pub data Made {ℓ} (A : Type ℓ) : Type ℓ where
  made : A → Made A
  refused : String → Made A

pub record Track : Type 0 where
  pub kind : TrackKind
  pub id : ℕ

pub record MediaLib : Type 1 where
  pub Connection : Type 0
  pub Candidate : Type 0
  pub Description : Type 0
  -- `CreatePeerConnectionOrError`, given the servers of the configuration
  pub create_connection : List IceServerConfig → Made Connection
  pub parse_description : Bool → String → Made Description
  pub parse_candidate : String → ℤ → String → Option Candidate
  pub has_remote_description : Connection → Bool
  -- `AddIceCandidate`: whether it was taken
  pub add_candidate : Candidate → Connection → Bool × Connection
  pub set_remote_description : Description → Connection → Connection
  pub create_offer : Connection → Connection
  pub create_answer : Connection → Connection
  pub set_local_description : Bool → String → Connection → Connection
  pub has_sender : TrackKind → Connection → Bool
  pub add_track : TrackKind → Connection → Bool × Connection
  pub receivers : Connection → List Track
