-- ===== src/SignalTypes.antt =====
-- include/signal_types.h: the records that the signalling messages carry.
use webrtc_peerconnection_cl.Prelude.{String, List, ℤ}

-- `ClientInfo` has the one field `id`.
pub record ClientInfo : Type 0 where
  pub id : String

pub record IceServerConfig : Type 0 where
  pub urls : List String
  pub username : String
  pub credential : String

pub record SessionDescriptionPayload : Type 0 where
  pub call_id : String
  pub type : String
  pub sdp : String

pub record IceCandidatePayload : Type 0 where
  pub call_id : String
  pub sdp_mid : String
  pub sdp_mline_index : ℤ
  pub candidate : String
