-- ===== src/Engine/Sample.antt =====
-- A small media library and file system for the tests: a connection counts what it was given, and
-- takes a candidate unless it is the number 0.
use webrtc_peerconnection_cl.Prelude.{
  ℕ, zero, suc, String, Bool, true, false, none, some, List, [], ◌∷◌, str_eq, if◌then◌else◌,
}
use webrtc_peerconnection_cl.LocalMedia.{MediaFiles, done, camera}
use webrtc_peerconnection_cl.MediaLib.{MediaLib, made, refused}
use webrtc_peerconnection_cl.Engine.{State}

pub record SampleConnection : Type 0 where
  pub remote : Bool
  pub taken : List ℕ

abbrev pub sample_media : MediaLib
sample_media = record {
  Connection = SampleConnection;
  Candidate = ℕ;
  Description = String;
  create_connection = λ servers. made (record { remote = false; taken = [] });
  parse_description = λ is_offer sdp. if str_eq sdp "" then refused "empty" else made sdp;
  parse_candidate = λ mid index text.
      if str_eq text "bad" then none else some (if str_eq text "first" then 0 else 1);
  has_remote_description = λ pc. pc.remote;
  add_candidate = λ c pc. elim c [
    | zero ↦ (false, pc)
    | suc n ↦ (true, record pc { taken = suc n ∷ pc.taken })
  ];
  set_remote_description = λ d pc. record pc { remote = true };
  create_offer = λ pc. pc;
  create_answer = λ pc. pc;
  set_local_description = λ is_offer sdp pc. pc;
  has_sender = λ k pc. false;
  add_track = λ k pc. (true, pc);
  receivers = λ pc. [];
}

abbrev pub sample_files : MediaFiles
sample_files = record {
  filename = λ path. path;
  probe_file = λ path. done;
  open_file = λ path. done;
  open_camera = true;
}

abbrev pub sample_engine : State sample_media
sample_engine = record {
  observer = true;
  peer_connection = none;
  guard = none;
  next_guard = 0;
  pending = [];
  ice_servers = [];
  source_config = record { kind = camera; file_path = "" };
  source_active = false;
  video_source = false;
  local_video_track = false;
  local_audio_track = false;
  remote_video_track = none;
  video_sender = false;
  audio_sender = false;
  local_audio_attached = false;
  remote_audio_attached = false;
  is_creating_offer = false;
  shutdown_started = false;
}

-- It has a connection with a remote description and two queued candidates.
abbrev pub open_engine : State sample_media
open_engine = record sample_engine {
  peer_connection = some (record { remote = true; taken = [] });
  guard = some 4;
  next_guard = 5;
  pending = 0 ∷ 2 ∷ [];
}
