-- ===== src/Engine/Tests.antt =====
-- The engine at concrete inputs (src/webrtcengine_peer_connection.cc).
use mathlib.Core.List.{Perm}
use webrtc_peerconnection_cl.Prelude.{◌≡◌, refl, ◌++◌, true, [], ◌∷◌, arith}
use webrtc_peerconnection_cl.Engine.{
  close_peer_connection, create_peer_connection, has_peer_connection,
  process_pending_ice_candidates,
}
use webrtc_peerconnection_cl.Ports.{checking}
use webrtc_peerconnection_cl.Engine.Callbacks.{Callback, ice_changed, callback}
use webrtc_peerconnection_cl.Engine.Guards.{Inv, late_callback_dropped}
use webrtc_peerconnection_cl.Engine.Candidates.{taken_of, process_pending-perm}
use webrtc_peerconnection_cl.Engine.Sample.{
  SampleConnection, sample_media, sample_files, open_engine,
}

abbrev late : Callback SampleConnection
late = record { guard = 4; event = ice_changed checking }

abbrev open_connection : SampleConnection
open_connection = record { remote = true; taken = [] }

open_engine-Inv : Inv sample_media sample_files open_engine
unfolding has_peer_connection
open_engine-Inv = record { paired = refl; fresh = ground arith }

late_callback_dropped_example :
    let closed = close_peer_connection sample_media open_engine in
    (callback sample_media sample_files late closed ≡ (closed, []))
    × (callback sample_media sample_files late (create_peer_connection sample_media closed).1.0
        ≡ ((create_peer_connection sample_media closed).1.0, []))
late_callback_dropped_example =
    late_callback_dropped sample_media sample_files late open_engine (ground arith)

process_pending-perm_example : Perm (0 ∷ 2 ∷ []) (
    taken_of sample_media (0 ∷ 2 ∷ []) open_connection
    ++ (process_pending_ice_candidates sample_media open_engine).pending)
process_pending-perm_example =
    process_pending-perm sample_media open_engine {pc = open_connection} refl refl

retried : (process_pending_ice_candidates sample_media open_engine).pending ≡ 0 ∷ []
unfolding process_pending_ice_candidates
retried = refl
