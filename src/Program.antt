-- ===== src/Program.antt =====
-- src/main.cc: `main`, as the calls that it makes in order and its exit code. What the calls answer
-- is an argument.
use webrtc_peerconnection_cl.Prelude.{
  ℕ, String, Bool, not, List, [], ◌∷◌, ◌++◌, inl, inr, ℤ, pos, if◌then◌else◌,
}
use webrtc_peerconnection_cl.LocalMedia.{LocalVideoSourceConfig}
use webrtc_peerconnection_cl.Config.{AppConfig, parse_app_config}

pub data MainCall : Type 0 where
  print_usage initialize_ssl cleanup_ssl initialize_coordinator shutdown_coordinator : MainCall
  set_ui_observer initialize_app run_app : MainCall
  set_local_video_source : LocalVideoSourceConfig → MainCall
  connect_to_signal_server : String → String → MainCall

pub record MainAnswers : Type 0 where
  pub ssl_ready : Bool
  pub coordinator_ready : Bool
  pub source_ready : Bool
  pub app_ready : Bool
  pub run_result : ℤ

abbrev startup : AppConfig → List MainCall
startup c =
    initialize_ssl
    ∷ initialize_coordinator
    ∷ set_local_video_source c.local_video_source
    ∷ set_ui_observer
    ∷ initialize_app
    ∷ []

abbrev stop_everything : List MainCall
stop_everything = shutdown_coordinator ∷ cleanup_ssl ∷ []

run_program : MainAnswers → AppConfig → ℤ × List MainCall
run_program a c =
    if not a.ssl_ready
    then (pos 1, initialize_ssl ∷ [])
    else if not a.coordinator_ready
    then (pos 1, initialize_ssl ∷ initialize_coordinator ∷ cleanup_ssl ∷ [])
    else if not a.source_ready
    then (
      pos 1,
      initialize_ssl
          ∷ initialize_coordinator
          ∷ set_local_video_source c.local_video_source
          ∷ stop_everything,
    )
    else if not a.app_ready
    then (pos 1, startup c ++ stop_everything)
    else (
      a.run_result,
      startup c ++ connect_to_signal_server c.signal_url c.username ∷ run_app ∷ stop_everything,
    )

unfoldable pub main_program : MainAnswers → List ℕ → List String → ℤ × List MainCall
unfolding run_program
main_program a randoms arguments = elim (parse_app_config randoms arguments) [
  | inl refusal ↦ (pos 1, print_usage ∷ [])
  | inr config ↦ run_program a config
]
