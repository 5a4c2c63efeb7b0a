-- ===== src/Config/Tests.antt =====
-- The program's options at concrete command lines (src/main.cc, src/defaults.cc).
use webrtc_peerconnection_cl.Prelude.{
  ◌≡◌, refl, ℕ, suc, false, not, none, some, List, [], ◌∷◌, inl, inr, pos, negsuc, String,
  to_string, arith,
}
use webrtc_peerconnection_cl.CallManager.{is_empty}
use webrtc_peerconnection_cl.LocalMedia.{file, is_file}
use webrtc_peerconnection_cl.SignalClient.Url.{parse_url, parsed_url}
use webrtc_peerconnection_cl.Config.{
  AppConfig, parse_app_config, stoi, missing_value, invalid_port, no_server, no_media_file, help,
  get_peer_name, parse_arguments, check_config, complete, signal_url_of, generate_random_username,
  get_peer_connection_string, get_default_server_name,
}
use webrtc_peerconnection_cl.Config.Address.{parse_app_config-usable}

abbrev randoms : List ℕ
randoms = 17 ∷ 2 ∷ 255 ∷ 4 ∷ 5 ∷ 6 ∷ 7 ∷ 8 ∷ []

abbrev file_options : List String
file_options =
    "--signal-host" ∷ "relay.test" ∷ "--signal-port" ∷ " 8081x" ∷ "--media-file" ∷ "film.mp4" ∷ []

abbrev file_config : AppConfig
file_config = record {
  signal_host = "relay.test";
  signal_port = pos 8081;
  username = "user-12f45678";
  signal_url = "ws://relay.test:8081/ws/webrtc";
  local_video_source = record { kind = file; file_path = "film.mp4" };
}

accepted_test : parse_app_config randoms file_options ≡ inr file_config
unfolding parse_app_config parse_arguments stoi check_config complete signal_url_of
    generate_random_username to_string is_file
accepted_test = refl

parse_app_config-usable_example :
    (port : ℕ) × (file_config.signal_port ≡ pos (suc port))
    × (is_empty file_config.signal_host ≡ false)
    × (is_empty file_config.username ≡ false)
    × (is_file file_config.local_video_source.kind
        ≡ not (is_empty file_config.local_video_source.file_path))
    × (parse_url file_config.signal_url
        ≡ parsed_url file_config.signal_host (to_string (suc port)) "/ws/webrtc")
parse_app_config-usable_example =
    parse_app_config-usable randoms file_options file_config accepted_test (ground arith)

stoi_test :
    (stoi "-0" ≡ some (pos 0))
    × (stoi "+12" ≡ some (pos 12))
    × (stoi "-3" ≡ some (negsuc 2))
    × (stoi "" ≡ none)
    × (stoi "port" ≡ none)
    × (stoi "2147483647" ≡ some (pos 2147483647))
    × (stoi "2147483648" ≡ none)
unfolding stoi
stoi_test = (refl, refl, refl, refl, refl, refl, refl)

refused_test :
    (parse_app_config randoms ("--signal-host" ∷ "relay.test" ∷ "--signal-port" ∷ [])
      ≡ inl (missing_value "--signal-port"))
    × (parse_app_config randoms ("--signal-port" ∷ "http" ∷ []) ≡ inl (invalid_port "http"))
    × (parse_app_config randoms ("--username" ∷ "alice" ∷ []) ≡ inl no_server)
    × (parse_app_config randoms
          ("--signal-host" ∷ "h" ∷ "--signal-port" ∷ "1" ∷ "--media-source" ∷ "file" ∷ [])
        ≡ inl no_media_file)
    × (parse_app_config randoms ("-h" ∷ []) ≡ inl help)
unfolding parse_app_config parse_arguments stoi check_config complete is_file
refused_test = (refl, refl, refl, refl, refl)

names_test :
    (get_peer_name (some "alice") none 7 99 ≡ "alice@host_7_99")
    × (get_peer_connection_string (some "") ≡ "stun:stun.l.google.com:19302")
    × (get_default_server_name none ≡ "localhost")
unfolding get_peer_name get_peer_connection_string get_default_server_name to_string
names_test = (refl, refl, refl)
