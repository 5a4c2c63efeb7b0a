-- ===== src/SignalClient/Tests.antt =====
-- The signalling client at concrete inputs, over the sample JSON library (src/signalclient.cc).
use webrtc_peerconnection_cl.Prelude.{
  ◌≤◌, ◌≡◌, refl, String, true, false, Option, none, some, List, [], ◌∷◌, ◌++◌, arith, eq_iff,
}
use webrtc_peerconnection_cl.Codec.Sample.{SampleJson, text, sample_json}
use webrtc_peerconnection_cl.SignalClient.{
  Client, Event, connects, disconnects, handshakes, timer_fires, read_fails, run,
}
use webrtc_peerconnection_cl.SignalClient.Url.{parsed_url, bad_url, parse_url, handshake_target}
use webrtc_peerconnection_cl.SignalClient.Queue.{started, tail, queue_events, posted, run-queue}
use webrtc_peerconnection_cl.SignalClient.Reconnect.{
  waits_of, failures, AllBounded, run-schedule, run-bounded,
}
use webrtc_peerconnection_cl.SignalClient.Link.{link, run-link}
use webrtc_peerconnection_cl.SignalClient.Address.{parse_url-parts}

abbrev open_client : Client sample_json
open_client = record {
  observer = true;
  server_url = "ws://localhost:8081/ws";
  client_id = "alice";
  is_connected = false;
  manual_disconnect = false;
  reconnect_attempts = 0;
  ice_servers = [];
  impl = true;
  transport = true;
  url = record { host = "localhost"; port = "8081"; target = "/ws" };
  write_queue = [];
}

abbrev three_posts : List (Option (Option SampleJson))
three_posts = some none ∷ some (some (text "a")) ∷ none ∷ some (some (text "b")) ∷ none ∷ []

run-queue_example :
    let r = run sample_json (queue_events sample_json three_posts) open_client in
    started sample_json r.1 ++ tail sample_json r.0.write_queue ≡ posted sample_json three_posts
run-queue_example = run-queue sample_json three_posts open_client refl refl

abbrev six_failures : List (String × String)
six_failures =
    ("Resolve", "no host")
    ∷ ("Connect", "refused")
    ∷ ("Connect", "refused")
    ∷ ("Handshake", "denied")
    ∷ ("Connect", "refused")
    ∷ ("Connect", "refused")
    ∷ []

run-schedule_example :
    waits_of sample_json (run sample_json (failures sample_json six_failures) open_client).1
    ≡ 1000 ∷ 2000 ∷ 4000 ∷ 8000 ∷ 10000 ∷ []
run-schedule_example = run-schedule sample_json six_failures open_client refl refl refl

abbrev day : List (Event sample_json)
day =
    connects "ws://localhost:8081/ws" "alice"
    ∷ handshakes
    ∷ read_fails "reset"
    ∷ timer_fires
    ∷ handshakes
    ∷ disconnects
    ∷ []

run-bounded_example :
    let r = run sample_json day open_client in
    (r.0.reconnect_attempts ≤ 5) × AllBounded sample_json (waits_of sample_json r.1)
run-bounded_example = run-bounded sample_json day open_client (ground arith)

run-link_example :
    link sample_json (run sample_json day open_client).1 (some false)
    ≡ some (run sample_json day open_client).0.is_connected
run-link_example = run-link sample_json day open_client refl

url_parts : parse_url "ws://localhost:8081/ws" ≡ parsed_url "localhost" "8081" "/ws"
unfolding parse_url
url_parts = refl

url_root : parse_url "ws://[::1]:80" ≡ parsed_url "[::1]" "80" "/"
unfolding parse_url
url_root = refl

url_errors :
    (parse_url "wss://a:1/" ≡ bad_url "Only ws:// URLs are currently supported")
    × (parse_url "ws://a/ws" ≡ bad_url "Signaling server URL must include host and port")
    × (parse_url "ws://:80" ≡ bad_url "Invalid signaling server URL")
unfolding parse_url
url_errors = (refl, refl, refl)

targets :
    (handshake_target "/ws" "alice" ≡ "/ws?uid=alice")
    × (handshake_target "/ws?v=1" "alice" ≡ "/ws?v=1&uid=alice")
unfolding handshake_target
targets = (refl, refl)

abbrev host_name : String
host_name = "::1"

abbrev port_text : String
port_text = "80"

parse_url-parts_example :
    (parse_url "ws://::1:80/ws" ≡ parsed_url "::1" "80" "/ws")
    × (parse_url "ws://::1:80" ≡ parsed_url "::1" "80" "/")
parse_url-parts_example =
    parse_url-parts host_name port_text "ws" (ground arith, (ground arith, (ground arith, tt)))
      (ground arith, (ground arith, tt)) (ground arith, (ground arith, tt))
      (ground (arith, eq_iff host_name "")) (ground (arith, eq_iff port_text ""))
