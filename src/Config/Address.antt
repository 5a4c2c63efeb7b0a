-- ===== src/Config/Address.antt =====
-- The options that src/main.cc accepts can be used: what they promise, and that the signalling
-- client of src/signalclient.cc takes their address.
use Prim.Native.String as Text
use Prim.Native.String.append
use Prim.Native.String.compare
use webrtc_peerconnection_cl.Prelude.{
  ◌≡◌, ◌≢◌, refl, ap, ◌∙◌, ℕ, zero, suc, false, not, List, ◌⊎◌, inl, inr, ℤ, pos, negsuc, String,
  text_append, to_string, to_string-Lacks, to_string-nonempty, Lacks, arith, eq_iff,
}
use webrtc_peerconnection_cl.CallManager.{is_empty}
use webrtc_peerconnection_cl.LocalMedia.{is_file}
use webrtc_peerconnection_cl.SignalClient.Url.{parse_url, parsed_url}
use webrtc_peerconnection_cl.SignalClient.Address.{parse_url-parts}
use webrtc_peerconnection_cl.Config.{
  AppConfig, Refusal, parse_app_config, parse_arguments, check_config, complete, with_file_kind,
  with_kind, signal_url_of, default_config, generate_random_username, hex_digits,
}

generated-is_empty : (randoms : List ℕ) → is_empty (generate_random_username randoms) ≡ false
unfolding generate_random_username
generated-is_empty randoms =
    let letter = Text.char_at "u" 0 in
    rw (
      append.cons letter "ser-" (hex_digits randoms),
      compare.cons-nil letter (text_append "ser-" (hex_digits randoms)),
    )

Sum-cases :
    (r : Refusal ⊎ AppConfig) → ((x : Refusal) × (r ≡ inl x)) ⊎ ((c : AppConfig) × (r ≡ inr c))
Sum-cases (inl x) = inl (x, refl)
Sum-cases (inr c) = inr (c, refl)

-- What an accepted configuration is like.
abbrev Usable : AppConfig → ℕ → Type 0
Usable c port =
    (c.signal_port ≡ pos (suc port))
    × (is_empty c.signal_host ≡ false)
    × (is_empty c.username ≡ false)
    × (is_file c.local_video_source.kind ≡ not (is_empty c.local_video_source.file_path))
    × (c.signal_url ≡ signal_url_of c.signal_host (suc port))

complete-Usable :
    (randoms : List ℕ) (port : ℕ) (c c' : AppConfig)
    → c.signal_port ≡ pos (suc port)
    → is_empty c.signal_host ≡ false
    → complete randoms (suc port) c ≡ inr c'
    → Usable c' port
unfolding complete with_file_kind with_kind is_file
complete-Usable randoms port c c' p h e = ground (arith, generated-is_empty randoms)

check_config-Usable :
    (randoms : List ℕ) (v : ℤ) (c c' : AppConfig)
    → c.signal_port ≡ v
    → check_config randoms c ≡ inr c'
    → (port : ℕ) × Usable c' port
unfolding check_config
check_config-Usable randoms (pos zero) c c' p e = ground (arith, p)
check_config-Usable randoms (pos (suc port)) c c' p e =
    let named : is_empty c.signal_host ≡ false = ground (arith, p) in
    let completed : complete randoms (suc port) c ≡ inr c' = ground (arith, p) in
    (port, complete-Usable randoms port c c' p named completed)
check_config-Usable randoms (negsuc n) c c' p e = ground (arith, p)

parse_app_config-Usable :
    (randoms : List ℕ) (arguments : List String) (c : AppConfig)
    → parse_app_config randoms arguments ≡ inr c
    → (port : ℕ) × Usable c port
unfolding parse_app_config
parse_app_config-Usable randoms arguments c e =
    elim (Sum-cases (parse_arguments arguments default_config))
      as (λ _. (port : ℕ) × Usable c port) [
        | inl r ↦ ground (arith, r.1)
        | inr r ↦ check_config-Usable randoms r.0.signal_port r.0 c refl (ground (arith, r.1))
      ]

-- Whatever the options and the random numbers are: a configuration that the program accepts has a
-- host, a port of at least one and a user's name; it plays a file exactly when it has a file's path;
-- and if the host has no `/`, the signalling client takes its address apart into that host, that
-- port in decimal and the path of the server's endpoint.
pub parse_app_config-usable :
    (randoms : List ℕ) (arguments : List String) (c : AppConfig)
    → parse_app_config randoms arguments ≡ inr c
    → Lacks 47 c.signal_host
    → (port : ℕ) × (c.signal_port ≡ pos (suc port))
      × (is_empty c.signal_host ≡ false)
      × (is_empty c.username ≡ false)
      × (is_file c.local_video_source.kind ≡ not (is_empty c.local_video_source.file_path))
      × (parse_url c.signal_url ≡ parsed_url c.signal_host (to_string (suc port)) "/ws/webrtc")
unfolding signal_url_of
parse_app_config-usable randoms arguments c e no_slash =
    let (port, u) = parse_app_config-Usable randoms arguments c e in
    let digits = to_string-Lacks (suc port) in
    let named : c.signal_host ≢ "" = ground (arith, u.1, eq_iff c.signal_host "") in
    let parts =
      parse_url-parts c.signal_host (to_string (suc port)) "ws/webrtc" no_slash digits.0 digits.1
        named (to_string-nonempty (suc port)) in
    (port, u.0, u.1, u.2, u.3, ap parse_url u.4 ∙ parts.0)
