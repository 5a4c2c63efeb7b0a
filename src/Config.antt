-- ===== src/Config.antt =====
-- src/main.cc: the program's options, from the words of the command line after the program's name;
-- include/app_config.h; and the names of src/defaults.cc. The random numbers, the environment and the
-- clock are arguments. `std::stoi` is that of a 32-bit `int`.
pub mod Address
mod Tests
use Prim.Native.Char.{Char, code}
use Prim.Native.String as Text
use webrtc_peerconnection_cl.Prelude.{
  ℕ, zero, suc, ◌+◌, ◌-◌, ◌*◌, ◌%◌, ◌^◌, Bool, true, false, not, ◌&&◌, ◌||◌, Option, none, some,
  List, [], ◌∷◌, ◌⊎◌, inl, inr, ℤ, pos, negsuc, String, ltb, leb, ◌==◌, if◌then◌else◌, str_eq,
  text_append, to_string,
}
use webrtc_peerconnection_cl.CallManager.{is_empty}
use webrtc_peerconnection_cl.LocalMedia.{
  LocalVideoSourceConfig, LocalVideoSourceKind, camera, file, is_file,
}

pub record AppConfig : Type 0 where
  pub signal_host : String
  pub signal_port : ℤ
  pub username : String
  pub signal_url : String
  pub local_video_source : LocalVideoSourceConfig

abbrev pub default_config : AppConfig
default_config = record {
  signal_host = "";
  signal_port = pos 0;
  username = "";
  signal_url = "";
  local_video_source = record { kind = camera; file_path = "" };
}

-- Why the options are refused, with what is printed about it.
pub data Refusal : Type 0 where
  missing_value invalid_port invalid_source unknown_argument : String → Refusal
  help no_server no_media_file : Refusal

abbrev is_space : Char → Bool
is_space c = (code c == 32) || (leb 9 (code c) && leb (code c) 13)

abbrev is_digit : Char → Bool
is_digit c = leb 48 (code c) && leb (code c) 57

skip_spaces : String → String
skip_spaces Text.[] = Text.[]
skip_spaces (Text.◌∷◌ c s) = let rest = skip_spaces s in if is_space c then rest else Text.◌∷◌ c s

-- The number that the leading digits write, after the digits of `n`.
digits_value : ℕ → String → ℕ
digits_value n Text.[] = n
digits_value n (Text.◌∷◌ c s) =
    let rest = digits_value (n * 10 + (code c - 48)) s in if is_digit c then rest else n

-- `none` is `std::invalid_argument`.
unsigned_value : String → Option ℕ
unfolding digits_value
unsigned_value Text.[] = none
unsigned_value (Text.◌∷◌ c s) = if is_digit c then some (digits_value 0 (Text.◌∷◌ c s)) else none

positive : Option ℕ → Option ℤ
positive none = none
positive (some n) = if ltb n (2 ^ 31) then some (pos n) else none

negative : Option ℕ → Option ℤ
negative none = none
negative (some zero) = some (pos 0)
negative (some (suc n)) = if ltb n (2 ^ 31) then some (negsuc n) else none

-- After the spaces; 43 is the code of `+`, 45 that of `-`.
signed_value : String → Option ℤ
unfolding unsigned_value positive negative
signed_value Text.[] = none
signed_value (Text.◌∷◌ c s) =
    if code c == 45
    then negative (unsigned_value s)
    else if code c == 43
    then positive (unsigned_value s)
    else positive (unsigned_value (Text.◌∷◌ c s))

-- `none`: it throws.
unfoldable pub stoi : String → Option ℤ
unfolding skip_spaces signed_value
stoi s = signed_value (skip_spaces s)

takes_value : String → Bool
takes_value a =
    str_eq a "--signal-host"
    || str_eq a "--signal-port"
    || str_eq a "--username"
    || str_eq a "--media-source"
    || str_eq a "--media-file"

with_kind : LocalVideoSourceKind → AppConfig → AppConfig
with_kind k c = record c { local_video_source = record c.local_video_source { kind = k } }

-- One of the five arguments that take a value, with its value.
set_value : String → String → AppConfig → Refusal ⊎ AppConfig
unfolding stoi with_kind
set_value a value c =
    if str_eq a "--signal-host"
    then inr (record c { signal_host = value })
    else if str_eq a "--signal-port"
    then (elim (stoi value) [
      | some port ↦ inr (record c { signal_port = port })
      | none ↦ inl (invalid_port value)
    ])
    else if str_eq a "--username"
    then inr (record c { username = value })
    else if str_eq a "--media-source"
    then (if str_eq value "camera"
        then inr (with_kind camera c)
        else if str_eq value "file"
        then inr (with_kind file c)
        else inl (invalid_source value))
    else inr (record c { local_video_source = record c.local_video_source { file_path = value } })

no_value : String → Refusal
no_value a = if str_eq a "--help" || str_eq a "-h" then help else unknown_argument a

unfoldable pub parse_arguments : List String → AppConfig → Refusal ⊎ AppConfig
unfolding takes_value set_value no_value
parse_arguments [] c = inr c
parse_arguments (a ∷ []) c = if takes_value a then inl (missing_value a) else inl (no_value a)
parse_arguments (a ∷ value ∷ rest) c =
    if not (takes_value a) then inl (no_value a) else (elim (set_value a value c) [
      | inl refusal ↦ inl refusal
      | inr c' ↦ parse_arguments rest c'
    ])

hex_digit : ℕ → String
hex_digit d = Text.◌∷◌ (Text.char_at "0123456789abcdef" (d % 16)) Text.[]

-- The numbers are what `std::random_device` gives, eight of them.
hex_digits : List ℕ → String
unfolding hex_digit
hex_digits [] = ""
hex_digits (d ∷ ds) = text_append (hex_digit d) (hex_digits ds)

unfoldable pub generate_random_username : List ℕ → String
unfolding hex_digits
generate_random_username randoms = text_append "user-" (hex_digits randoms)

unfoldable pub signal_url_of : String → ℕ → String
signal_url_of host port =
    text_append "ws://"
      (text_append (text_append host (text_append ":" (to_string port))) "/ws/webrtc")

with_file_kind : AppConfig → AppConfig
unfolding with_kind
with_file_kind c = if not (is_empty c.local_video_source.file_path) then with_kind file c else c

-- The checks after the loop, where the port is known to be positive.
unfoldable pub complete : List ℕ → ℕ → AppConfig → Refusal ⊎ AppConfig
unfolding with_file_kind generate_random_username signal_url_of
complete randoms port c =
    let c' = with_file_kind c in
    if is_file c'.local_video_source.kind && is_empty c'.local_video_source.file_path
    then inl no_media_file
    else inr (record c' {
      username = if is_empty c'.username then generate_random_username randoms else c'.username;
      signal_url = signal_url_of c'.signal_host port;
    })

unfoldable pub check_config : List ℕ → AppConfig → Refusal ⊎ AppConfig
unfolding complete
check_config randoms c =
    if is_empty c.signal_host
    then inl no_server
    else (elim c.signal_port [ pos (suc n) ↦ complete randoms (suc n) c | _ ↦ inl no_server ])

unfoldable pub parse_app_config : List ℕ → List String → Refusal ⊎ AppConfig
unfolding parse_arguments check_config
parse_app_config randoms arguments = elim (parse_arguments arguments default_config) [
  | inl refusal ↦ inl refusal
  | inr c ↦ check_config randoms c
]

-- src/defaults.cc; `none` is a variable that is not set.
unfoldable pub get_env_var_or_default : Option String → String → String
get_env_var_or_default none default_value = default_value
get_env_var_or_default (some env_var) default_value =
    if is_empty env_var then default_value else env_var

unfoldable pub get_peer_connection_string : Option String → String
unfolding get_env_var_or_default
get_peer_connection_string env = get_env_var_or_default env "stun:stun.l.google.com:19302"

unfoldable pub get_default_server_name : Option String → String
unfolding get_env_var_or_default
get_default_server_name env = get_env_var_or_default env "localhost"

-- `computer_name`: the host's name, if `gethostname` answers 0.
unfoldable pub get_peer_name_original : Option String → Option String → String
unfolding get_env_var_or_default
get_peer_name_original user computer_name =
    text_append (get_env_var_or_default user "user")
      (text_append "@" (elim computer_name [ some name ↦ name | none ↦ "host" ]))

unfoldable pub get_peer_name : Option String → Option String → ℕ → ℕ → String
unfolding get_peer_name_original
get_peer_name user computer_name pid timestamp =
    text_append (get_peer_name_original user computer_name)
      (text_append "_" (text_append (to_string pid) (text_append "_" (to_string timestamp))))
