-- ===== src/SignalClient/Url.antt =====
-- src/signalclient.cc: `ParseUrl`, and the target of the handshake. The error is the text of the
-- exception.
use Prim.Native.Char.{code}
use Prim.Native.String as Text
use webrtc_peerconnection_cl.Prelude.{
  ℕ, String, ◌||◌, Option, none, some, ◌==◌, if◌then◌else◌, text_append,
}
use webrtc_peerconnection_cl.CallManager.{is_empty}

pub record ParsedUrl : Type 0 where
  pub host : String
  pub port : String
  pub target : String

pub data UrlResult : Type 0 where
  parsed_url : String → String → String → UrlResult
  bad_url : String → UrlResult

-- What follows a prefix.
unfoldable pub strip : String → String → Option String
strip Text.[] s = some s
strip (Text.◌∷◌ p ps) Text.[] = none
strip (Text.◌∷◌ p ps) (Text.◌∷◌ c s) =
    let rest = strip ps s in if code p == code c then rest else none

-- The text before the first character of that code, and the text from it on.
unfoldable pub break_at : ℕ → String → String × String
break_at n Text.[] = (Text.[], Text.[])
break_at n (Text.◌∷◌ c s) =
    let (before, after) = break_at n s in
    if code c == n then (Text.[], Text.◌∷◌ c s) else (Text.◌∷◌ c before, after)

-- The texts before and after the last character of that code.
unfoldable pub split_last : ℕ → String → Option (String × String)
split_last n Text.[] = none
split_last n (Text.◌∷◌ c s) = elim (split_last n s) [
  | some parts ↦ some (Text.◌∷◌ c parts.0, parts.1)
  | none ↦ if code c == n then some (Text.[], s) else none
]

unfoldable pub authority_of : String → String → UrlResult
unfolding split_last
authority_of authority target = elim (split_last 58 authority) [
  | none ↦ bad_url "Signaling server URL must include host and port"
  | some parts ↦
      if is_empty parts.0 || is_empty parts.1
      then bad_url "Invalid signaling server URL"
      else parsed_url parts.0 parts.1 target
]

-- 47 is the code of `/`, 58 that of `:`, 63 that of `?`.
unfoldable pub parse_url : String → UrlResult
unfolding strip break_at authority_of
parse_url url = elim (strip "ws://" url) [
  | none ↦ bad_url "Only ws:// URLs are currently supported"
  | some remaining ↦
      let (authority, target) = break_at 47 remaining in
      authority_of authority (if is_empty target then "/" else target)
]

unfoldable pub handshake_target : String → String → String
unfolding break_at
handshake_target target client_id =
    let query = (break_at 63 target).1 in
    text_append target (text_append (if is_empty query then "?uid=" else "&uid=") client_id)
