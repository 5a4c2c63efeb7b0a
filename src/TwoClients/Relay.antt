-- ===== src/TwoClients/Relay.antt =====
-- webrtc-signaling-server/main.go: what the server does with a message that a client sends
-- (`readPump`, `relayMessage`), for addressees that are online. Its encoding/json is taken to read
-- and write JSON as the clients' library does.
pub mod Passing
use webrtc_peerconnection_cl.Prelude.{
  String, Bool, true, false, not, ◌||◌, Option, none, some, List, [], ◌∷◌, str_eq, if◌then◌else◌,
}
use webrtc_peerconnection_cl.CallManager.{is_empty}
use webrtc_peerconnection_cl.Json.{JsonLib, parsed, parse_error}
use webrtc_peerconnection_cl.Codec.Parse.{◌>>=◌}

-- The `case` of `readPump` that relays.
unfoldable pub is_relayed : String → Bool
is_relayed type =
    str_eq type "offer"
    || str_eq type "answer"
    || str_eq type "ice-candidate"
    || str_eq type "conflict-resolution"
    || str_eq type "call-request"
    || str_eq type "call-response"
    || str_eq type "call-cancel"
    || str_eq type "call-end"

module _ (J : JsonLib) where
  open J use {Json, Wire, parse, dump, is_object, is_null, find, get_string, string, object}

  pub record WebRtcMessage : Type 0 where
    pub type : String
    pub from : String
    pub to : String
    pub payload : Option Json

  -- A field of a struct: absent or null leaves it empty, another type than a text is an error.
  unfoldable pub text_field : Json → String → Option String
  text_field j key = elim (find j key) [
    | none ↦ some ""
    | some v ↦ if is_null v then some "" else get_string v
  ]

  unfoldable pub unmarshal : Json → Option WebRtcMessage
  unfolding text_field
  unmarshal j = if not (is_object j) then none else (do
    type ← text_field j "type"
    from ← text_field j "from"
    to ← text_field j "to"
    some (record { type = type; from = from; to = to; payload = find j "payload" }))

  -- `omitempty`
  unfoldable pub text_member : String → String → List (String × Json) → List (String × Json)
  text_member key value members = if is_empty value then members else (key, string value) ∷ members

  unfoldable pub payload_member : Option Json → List (String × Json)
  payload_member none = []
  payload_member (some p) = ("payload", p) ∷ []

  unfoldable pub marshal : WebRtcMessage → Option Wire
  unfolding text_member payload_member
  marshal m = dump (
      object (
        ("type", string m.type)
        ∷ text_member "from" m.from (text_member "to" m.to (payload_member m.payload))))

  -- The client that the message of the client `uid` is passed on to, and the text that it gets.
  unfoldable pub relay_message : WebRtcMessage → Option (String × Wire)
  unfolding marshal
  relay_message m = do text ← marshal m; some (m.to, text)

  unfoldable pub on_message : String → Wire → Option (String × Wire)
  unfolding unmarshal relay_message is_relayed
  on_message uid message = elim (parse message) [
    | parse_error what ↦ none
    | parsed j ↦ do
      m ← unmarshal j
      (if not (is_relayed m.type)
          then none
          else if is_empty m.to
          then none
          else relay_message (record m { from = uid }))
  ]
