-- ===== src/Codec/Parse/Payload.antt =====
-- src/signaling_codec.cc: the fields of a payload, each as the type the message needs.
use webrtc_peerconnection_cl.Prelude.{
  String, Bool, Option, none, some, List, [], ◌∷◌, ℤ, negsuc, if◌then◌else◌,
}
use webrtc_peerconnection_cl.SignalTypes.{
  ClientInfo, IceServerConfig, SessionDescriptionPayload, IceCandidatePayload,
}
use webrtc_peerconnection_cl.CallManager.{is_empty}
use webrtc_peerconnection_cl.Json.{JsonLib}

infixl 5 ◌>>=◌
abbrev pub ◌>>=◌ : {A B : Type 0} → Option A → (A → Option B) → Option B
none >>= f = none
some a >>= f = f a

module _ (J : JsonLib) where
  open J use {
    Json, Wire, parse, is_object, is_array, is_string, find, elements, get_string, get_bool,
    get_int, object,
  }

  -- `j.value(key, fallback)`: it throws on a value that is no object, and on a member of another
  -- type than the fallback's.
  abbrev value_of : {A : Type 0} → (Json → Option A) → Json → String → A → Option A
  value_of get j key fallback =
      if is_object j then (elim (find j key) [ none ↦ some fallback | some v ↦ get v ]) else none

  unfoldable pub value_string : Json → String → String → Option String
  value_string = value_of get_string

  unfoldable pub value_bool : Json → String → Bool → Option Bool
  value_bool = value_of get_bool

  -- `payload.value("callId", payload.value("call_id", ""))`
  unfoldable pub parse_call_id : Json → Option String
  parse_call_id payload = do
    old ← value_string payload "call_id" ""
    value_string payload "callId" old

  -- The last two assignments of `ParseSessionDescription`.
  flat_description : String → String → Json → Option SessionDescriptionPayload
  flat_description call_id fallback payload = do
    type ← value_string payload "type" fallback
    sdp ← value_string payload "sdp" ""
    some (record { call_id = call_id; type = type; sdp = sdp })

  unfoldable pub nested_description :
      String → String → Json → Json → Option SessionDescriptionPayload
  unfolding flat_description
  nested_description call_id fallback payload value =
      if is_object value
      then (do
        type ← value_string value "type" fallback
        sdp ← value_string value "sdp" ""
        some (record { call_id = call_id; type = type; sdp = sdp }))
      else if is_string value
      then (do
        type ← value_string payload "type" fallback
        sdp ← get_string value
        some (record { call_id = call_id; type = type; sdp = sdp }))
      else flat_description call_id fallback payload

  unfoldable pub parse_session_description : Json → String → Option SessionDescriptionPayload
  unfolding flat_description
  parse_session_description payload fallback = do
    call_id ← parse_call_id payload
    (elim (find payload "sdp") [
      | none ↦ flat_description call_id fallback payload
      | some value ↦ nested_description call_id fallback payload value
    ])

  -- The object that holds the candidate's fields.
  unfoldable pub candidate_object : Json → Json
  candidate_object payload = elim (find payload "candidate") [
    | none ↦ payload
    | some value ↦ if is_object value then value else payload
  ]

  unfoldable pub parse_mline_index : Json → Option ℤ
  parse_mline_index j = elim (find j "sdpMLineIndex") [
    | some v ↦ get_int v
    | none ↦ elim (find j "sdpMlineIndex") [
      | some v ↦ get_int v
      | none ↦ elim (find j "sdp_mline_index") [ some v ↦ get_int v | none ↦ some (negsuc 0) ]
    ]
  ]

  unfoldable pub parse_sdp_mid : Json → Option String
  parse_sdp_mid j = do
    mid ← value_string j "sdpMid" ""
    (if is_empty mid then value_string j "sdp_mid" "" else some mid)

  unfoldable pub parse_ice_candidate : Json → Option IceCandidatePayload
  parse_ice_candidate payload = do
    call_id ← parse_call_id payload
    let inner = candidate_object payload
    sdp_mid ← parse_sdp_mid inner
    index ← parse_mline_index inner
    candidate ← value_string inner "candidate" ""
    some (record {
      call_id = call_id;
      sdp_mid = sdp_mid;
      sdp_mline_index = index;
      candidate = candidate;
    })

  -- The strings of an array; the rest is passed over.
  unfoldable pub string_items : List Json → Option (List String)
  string_items [] = some []
  string_items (v ∷ vs) =
      let rest = string_items vs in
      if is_string v then (do text ← get_string v; texts ← rest; some (text ∷ texts)) else rest

  parse_urls : Json → Option (List String)
  parse_urls server = elim (find server "urls") [
    | none ↦ some []
    | some urls ↦
        if is_array urls
        then string_items (elements urls)
        else if is_string urls
        then (do url ← get_string urls; some (url ∷ []))
        else some []
  ]

  unfoldable pub parse_ice_server : Json → Option IceServerConfig
  unfolding parse_urls
  parse_ice_server server = do
    urls ← parse_urls server
    username ← value_string server "username" ""
    credential ← value_string server "credential" ""
    some (record { urls = urls; username = username; credential = credential })

  server_items : List Json → Option (List IceServerConfig)
  server_items [] = some []
  server_items (v ∷ vs) =
      let rest = server_items vs in
      if is_object v
      then (do config ← parse_ice_server v; configs ← rest; some (config ∷ configs))
      else rest

  -- The elements of an array member; none where it is missing or no array.
  array_member : Json → String → List Json
  array_member payload key = elim (find payload key) [
    | none ↦ []
    | some v ↦ if is_array v then elements v else []
  ]

  unfoldable pub parse_ice_servers : Json → Option (List IceServerConfig)
  unfolding server_items array_member
  parse_ice_servers payload = server_items (array_member payload "iceServers")

  unfoldable pub parse_client_id : Json → Option String
  parse_client_id client =
      if is_object client
      then value_string client "id" ""
      else if is_string client
      then get_string client
      else some ""

  unfoldable pub client_items : List Json → Option (List ClientInfo)
  client_items [] = some []
  client_items (v ∷ vs) =
      let rest = client_items vs in
      (do
        id ← parse_client_id v
        clients ← rest
        some (if is_empty id then clients else record { id = id } ∷ clients))

  unfoldable pub parse_client_list : Json → Option (List ClientInfo)
  unfolding array_member
  parse_client_list payload = client_items (array_member payload "clients")
