-- ===== src/Codec/Envelope.antt =====
-- Reading back an envelope and its payload (src/signaling_codec.cc).
use webrtc_peerconnection_cl.Prelude.{
  ◌≡◌, refl, sym, ap, ◌∙◌, inl, inr, String, Bool, true, false, Option, none, some, List, [], ◌∷◌,
  if◌then◌else◌, Bool-cases, str_eq, eq_iff,
}
use webrtc_peerconnection_cl.CallManager.{is_empty}
use webrtc_peerconnection_cl.Json.{JsonLib, member}
use webrtc_peerconnection_cl.Codec.{ParsedSignalingMessage, blank_message, parse_message_type}
use webrtc_peerconnection_cl.Codec.Build.{build_message_envelope, with_reason}
use webrtc_peerconnection_cl.Codec.Parse.{
  returned, or_threw, value_string, value_bool, parse_call_id, parse_body, payload_of,
  parse_envelope, read_envelope, parse_signaling_message,
}

module _ (J : JsonLib) where
  open J use {
    Json, Wire, parse, dump, is_object, is_array, is_string, is_null, find, elements, get_string,
    get_bool, get_int, null, string, boolean, integer, object, set, parse-dump, is_object-object,
    is_null-object, find-object, is_object-set, is_null-set, find-set, get_string-string,
    get_bool-boolean, get_int-integer, is_utf8, is_writable, is_utf8-ascii, is_writable-string,
    is_writable-object, is_writable-set, dump-string, dump-member,
  }

  -- A payload that a client may be sent under an envelope.
  abbrev pub IsPayload : Json → Type 0
  IsPayload p = (is_object p ≡ true) × (is_null p ≡ false)

  pub envelope-object :
      (type from to : String) (p : Json)
      → IsPayload p
      → is_object (build_message_envelope J type from to p) ≡ true
  unfolding build_message_envelope
  envelope-object type from to p v = elim (Bool-cases (is_empty to)) [
    | inl y ↦ simp (y, v.1, is_object-set, is_object-object)
    | inr n ↦ simp (n, v.1, is_object-set, is_object-object)
  ]

  pub find-envelope :
      (type from to k : String) (p : Json)
      → IsPayload p
      → str_eq "to" k ≡ false
      → find (build_message_envelope J type from to p) k ≡ (
          if str_eq "payload" k
          then some p
          else member k (("type", string type) ∷ ("from", string from) ∷ []))
  unfolding build_message_envelope
  find-envelope type from to k p v t = elim (Bool-cases (is_empty to)) [
    | inl y ↦ simp (y, v.1, find-set, is_object-object, find-object)
    | inr n ↦ simp (n, v.1, find-set, is_object-set, is_object-object, find-object, t)
  ]

  pub payload_of-envelope :
      (type from to : String) (p : Json)
      → IsPayload p
      → payload_of J (build_message_envelope J type from to p) ≡ p
  unfolding payload_of
  payload_of-envelope type from to p v =
      simp (payload_of, find-envelope type from to "payload" p v refl, v.0)

  -- An envelope with these members is read back: the type, the sender and the payload come as they
  -- were put.
  pub parse-members :
      (e : Json) (type from : String) (p : Json)
      → is_object e ≡ true
      → find e "type" ≡ some (string type)
      → find e "from" ≡ some (string from)
      → payload_of J e ≡ p
      → parse_envelope J e
        ≡ parse_body J
            (parse_message_type type)
            p
            (record blank_message { type = parse_message_type type; from = from })
  unfolding parse_envelope value_string
  parse-members e type from p o t f v = simp (o, t, f, v, get_string-string)

  pub parse-envelope :
      (type from to : String) (p : Json)
      → IsPayload p
      → parse_envelope J (build_message_envelope J type from to p)
        ≡ parse_body J
            (parse_message_type type)
            p
            (record blank_message { type = parse_message_type type; from = from })
  parse-envelope type from to p v =
      parse-members _ type from p (envelope-object type from to p v)
        (find-envelope type from to "type" p v refl) (find-envelope type from to "from" p v refl)
        (payload_of-envelope type from to p v)

  pub envelope-writable :
      (type from to : String) (p : Json)
      → IsPayload p
      → is_utf8 type ≡ true
      → is_utf8 from ≡ true
      → is_utf8 to ≡ true
      → is_writable p ≡ true
      → is_writable (build_message_envelope J type from to p) ≡ true
  unfolding build_message_envelope
  envelope-writable type from to p v t f d w =
      let ms : List (String × Json) = ("type", string type) ∷ ("from", string from) ∷ [] in
      let named = is_object-object ms in
      let base : is_writable (object ms) ≡ true = is_writable-object ms (
        is_utf8-ascii "type" refl,
        is_writable-string type t,
        (is_utf8-ascii "from" refl, is_writable-string from f, tt),
      ) in
      let payload_name = is_utf8-ascii "payload" refl in
      elim (Bool-cases (is_empty to)) [
        | inl y ↦
            rw (y, v.1, build_message_envelope)
              (is_writable-set "payload" p (object ms) named payload_name w base)
        | inr n ↦
            rw (n, v.1, build_message_envelope)
              (is_writable-set "payload" p (set "to" (string to) (object ms))
                (is_object-set "to" (string to) (object ms) named) payload_name w
                (is_writable-set "to" (string to) (object ms) named (is_utf8-ascii "to" refl)
                  (is_writable-string to d) base))
      ]

  -- The message was built, and is read back.
  abbrev pub ReadsBack : Option Wire → ParsedSignalingMessage → Type 0
  ReadsBack built m = (w : Wire) × (built ≡ some w) × (parse_signaling_message J w ≡ returned m)

  -- A parsed message is what its payload gives.
  pub parse-dumped :
      (type from to : String) (p : Json) {m : ParsedSignalingMessage}
      → IsPayload p
      → is_utf8 type ≡ true
      → (is_utf8 from ≡ true) × (is_utf8 to ≡ true)
      → is_writable p ≡ true
      → parse_body J
          (parse_message_type type)
          p
          (record blank_message { type = parse_message_type type; from = from })
        ≡ some m
      → ReadsBack (dump (build_message_envelope J type from to p)) m
  unfolding parse_signaling_message read_envelope
  parse-dumped type from to p v t names w h =
      let (wire, written, read) =
        parse-dump (build_message_envelope J type from to p)
          (envelope-writable type from to p v t names.0 names.1 w) in
      (
        wire,
        written,
        simp (parse_signaling_message, read_envelope, read, envelope-object type from to p v)
            (ap or_threw (parse-envelope type from to p v ∙ h)),
      )

  pub reason-writable :
      (reason : String) (ms : List (String × Json))
      → is_utf8 reason ≡ true
      → is_writable (object ms) ≡ true
      → is_writable (with_reason J reason (object ms)) ≡ true
  unfolding with_reason
  reason-writable reason ms r w = elim (Bool-cases (is_empty reason)) [
    | inl y ↦ rw (y, with_reason) w
    | inr n ↦
        rw (n, with_reason)
          (is_writable-set "reason" (string reason) (object ms) (is_object-object ms)
            (is_utf8-ascii "reason" refl) (is_writable-string reason r) w)
  ]

  pub read_string :
      (p : Json) (k s fallback : String)
      → is_object p ≡ true
      → find p k ≡ some (string s)
      → value_string J p k fallback ≡ some s
  unfolding value_string
  read_string p k s fallback o f = simp (o, f, get_string-string)

  pub read_fallback :
      (p : Json) (k fallback : String)
      → is_object p ≡ true
      → find p k ≡ none
      → value_string J p k fallback ≡ some fallback
  unfolding value_string
  read_fallback p k fallback o f = simp (o, f)

  pub read_bool :
      (p : Json) (k : String) (b fallback : Bool)
      → is_object p ≡ true
      → find p k ≡ some (boolean b)
      → value_bool J p k fallback ≡ some b
  unfolding value_bool
  read_bool p k b fallback o f = simp (o, f, get_bool-boolean)

  pub read_call_id :
      (p : Json) (call_id : String)
      → is_object p ≡ true
      → find p "call_id" ≡ none
      → find p "callId" ≡ some (string call_id)
      → parse_call_id J p ≡ some call_id
  unfolding parse_call_id
  read_call_id p call_id o n f =
      simp (read_fallback p "call_id" "" o n, read_string p "callId" call_id "" o f)

  pub object-IsPayload : (ms : List (String × Json)) → IsPayload (object ms)
  object-IsPayload ms = (is_object-object ms, is_null-object ms)

  pub reason-IsPayload :
      (reason : String) (ms : List (String × Json)) → IsPayload (with_reason J reason (object ms))
  unfolding with_reason
  reason-IsPayload reason ms = elim (Bool-cases (is_empty reason)) [
    | inl y ↦ rw (y, with_reason) (object-IsPayload ms)
    | inr n ↦
        rw (n, with_reason)
          (is_object-set _ _ _ (is_object-object ms), is_null-set _ _ _ (is_object-object ms))
  ]

  pub find-reason :
      (reason k : String) (ms : List (String × Json))
      → str_eq "reason" k ≡ false
      → find (with_reason J reason (object ms)) k ≡ member k ms
  unfolding with_reason
  find-reason reason k ms d = elim (Bool-cases (is_empty reason)) [
    | inl y ↦ simp (y, find-object)
    | inr n ↦ simp (n, find-set, is_object-object, find-object, d)
  ]

  -- An empty reason is left out, and read back as the empty text.
  pub read_reason :
      (reason : String) (ms : List (String × Json))
      → member "reason" ms ≡ none
      → value_string J (with_reason J reason (object ms)) "reason" "" ≡ some reason
  unfolding value_string with_reason
  read_reason reason ms n = elim (Bool-cases (is_empty reason)) [
    | inl y ↦ simp (y, is_object-object, find-object, n) (ap some (sym ((eq_iff reason "").0 y)))
    | inr e ↦ simp (e, is_object-set, is_object-object, find-set, get_string-string)
  ]

  pub read_members :
      (ms : List (String × Json)) (call_id : String)
      → member "call_id" ms ≡ none
      → member "callId" ms ≡ some (string call_id)
      → parse_call_id J (object ms) ≡ some call_id
  read_members ms call_id n f =
      read_call_id (object ms) call_id (is_object-object ms) (find-object ms "call_id" ∙ n)
        (find-object ms "callId" ∙ f)

  pub read_reasoned :
      (reason : String) (ms : List (String × Json)) (call_id : String)
      → member "call_id" ms ≡ none
      → member "callId" ms ≡ some (string call_id)
      → parse_call_id J (with_reason J reason (object ms)) ≡ some call_id
  read_reasoned reason ms call_id n f =
      read_call_id _ call_id (reason-IsPayload reason ms).0
        (find-reason reason "call_id" ms refl ∙ n) (find-reason reason "callId" ms refl ∙ f)
