-- ===== src/Json.antt =====
-- nlohmann::json, which the codec calls: its operations and the documented behaviour that the proofs
-- use. `none` of a `get` is the exception `type_error`, and so is `none` of `dump`, which throws it
-- on a text that is not UTF-8. `Wire` is the serialized text, which only `parse` and `dump` look
-- into. Values are compared as by the library's `operator==`.
use Prim.Native.Char.{code}
use Prim.Native.String as Text
use webrtc_peerconnection_cl.Prelude.{
  ◌^◌, ◌-◌, ◌≡◌, String, Bool, true, false, Option, none, some, List, [], ◌∷◌, ℕ, ℤ, pos, negsuc,
  ltb, ◌&&◌, str_eq, if◌then◌else◌,
}

pub data ParseOutcome {ℓ} (A : Type ℓ) : Type ℓ where
  parsed : A → ParseOutcome A
  parse_error : String → ParseOutcome A

module _ {V : Type 0} where
  -- The value of the first member of that name.
  abbrev pub member : String → List (String × V) → Option V
  member k [] = none
  member k ((j, v) ∷ ms) = if str_eq j k then some v else member k ms

abbrev pub is_ascii : String → Bool
is_ascii Text.[] = true
is_ascii (Text.◌∷◌ c s) = ltb (code c) 128 && is_ascii s

-- The integers of a signed type of that many bits.
abbrev pub is_signed : ℕ → ℤ → Bool
is_signed bits (pos n) = ltb n (2 ^ (bits - 1))
is_signed bits (negsuc n) = ltb n (2 ^ (bits - 1))

-- Members whose names and values can be written.
abbrev pub AllWritable : {V : Type 0} → (String → Bool) → (V → Bool) → List (String × V) → Type 0
AllWritable is_utf8 is_writable [] = Unit {0}
AllWritable is_utf8 is_writable ((k, v) ∷ ms) =
    (is_utf8 k ≡ true) × (is_writable v ≡ true) × AllWritable is_utf8 is_writable ms

pub record JsonLib : Type 1 where
  pub Json : Type 0
  pub Wire : Type 0
  pub parse : Wire → ParseOutcome Json
  pub dump : Json → Option Wire
  pub is_utf8 : String → Bool
  -- Every text in the value is UTF-8, the members' names too, and every number in it is an integer
  -- of 64 bits.
  pub is_writable : Json → Bool
  pub is_object : Json → Bool
  pub is_array : Json → Bool
  pub is_string : Json → Bool
  pub is_null : Json → Bool
  -- The member of an object; `none` where there is none, or no object.
  pub find : Json → String → Option Json
  pub elements : Json → List Json
  pub get_string : Json → Option String
  pub get_bool : Json → Option Bool
  pub get_int : Json → Option ℤ
  pub null : Json
  pub string : String → Json
  pub boolean : Bool → Json
  pub integer : ℤ → Json
  -- An initializer list of members, and `j[key] = value`.
  pub object : List (String × Json) → Json
  pub set : String → Json → Json → Json
  pub parse-dump :
      (j : Json) → is_writable j ≡ true → (w : Wire) × (dump j ≡ some w) × (parse w ≡ parsed j)
  pub dump-string : (s : String) → is_utf8 s ≡ false → dump (string s) ≡ none
  pub dump-member : (j v : Json) (k : String) → find j k ≡ some v → dump v ≡ none → dump j ≡ none
  pub is_utf8-ascii : (s : String) → is_ascii s ≡ true → is_utf8 s ≡ true
  pub is_writable-string : (s : String) → is_utf8 s ≡ true → is_writable (string s) ≡ true
  pub is_writable-boolean : (b : Bool) → is_writable (boolean b) ≡ true
  pub is_writable-integer : (i : ℤ) → is_signed 64 i ≡ true → is_writable (integer i) ≡ true
  pub is_writable-object :
      (ms : List (String × Json))
      → AllWritable is_utf8 is_writable ms
      → is_writable (object ms) ≡ true
  pub is_writable-set :
      (k : String) (v j : Json)
      → is_object j ≡ true
      → is_utf8 k ≡ true
      → is_writable v ≡ true
      → is_writable j ≡ true
      → is_writable (set k v j) ≡ true
  pub is_object-object : (ms : List (String × Json)) → is_object (object ms) ≡ true
  pub is_null-object : (ms : List (String × Json)) → is_null (object ms) ≡ false
  pub is_null-null : is_null null ≡ true
  pub find-object : (ms : List (String × Json)) (k : String) → find (object ms) k ≡ member k ms
  pub is_object-set : (k : String) (v j : Json) → is_object j ≡ true → is_object (set k v j) ≡ true
  pub is_null-set : (k : String) (v j : Json) → is_object j ≡ true → is_null (set k v j) ≡ false
  pub find-set :
      (k q : String) (v j : Json)
      → is_object j ≡ true
      → find (set k v j) q ≡ (if str_eq k q then some v else find j q)
  pub is_object-string : (s : String) → is_object (string s) ≡ false
  pub is_null-string : (s : String) → is_null (string s) ≡ false
  pub get_string-string : (s : String) → get_string (string s) ≡ some s
  pub get_bool-boolean : (b : Bool) → get_bool (boolean b) ≡ some b
  pub get_int-integer : (i : ℤ) → is_signed 32 i ≡ true → get_int (integer i) ≡ some i
