-- ===== src/Codec/Sample.antt =====
-- A small JSON library for the tests: objects are chains of members, a later `set` hides an earlier
-- member, arrays are left out, and the serialized text is the value itself, or garbage.
use webrtc_peerconnection_cl.Prelude.{
  ◌≡◌, refl, ap, String, Bool, true, false, Option, none, some, List, [], ◌∷◌, ℤ, str_eq,
  if◌then◌else◌, ◌&&◌, inl, inr, Bool-cases, arith,
}
use webrtc_peerconnection_cl.Json.{
  JsonLib, ParseOutcome, parsed, parse_error, member, is_ascii, AllWritable,
}

pub data SampleJson : Type 0 where
  null_value no_members : SampleJson
  text : String → SampleJson
  truth : Bool → SampleJson
  number : ℤ → SampleJson
  with_member : String → SampleJson → SampleJson → SampleJson

abbrev is_sample_object : SampleJson → Bool
is_sample_object no_members = true
is_sample_object (with_member k v rest) = true
is_sample_object _ = false

-- Its texts are UTF-8 without characters from 128 on.
abbrev is_sample_writable : SampleJson → Bool
is_sample_writable (text s) = is_ascii s
is_sample_writable (with_member k v rest) =
    is_ascii k && (is_sample_writable v && is_sample_writable rest)
is_sample_writable _ = true

abbrev is_text : SampleJson → Bool
is_text (text s) = true
is_text _ = false

abbrev is_null_value : SampleJson → Bool
is_null_value null_value = true
is_null_value _ = false

abbrev lookup : SampleJson → String → Option SampleJson
lookup (with_member k v rest) q = let r = lookup rest q in if str_eq k q then some v else r
lookup _ q = none

abbrev as_text : SampleJson → Option String
as_text (text s) = some s
as_text _ = none

abbrev as_truth : SampleJson → Option Bool
as_truth (truth b) = some b
as_truth _ = none

abbrev as_number : SampleJson → Option ℤ
as_number (number i) = some i
as_number _ = none

abbrev from_members : List (String × SampleJson) → SampleJson
from_members [] = no_members
from_members ((k, v) ∷ ms) = with_member k v (from_members ms)

abbrev read : Option SampleJson → ParseOutcome SampleJson
read none = parse_error "garbage"
read (some j) = parsed j

pub is_object-from : (ms : List (String × SampleJson)) → is_sample_object (from_members ms) ≡ true
is_object-from [] = refl
is_object-from ((k, v) ∷ ms) = refl

pub is_null-from : (ms : List (String × SampleJson)) → is_null_value (from_members ms) ≡ false
is_null-from [] = refl
is_null-from ((k, v) ∷ ms) = refl

pub lookup-from :
    (ms : List (String × SampleJson)) (q : String) → lookup (from_members ms) q ≡ member q ms
lookup-from [] q = refl
lookup-from ((k, v) ∷ ms) q = ap (λ r. if str_eq k q then some v else r) (lookup-from ms q)

abbrev write : SampleJson → Option (Option SampleJson)
write j = if is_sample_writable j then some (some j) else none

pub read-write :
    (j : SampleJson)
    → is_sample_writable j ≡ true
    → (w : Option SampleJson) × (write j ≡ some w) × (read w ≡ parsed j)
read-write j h = (some j, ground arith, refl)

pub write-text : (s : String) → is_ascii s ≡ false → write (text s) ≡ none
write-text s h = ground arith

pub write-none : (j : SampleJson) → write j ≡ none → is_sample_writable j ≡ false
write-none j h = ground arith

pub written-member :
    (j v : SampleJson) (k : String)
    → lookup j k ≡ some v
    → is_sample_writable v ≡ false
    → is_sample_writable j ≡ false
written-member (with_member q u rest) v k f n = elim (Bool-cases (str_eq q k)) [
  | inl y ↦ ground arith
  | inr e ↦
      let inside : lookup rest k ≡ some v = ground arith in
      let h = written-member rest v k inside n in ground arith
]
written-member null_value v k f n = ground arith
written-member no_members v k f n = ground arith
written-member (text s) v k f n = ground arith
written-member (truth b) v k f n = ground arith
written-member (number i) v k f n = ground arith

pub write-member :
    (j v : SampleJson) (k : String) → lookup j k ≡ some v → write v ≡ none → write j ≡ none
write-member j v k f n = rw (written-member j v k f (write-none v n)) refl

pub writable-from :
    (ms : List (String × SampleJson))
    → AllWritable is_ascii is_sample_writable ms
    → is_sample_writable (from_members ms) ≡ true
writable-from [] h = refl
writable-from ((k, v) ∷ ms) h = rw (h.0, h.1, writable-from ms h.2) refl

pub writable-with :
    (k : String) (v j : SampleJson)
    → is_sample_object j ≡ true
    → is_ascii k ≡ true
    → is_sample_writable v ≡ true
    → is_sample_writable j ≡ true
    → is_sample_writable (with_member k v j) ≡ true
writable-with k v j o h l m = ground arith

abbrev pub sample_json : JsonLib
sample_json = record {
  Json = SampleJson;
  Wire = Option SampleJson;
  parse = read;
  dump = write;
  is_utf8 = is_ascii;
  is_writable = is_sample_writable;
  is_object = is_sample_object;
  is_array = λ j. false;
  is_string = is_text;
  is_null = is_null_value;
  find = lookup;
  elements = λ j. [];
  get_string = as_text;
  get_bool = as_truth;
  get_int = as_number;
  null = null_value;
  string = text;
  boolean = truth;
  integer = number;
  object = from_members;
  set = with_member;
  parse-dump = read-write;
  dump-string = write-text;
  dump-member = write-member;
  is_utf8-ascii = λ s h. h;
  is_writable-string = λ s h. h;
  is_writable-boolean = λ b. refl;
  is_writable-integer = λ i h. refl;
  is_writable-object = writable-from;
  is_writable-set = writable-with;
  is_object-object = is_object-from;
  is_null-object = is_null-from;
  is_null-null = refl;
  find-object = lookup-from;
  is_object-set = λ k v j o. refl;
  is_null-set = λ k v j o. refl;
  find-set = λ k q v j o. refl;
  is_object-string = λ s. refl;
  is_null-string = λ s. refl;
  get_string-string = λ s. refl;
  get_bool-boolean = λ b. refl;
  get_int-integer = λ i h. refl;
}
