-- ===== src/PeerConnectionClient/Response.antt =====
-- src/peer_connection_client.cc: what is read from a response of the server.
use webrtc_peerconnection_cl.Prelude.{
  ℕ, ◌+◌, ◌-◌, ◌%◌, ◌^◌, Bool, true, false, not, Option, none, some, List, [], ◌∷◌, ◌++◌, ℤ, pos,
  negsuc, ltb, leb, length, ◌==◌, if◌then◌else◌, take, drop,
}
use webrtc_peerconnection_cl.PeerConnectionClient.Text.{
  Bytes, codes, int_eq, to_size_t, npos, find, find_from, c_str, atoi,
}

abbrev pub crlf : Bytes
crlf = 13 ∷ 10 ∷ []

unfoldable pub header_end : Bytes
header_end = 13 ∷ 10 ∷ 13 ∷ 10 ∷ []

unfoldable pub content_length_header : Bytes
unfolding codes
content_length_header = crlf ++ codes "Content-Length: "

unfoldable pub connection_header : Bytes
unfolding codes
connection_header = crlf ++ codes "Connection: "

unfoldable pub pragma_header : Bytes
unfolding codes
pragma_header = crlf ++ codes "Pragma: "

abbrev pub is_nil : Bytes → Bool
is_nil [] = true
is_nil (c ∷ s) = false

abbrev pub same_text : Bytes → Bytes → Bool
same_text [] [] = true
same_text [] (c ∷ s) = false
same_text (c ∷ s) [] = false
same_text (c ∷ s) (d ∷ t) = let rest = same_text s t in if c == d then rest else false

unfoldable pub header_number : Bytes → ℕ → Bytes → Option ℕ
unfolding find to_size_t atoi
header_number text eoh header_pattern = elim (find header_pattern text) [
  | none ↦ none
  | some found ↦
      if ltb found eoh
      then some (to_size_t (atoi (drop (found + length header_pattern) text)))
      else none
]

unfoldable pub header_text : Bytes → ℕ → Bytes → Option Bytes
unfolding find find_from
header_text text eoh header_pattern = elim (find header_pattern text) [
  | none ↦ none
  | some found ↦
      let begin = found + length header_pattern in
      let end : ℕ = elim (find_from crlf begin text) [ some e ↦ e | none ↦ eoh ] in
      if ltb found eoh then some (take (end - begin) (drop begin text)) else none
]

-- `should_close`
unfoldable pub asks_to_close : Bytes → ℕ → Bool
unfolding header_text codes connection_header
asks_to_close text eoh = elim (header_text text eoh connection_header) [
  | none ↦ false
  | some value ↦ same_text value (codes "close")
]

-- Where the headers end and the announced length, once everything has come.
unfoldable pub complete : Bytes → Option (ℕ × ℕ)
unfolding find header_end header_number content_length_header
complete text = elim (find header_end text) [
  | none ↦ none
  | some i ↦ elim (header_number text i content_length_header) [
    | none ↦ none
    | some content_length ↦
        if leb ((i + 4 + content_length) % 2 ^ 64) (length text)
        then some (i, content_length)
        else none
  ]
]

pub record Entry : Type 0 where
  pub name : Bytes
  pub id : ℤ
  pub is_connected : Bool

unfoldable pub entry_connected : ℕ → Bytes → Bool
unfolding find_from atoi
entry_connected from entry = elim (find_from (44 ∷ []) from entry) [
  | none ↦ false
  | some separator ↦ not (int_eq (atoi (drop (separator + 1) entry)) (pos 0))
]

-- `ParseEntry`, with its out parameters, which are empty, zero and false before.
unfoldable pub parse_entry : Bytes → Bool × Entry
unfolding find atoi entry_connected
parse_entry entry = elim (find (44 ∷ []) entry) [
  | none ↦ (false, record { name = []; id = pos 0; is_connected = false })
  | some separator ↦ (
    not (is_nil (take separator entry)),
    record {
      name = take separator entry;
      id = atoi (drop (separator + 1) entry);
      is_connected = entry_connected (separator + 1) entry;
    },
  )
]

unfoldable pub response_status : Bytes → ℤ
unfolding find atoi c_str
response_status response = elim (find (32 ∷ []) (c_str response)) [
  | none ↦ negsuc 0
  | some position ↦ atoi (drop (position + 1) (c_str response))
]

-- The number of the `Pragma` header, and `static_cast<size_t>(-1)` without it.
unfoldable pub pragma_of : Bytes → ℕ → ℕ
unfolding header_number pragma_header
pragma_of text eoh = elim (header_number text eoh pragma_header) [ some n ↦ n | none ↦ npos ]

-- The texts before each line feed, of which the first goes on from `line`.
unfoldable pub lines_from : Bytes → Bytes → List Bytes
lines_from line [] = []
lines_from line (c ∷ s) =
    let rest = lines_from (if c == 10 then [] else line ++ c ∷ []) s in
    if c == 10 then line ∷ rest else rest

unfoldable pub lines : Bytes → List Bytes
unfolding lines_from
lines s = lines_from [] s
