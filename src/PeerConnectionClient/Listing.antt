-- ===== src/PeerConnectionClient/Listing.antt =====
-- The body in which the server lists the clients (src/peer_connection_client.cc).
use webrtc_peerconnection_cl.Prelude.{
  ℕ, ◌^◌, ◌<◌, ◌≡◌, ◌≢◌, refl, true, false, List, [], ◌∷◌, ◌++◌, ℤ, pos, ◌==◌, if◌then◌else◌, arith,
  append_nil, append_assoc, Bool-cases, inl, inr,
}
use webrtc_peerconnection_cl.PeerConnectionClient.Text.{Bytes, int_eq, decimal}
use webrtc_peerconnection_cl.PeerConnectionClient.Response.{lines_from, lines}
use webrtc_peerconnection_cl.PeerConnectionClient.Numbers.{
  LacksByte, decimal-LacksByte, append-LacksByte,
}
use webrtc_peerconnection_cl.PeerConnectionClient.Entries.{entry_line, parse_entry-line}
use webrtc_peerconnection_cl.PeerConnectionClient.Reading.{insert_peer, add_peer, add_listed}
use webrtc_peerconnection_cl.PeerConnectionClient.{Call, peer_connected, Client}

-- A client that the server lists: its number and its name.
abbrev pub Listed : Type 0
Listed = ℕ × Bytes

abbrev pub IsListed : List Listed → Type 0
IsListed [] = Unit {0}
IsListed ((id, name) ∷ ps) =
    (name ≢ []) × LacksByte 44 name × LacksByte 10 name × (id < 2 ^ 31) × IsListed ps

-- The body of the server's answer.
abbrev pub listing : List Listed → Bytes
listing [] = []
listing ((id, name) ∷ ps) = entry_line name id true (10 ∷ listing ps)

abbrev pub others : ℤ → List Listed → List Listed
others me [] = []
others me ((id, name) ∷ ps) = if int_eq (pos id) me then others me ps else (id, name) ∷ others me ps

abbrev pub announced : List Listed → List Call
announced [] = []
announced ((id, name) ∷ ps) = peer_connected (pos id) name ∷ announced ps

abbrev pub insert_all : List Listed → List (ℤ × Bytes) → List (ℤ × Bytes)
insert_all [] peers = peers
insert_all ((id, name) ∷ ps) peers = insert_all ps (insert_peer (pos id) name peers)

lines_from-LacksByte :
    (line s rest : Bytes)
    → LacksByte 10 s
    → lines_from line (s ++ 10 ∷ rest) ≡ (line ++ s) ∷ lines_from [] rest
unfolding lines_from
lines_from-LacksByte line [] rest l = rw (append_nil line) refl
lines_from-LacksByte line (c ∷ s) rest l =
    let other : (c == 10) ≡ false = ground (arith, l.0) in
    rw
      (
        lines_from,
        other,
        lines_from-LacksByte (line ++ c ∷ []) s rest l.1,
        append_assoc line (c ∷ []) s,
      )
      refl

entry_line-LacksByte :
    (name : Bytes) (id : ℕ) → LacksByte 10 name → LacksByte 10 (entry_line name id true [])
entry_line-LacksByte name id l = append-LacksByte 10 name (44 ∷ (decimal id ++ 44 ∷ 49 ∷ [])) l (
  ground arith,
  append-LacksByte 10 (decimal id) (44 ∷ 49 ∷ []) (decimal-LacksByte 10 id (omega arith))
      (ground arith, (ground arith, tt)),
)

entry_line-append :
    (name : Bytes) (id : ℕ) (rest : Bytes)
    → entry_line name id true rest ≡ entry_line name id true [] ++ rest
entry_line-append name id rest = rw (
  append_assoc name (44 ∷ (decimal id ++ 44 ∷ 49 ∷ [])) rest,
  append_assoc (decimal id) (44 ∷ 49 ∷ []) rest,
)

-- The lines of the listing are the entries.
lines-listing :
    (id : ℕ) (name : Bytes) (ps : List Listed)
    → LacksByte 10 name
    → lines (listing ((id, name) ∷ ps)) ≡ entry_line name id true [] ∷ lines (listing ps)
unfolding lines
lines-listing id name ps l = rw (entry_line-append name id (10 ∷ listing ps)) (
    lines_from-LacksByte [] (entry_line name id true []) (listing ps)
      (entry_line-LacksByte name id l))

pub add_listed-lines :
    (ps : List Listed) (c : Client)
    → IsListed ps
    → add_listed (lines (listing ps)) c
      ≡ (record c { peers = insert_all (others c.my_id ps) c.peers }, announced (others c.my_id ps))
unfolding add_listed
add_listed-lines [] c h = unfold add_listed lines lines_from in refl
add_listed-lines ((id, name) ∷ ps) c (n, comma, line, small, h) =
    rw
      (lines-listing id name ps line, add_listed, parse_entry-line name id true [] n comma small tt)
      (elim (Bool-cases (int_eq (pos id) c.my_id)) [
        | inl mine ↦ rw mine (add_listed-lines ps c h)
        | inr not_mine ↦
            rw
              (
                not_mine,
                add_peer,
                add_listed-lines ps (record c { peers = insert_peer (pos id) name c.peers }) h,
              )
              refl
      ])
