-- ===== src/PeerConnectionClient/Entries.antt =====
-- The lines in which the server names a client (src/peer_connection_client.cc).
use webrtc_peerconnection_cl.Prelude.{
  ℕ, zero, suc, ◌+◌, ◌^◌, ◌<◌, ◌≡◌, ◌≢◌, refl, ap, ◌∙◌, Bool, true, false, not, some, [], ◌∷◌, ◌++◌,
  pos, length, take, drop, arith, drop_nil, sym,
}
use webrtc_peerconnection_cl.PeerConnectionClient.Text.{
  Bytes, int_eq, starts_with, find_at, find, find_from, scan, skip_spaces, signed_number, atoi,
  decimal,
}
use webrtc_peerconnection_cl.PeerConnectionClient.Response.{is_nil, parse_entry, entry_connected}
use webrtc_peerconnection_cl.PeerConnectionClient.Numbers.{
  LacksByte, EndsNumber, scan-EndsNumber, atoi-decimal, decimal-LacksByte,
}

find_at-LacksByte :
    (b i : ℕ) (name rest : Bytes)
    → LacksByte b name
    → find_at (b ∷ []) i (name ++ b ∷ rest) ≡ some (i + length name)
unfolding find_at starts_with
find_at-LacksByte b i [] rest l = ground arith
find_at-LacksByte b i (c ∷ s) rest l = ground (arith, l.0, find_at-LacksByte b (i + 1) s rest l.1)

take-length : (a b : Bytes) → take (length a) (a ++ b) ≡ a
take-length [] b = refl
take-length (c ∷ a) b = ap (λ s. c ∷ s) (take-length a b)

drop-length : (a b : Bytes) → drop (length a) (a ++ b) ≡ b
drop-length [] b = refl
drop-length (c ∷ a) b = drop-length a b

drop-after : (a : Bytes) (c : ℕ) (b : Bytes) → drop (length a + 1) (a ++ c ∷ b) ≡ b
drop-after [] c b = ground arith
drop-after (d ∷ a) c b =
    let e : suc (length a) + 1 ≡ suc (length a + 1) = omega arith in rw (e, drop-after a c b)

drop-add : (m n : ℕ) (s : Bytes) → drop (m + n) s ≡ drop n (drop m s)
drop-add zero n s = ap (λ k. drop k s) (omega arith)
drop-add (suc m) n [] = ap (λ k. drop k []) (omega arith) ∙ drop_nil (suc m + n) ∙ sym (drop_nil n)
drop-add (suc m) n (c ∷ s) = let e : suc m + n ≡ suc (m + n) = omega arith in rw e (drop-add m n s)

-- `1` or `0`
abbrev pub flag : Bool → ℕ
flag true = 49
flag false = 48

-- The line of the server for a client: `<name>,<id>,<connected>`.
abbrev pub entry_line : Bytes → ℕ → Bool → Bytes → Bytes
entry_line name id is_connected rest = name ++ 44 ∷ (decimal id ++ 44 ∷ flag is_connected ∷ rest)

atoi-flag :
    (is_connected : Bool) (rest : Bytes)
    → EndsNumber rest
    → not (int_eq (atoi (flag is_connected ∷ rest)) (pos 0)) ≡ is_connected
unfolding atoi skip_spaces signed_number scan
atoi-flag true rest e = rw (scan-EndsNumber 1 rest e) refl
atoi-flag false rest e = rw (scan-EndsNumber 0 rest e) refl

entry_connected-line :
    (name : Bytes) (id : ℕ) (is_connected : Bool) (rest : Bytes)
    → EndsNumber rest
    → entry_connected (length name + 1) (entry_line name id is_connected rest) ≡ is_connected
unfolding entry_connected find_from
entry_connected-line name id is_connected rest e =
    let after = flag is_connected ∷ rest in
    let behind = decimal id ++ 44 ∷ after in
    let found =
      find_at-LacksByte 44 (length name + 1) (decimal id) after
        (decimal-LacksByte 44 id (omega arith)) in
    let sum : length name + 1 + length (decimal id) + 1
        ≡ length name + 1 + (length (decimal id) + 1) =
      omega arith in
    rw
      (
        entry_connected,
        find_from,
        drop-after name 44 behind,
        found,
        sum,
        drop-add (length name + 1) (length (decimal id) + 1) (name ++ 44 ∷ behind),
        drop-after name 44 behind,
        drop-after (decimal id) 44 after,
      )
      (atoi-flag is_connected rest e)

is_nil-false : (name : Bytes) → name ≢ [] → not (is_nil name) ≡ true
is_nil-false [] n = absurd (n refl)
is_nil-false (c ∷ name) n = refl

-- `ParseEntry` reads back the line that the server writes for a client, whatever bytes but commas its
-- name has, if the name is not empty and the number is an `int`, and whether a line feed follows or
-- not: the name, the number and whether the client is connected.
pub parse_entry-line :
    (name : Bytes) (id : ℕ) (is_connected : Bool) (rest : Bytes)
    → name ≢ []
    → LacksByte 44 name
    → id < 2 ^ 31
    → EndsNumber rest
    → parse_entry (entry_line name id is_connected rest)
      ≡ (true, record { name = name; id = pos id; is_connected = is_connected })
unfolding parse_entry find
parse_entry-line name id is_connected rest n l h e =
    let behind = decimal id ++ 44 ∷ flag is_connected ∷ rest in
    let start : 0 + length name ≡ length name = omega arith in
    rw
      (
        parse_entry,
        find,
        find_at-LacksByte 44 0 name behind l,
        start,
        take-length name (44 ∷ behind),
        drop-after name 44 behind,
        atoi-decimal id (44 ∷ flag is_connected ∷ rest) h refl,
        entry_connected-line name id is_connected rest e,
      )
      (rw (is_nil-false name n) refl)
