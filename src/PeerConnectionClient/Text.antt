-- ===== src/PeerConnectionClient/Text.antt =====
-- What src/peer_connection_client.cc uses of the standard library on texts and integers.
use Prim.Native.Char.{code}
use Prim.Native.String as Text
use webrtc_peerconnection_cl.Prelude.{
  ℕ, ◌+◌, ◌-◌, ◌*◌, ◌%◌, ◌^◌, String, Bool, true, false, ◌&&◌, ◌||◌, Option, none, some, List, [],
  ◌∷◌, ℤ, pos, negsuc, ltb, leb, ◌==◌, if◌then◌else◌, drop, to_string,
}

abbrev pub Bytes : Type 0
Bytes = List ℕ

unfoldable pub codes : String → Bytes
codes Text.[] = []
codes (Text.◌∷◌ c s) = code c ∷ codes s

abbrev pub int_eq : ℤ → ℤ → Bool
int_eq (pos m) (pos n) = m == n
int_eq (negsuc m) (negsuc n) = m == n
int_eq (pos m) (negsuc n) = false
int_eq (negsuc m) (pos n) = false

-- The conversions of `int` to `size_t` and back, of 32 and 64 bits.
unfoldable pub to_size_t : ℤ → ℕ
to_size_t (pos n) = n
to_size_t (negsuc n) = 2 ^ 64 - (n + 1)

unfoldable pub to_int : ℕ → ℤ
to_int n = let r = n % 2 ^ 32 in if ltb r (2 ^ 31) then pos r else negsuc (2 ^ 32 - (r + 1))

abbrev pub npos : ℕ
npos = 2 ^ 64 - 1

unfoldable pub starts_with : Bytes → Bytes → Bool
starts_with [] s = true
starts_with (p ∷ ps) [] = false
starts_with (p ∷ ps) (c ∷ s) = let rest = starts_with ps s in p == c && rest

-- `find` of a pattern that is not empty, in a text whose first position is `i`.
unfoldable pub find_at : Bytes → ℕ → Bytes → Option ℕ
unfolding starts_with
find_at pattern_ i [] = none
find_at pattern_ i (c ∷ s) =
    let later = find_at pattern_ (i + 1) s in if starts_with pattern_ (c ∷ s) then some i else later

unfoldable pub find : Bytes → Bytes → Option ℕ
unfolding find_at
find pattern_ s = find_at pattern_ 0 s

unfoldable pub find_from : Bytes → ℕ → Bytes → Option ℕ
unfolding find_at
find_from pattern_ position s = find_at pattern_ position (drop position s)

-- The bytes before the first zero.
unfoldable pub c_str : Bytes → Bytes
c_str [] = []
c_str (c ∷ s) = let rest = c_str s in if c == 0 then [] else c ∷ rest

abbrev pub is_space : ℕ → Bool
is_space c = c == 32 || (leb 9 c && leb c 13)

abbrev pub is_digit : ℕ → Bool
is_digit c = leb 48 c && leb c 57

unfoldable pub skip_spaces : Bytes → Bytes
skip_spaces [] = []
skip_spaces (c ∷ s) = let rest = skip_spaces s in if is_space c then rest else c ∷ s

-- The number that the digits in front spell, behind `n`.
unfoldable pub scan : ℕ → Bytes → ℕ
scan n [] = n
scan n (c ∷ s) = elim (is_digit c) [ true ↦ scan (n * 10 + (c - 48)) s | false ↦ n ]

abbrev pub limited : ℕ → ℤ
limited n = if ltb n (2 ^ 31) then pos n else pos (2 ^ 31 - 1)

abbrev pub limited_negative : ℕ → ℤ
limited_negative n =
    if n == 0 then pos 0 else if leb n (2 ^ 31) then negsuc (n - 1) else negsuc (2 ^ 31 - 1)

unfoldable pub signed_number : Bytes → ℤ
unfolding scan
signed_number [] = pos 0
signed_number (c ∷ s) =
    if c == 45
    then limited_negative (scan 0 s)
    else if c == 43
    then limited (scan 0 s)
    else limited (scan 0 (c ∷ s))

-- A number out of range gives the nearest one.
unfoldable pub atoi : Bytes → ℤ
unfolding skip_spaces signed_number
atoi s = signed_number (skip_spaces s)

-- `%i` and `%zu`
unfoldable pub decimal : ℕ → Bytes
unfolding codes to_string
decimal n = codes (to_string n)

unfoldable pub signed_decimal : ℤ → Bytes
unfolding decimal
signed_decimal (pos n) = decimal n
signed_decimal (negsuc n) = 45 ∷ decimal (n + 1)
