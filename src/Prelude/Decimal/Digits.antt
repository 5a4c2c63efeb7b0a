-- ===== src/Prelude/Decimal/Digits.antt =====
-- A number is written with digits, at least one.
use Prim.Native.Nat.{ℕ, zero, suc, ◌/◌, ◌%◌}
use Prim.Native.String as Text
use Prim.Native.String.append
use Prim.Native.String.{String}
use mathlib.Core.Bool.{Bool, true, false}
use mathlib.Core.Path.{subst}
use mathlib.Core.Logic.{◌≢◌}
use native.Mathlib.Omega.{arith}
use webrtc_peerconnection_cl.Prelude.Decimal.{text_append, digit, decimal_from, to_string}
use webrtc_peerconnection_cl.Prelude.Tests.{ltb, ◌==◌, if◌then◌else◌}
use webrtc_peerconnection_cl.Prelude.Texts.{Lacks, text_append-Lacks}

if-holds {ℓ} : (P : String → Type ℓ) (b : Bool) (x y : String) → P x → P y → P (if b then x else y)
if-holds P true x y h k = h
if-holds P false x y h k = k

-- What holds of each of the ten digits.
digit-holds :
    (P : String → Type 0) (d : ℕ)
    → (P "0" × P "1" × P "2" × P "3" × P "4" × P "5" × P "6" × P "7" × P "8" × P "9")
    → P (digit d)
unfolding digit
digit-holds P d h = if-holds P (d == 0) "0" _ h.0 (
    if-holds P (d == 1) "1" _ h.1 (
      if-holds P (d == 2) "2" _ h.2 (
        if-holds P (d == 3) "3" _ h.3 (
          if-holds P (d == 4) "4" _ h.4 (
            if-holds P (d == 5) "5" _ h.5 (
              if-holds P (d == 6) "6" _ h.6
                (if-holds P (d == 7) "7" _ h.7 (if-holds P (d == 8) "8" _ h.8 h.9))))))))

digit-Lacks47 : (d : ℕ) → Lacks 47 (digit d)
digit-Lacks47 d = digit-holds (Lacks 47) d (ground arith)

digit-Lacks58 : (d : ℕ) → Lacks 58 (digit d)
digit-Lacks58 d = digit-holds (Lacks 58) d (ground arith)

decimal_from-Lacks : (k f n : ℕ) → ((d : ℕ) → Lacks k (digit d)) → Lacks k (decimal_from f n)
unfolding decimal_from
decimal_from-Lacks k zero n h = tt
decimal_from-Lacks k (suc f) n h = ground (
  arith,
  h n,
  text_append-Lacks k (decimal_from f (n / 10)) (digit (n % 10)) (decimal_from-Lacks k f (n / 10) h)
      (h (n % 10)),
)

-- Neither `/` nor `:`.
pub to_string-Lacks : (n : ℕ) → Lacks 47 (to_string n) × Lacks 58 (to_string n)
unfolding to_string
to_string-Lacks n =
    (decimal_from-Lacks 47 (suc n) n digit-Lacks47, decimal_from-Lacks 58 (suc n) n digit-Lacks58)

abbrev Nonempty : String → Type 0
Nonempty Text.[] = ⊥
Nonempty (Text.◌∷◌ c s) = Unit {0}

text_append-Nonempty : (a b : String) → Nonempty b → Nonempty (text_append a b)
text_append-Nonempty Text.[] b h = rw (append.nil b) h
text_append-Nonempty (Text.◌∷◌ c a) b h = rw (append.cons c a b) tt

decimal_from-Nonempty : (f n : ℕ) → Nonempty (decimal_from (suc f) n)
unfolding decimal_from
decimal_from-Nonempty f n =
    let some_digit : (d : ℕ) → Nonempty (digit d) =
      λ d. digit-holds Nonempty d (tt, tt, tt, tt, tt, tt, tt, tt, tt, tt) in
    if-holds Nonempty (ltb n 10) (digit n) _ (some_digit n)
      (text_append-Nonempty (decimal_from f (n / 10)) (digit (n % 10)) (some_digit (n % 10)))

pub to_string-nonempty : (n : ℕ) → to_string n ≢ ""
unfolding to_string
to_string-nonempty n e = subst Nonempty e (decimal_from-Nonempty n n)
