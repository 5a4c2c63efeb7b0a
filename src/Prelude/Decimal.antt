-- ===== src/Prelude/Decimal.antt =====
-- `std::to_string` of an unsigned number, and `+` on texts.
pub mod Digits
use Prim.Native.Nat.{ℕ, zero, suc, ◌/◌, ◌%◌}
use Prim.Native.String.{String}
use webrtc_peerconnection_cl.Prelude.Tests.{ltb, ◌==◌, if◌then◌else◌}

abbrev pub text_append : String → String → String
text_append = Prim.Native.String.◌++◌

unfoldable pub digit : ℕ → String
digit d =
    if d == 0
    then "0"
    else if d == 1
    then "1"
    else if d == 2
    then "2"
    else if d == 3
    then "3"
    else if d == 4
    then "4"
    else if d == 5
    then "5"
    else if d == 6
    then "6"
    else if d == 7
    then "7"
    else if d == 8
    then "8"
    else "9"

-- The fuel `suc n` is enough: each round divides by ten.
unfoldable pub decimal_from : ℕ → ℕ → String
unfolding digit
decimal_from zero n = ""
decimal_from (suc f) n =
    let rest = decimal_from f (n / 10) in
    if ltb n 10 then digit n else text_append rest (digit (n % 10))

unfoldable pub to_string : ℕ → String
unfolding decimal_from
to_string n = decimal_from (suc n) n
