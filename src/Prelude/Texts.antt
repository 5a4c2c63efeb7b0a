-- ===== src/Prelude/Texts.antt =====
-- Characters that a text lacks.
use Prim.Native.Char.{code}
use Prim.Native.Nat.{ℕ}
use Prim.Native.String as Text
use Prim.Native.String.append
use Prim.Native.String.{String}
use mathlib.Core.Logic.{◌≢◌}
use webrtc_peerconnection_cl.Prelude.Decimal.{text_append}

-- No character of that code.
abbrev pub Lacks : ℕ → String → Type 0
Lacks n Text.[] = Unit {0}
Lacks n (Text.◌∷◌ c s) = (code c ≢ n) × Lacks n s

pub text_append-Lacks : (n : ℕ) (a b : String) → Lacks n a → Lacks n b → Lacks n (text_append a b)
text_append-Lacks n Text.[] b l k = rw (append.nil b) k
text_append-Lacks n (Text.◌∷◌ d a) b l k =
    rw (append.cons d a b) (l.0, text_append-Lacks n a b l.1 k)
