-- ===== src/SignalClient/Address.antt =====
-- `ParseUrl` takes an address apart as it was put together (src/signalclient.cc).
use Prim.Native.Char.{Char, code}
use Prim.Native.String as Text
use Prim.Native.String.append
use Prim.Native.String.compare
use webrtc_peerconnection_cl.Prelude.{
  ℕ, ◌≡◌, ◌≢◌, refl, ap, ◌∙◌, String, none, some, text_append, Lacks, text_append-Lacks, arith,
  eq_iff,
}
use webrtc_peerconnection_cl.SignalClient.Url.{
  parsed_url, strip, break_at, split_last, authority_of, parse_url,
}

strip-text_append : (p s : String) → strip p (text_append p s) ≡ some s
unfolding strip
strip-text_append Text.[] s = ap some (append.nil s)
strip-text_append (Text.◌∷◌ c p) s = rw (append.cons c p s) (ground (arith, strip-text_append p s))

break_at-text_append :
    (n : ℕ) (a : String) (c : Char) (b : String)
    → Lacks n a
    → code c ≡ n
    → break_at n (text_append a (Text.◌∷◌ c b)) ≡ (a, Text.◌∷◌ c b)
unfolding break_at
break_at-text_append n Text.[] c b l e = rw (append.nil (Text.◌∷◌ c b)) (ground (arith, e))
break_at-text_append n (Text.◌∷◌ d a) c b l e =
    rw (append.cons d a (Text.◌∷◌ c b)) (ground (arith, l.0, break_at-text_append n a c b l.1 e))

split_last-none : (n : ℕ) (b : String) → Lacks n b → split_last n b ≡ none
unfolding split_last
split_last-none n Text.[] l = refl
split_last-none n (Text.◌∷◌ d b) l = ground (arith, l.0, split_last-none n b l.1)

split_last-text_append :
    (n : ℕ) (a : String) (c : Char) (b : String)
    → Lacks n b
    → code c ≡ n
    → split_last n (text_append a (Text.◌∷◌ c b)) ≡ some (a, b)
unfolding split_last
split_last-text_append n Text.[] c b l e =
    rw (append.nil (Text.◌∷◌ c b)) (ground (arith, e, split_last-none n b l))
split_last-text_append n (Text.◌∷◌ d a) c b l e =
    rw (append.cons d a (Text.◌∷◌ c b)) (ground (arith, split_last-text_append n a c b l e))

break_at-none : (n : ℕ) (a : String) → Lacks n a → break_at n a ≡ (a, "")
unfolding break_at
break_at-none n Text.[] l = refl
break_at-none n (Text.◌∷◌ d a) l = ground (arith, l.0, break_at-none n a l.1)

abbrev slash : Char
slash = Text.char_at "/" 0

abbrev colon : Char
colon = Text.char_at ":" 0

slash_lem : (t : String) → text_append "/" t ≡ Text.◌∷◌ slash t
slash_lem t = append.cons slash Text.[] t ∙ ap (λ s. Text.◌∷◌ slash s) (append.nil t)

colon_lem : (t : String) → text_append ":" t ≡ Text.◌∷◌ colon t
colon_lem t = append.cons colon Text.[] t ∙ ap (λ s. Text.◌∷◌ colon s) (append.nil t)

abbrev pub authority : String → String → String
authority host port = text_append host (text_append ":" port)

authority-parts :
    (host port target : String)
    → Lacks 58 port
    → host ≢ ""
    → port ≢ ""
    → authority_of (authority host port) target ≡ parsed_url host port target
unfolding authority_of
authority-parts host port target l h p =
    rw (colon_lem port, authority_of, split_last-text_append 58 host colon port l refl)
      (ground (arith, eq_iff host "", eq_iff port ""))

authority-Lacks :
    (host port : String) → Lacks 47 host → Lacks 47 port → Lacks 47 (authority host port)
authority-Lacks host port l k =
    rw (colon_lem port) (text_append-Lacks 47 host (Text.◌∷◌ colon port) l (ground arith, k))

-- An address that is put together from a host and a port, both there, without `/`, the port
-- without `:` (the host may have some), is taken apart into the same host and port: with a path
-- after it, into that path with its `/`; without one, into the path `/`.
pub parse_url-parts :
    (host port path : String)
    → Lacks 47 host
    → Lacks 47 port
    → Lacks 58 port
    → host ≢ ""
    → port ≢ ""
    → (parse_url (text_append "ws://" (text_append (authority host port) (text_append "/" path)))
        ≡ parsed_url host port (text_append "/" path))
      × (parse_url (text_append "ws://" (authority host port)) ≡ parsed_url host port "/")
unfolding parse_url
parse_url-parts host port path l k m h p =
    let a = authority host port in
    let la = authority-Lacks host port l k in
    (
      rw
          (
            slash_lem path,
            parse_url,
            strip-text_append "ws://" (text_append a (Text.◌∷◌ slash path)),
            break_at-text_append 47 a slash path la refl,
            compare.cons-nil slash path,
          )
          (authority-parts host port (Text.◌∷◌ slash path) m h p),
      rw (parse_url, strip-text_append "ws://" a, break_at-none 47 a la)
          (authority-parts host port "/" m h p),
    )
