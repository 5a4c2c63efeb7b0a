-- ===== src/PeerConnectionClient/Numbers.antt =====
-- Numbers as src/peer_connection_client.cc prints and reads them.
use Prim.Native.String as Text
use Prim.Native.String.append
use webrtc_peerconnection_cl.Prelude.{
  ℕ, zero, suc, ◌+◌, ◌*◌, ◌/◌, ◌%◌, ◌^◌, ◌<◌, ◌≡◌, ◌≢◌, refl, ap, ◌∙◌, inl, inr, String, true,
  false, [], ◌∷◌, ◌++◌, pos, ltb, arith, text_append, to_string, Bool-cases, append_assoc,
}
use webrtc_peerconnection_cl.Prelude.Decimal.{digit, decimal_from}
use webrtc_peerconnection_cl.PeerConnectionClient.Text.{
  Bytes, codes, is_digit, scan, skip_spaces, signed_number, atoi, decimal,
}

-- No byte of that value.
abbrev pub LacksByte : ℕ → Bytes → Type 0
LacksByte n [] = Unit {0}
LacksByte n (c ∷ s) = (c ≢ n) × LacksByte n s

-- Nothing, or a byte that is no digit.
abbrev pub EndsNumber : Bytes → Type 0
EndsNumber [] = Unit {0}
EndsNumber (c ∷ s) = is_digit c ≡ false

codes-text_append : (a b : String) → codes (text_append a b) ≡ codes a ++ codes b
unfolding codes
codes-text_append Text.[] b = rw (append.nil b) refl
codes-text_append (Text.◌∷◌ c a) b = rw (append.cons c a b, codes, codes-text_append a b) refl

codes-digit : (d : ℕ) → d < 10 → codes (digit d) ≡ (48 + d) ∷ []
unfolding digit codes
codes-digit zero h = refl
codes-digit (suc zero) h = refl
codes-digit (suc (suc zero)) h = refl
codes-digit (suc (suc (suc zero))) h = refl
codes-digit (suc (suc (suc (suc zero)))) h = refl
codes-digit (suc (suc (suc (suc (suc zero))))) h = refl
codes-digit (suc (suc (suc (suc (suc (suc zero)))))) h = refl
codes-digit (suc (suc (suc (suc (suc (suc (suc zero))))))) h = refl
codes-digit (suc (suc (suc (suc (suc (suc (suc (suc zero)))))))) h = refl
codes-digit (suc (suc (suc (suc (suc (suc (suc (suc (suc zero))))))))) h = refl
codes-digit (suc (suc (suc (suc (suc (suc (suc (suc (suc (suc d)))))))))) h = absurd (omega arith)

scan_digit : (n d : ℕ) (rest : Bytes) → d < 10 → scan n ((48 + d) ∷ rest) ≡ scan (n * 10 + d) rest
unfolding scan
scan_digit n d rest h = ground arith

-- The digits of a number, in front of anything.
scan-decimal_from :
    (f n : ℕ) (rest : Bytes) → n < f → scan 0 (codes (decimal_from f n) ++ rest) ≡ scan n rest
unfolding decimal_from
scan-decimal_from zero n rest h = absurd (omega arith)
scan-decimal_from (suc f) n rest h = elim (Bool-cases (ltb n 10)) [
  | inl small ↦
      rw (small, codes-digit n (ground arith))
        (scan_digit 0 n rest (ground arith) ∙ ap (λ k. scan k rest) (omega arith))
  | inr large ↦
      let front = codes (decimal_from f (n / 10)) in
      let last : n % 10 < 10 = omega arith in
      let whole : n / 10 * 10 + n % 10 ≡ n = omega arith in
      rw
        (
          large,
          codes-text_append (decimal_from f (n / 10)) (digit (n % 10)),
          codes-digit (n % 10) last,
          append_assoc front ((48 + n % 10) ∷ []) rest,
        )
        (scan-decimal_from f (n / 10) ((48 + n % 10) ∷ rest) (ground arith)
          ∙ scan_digit (n / 10) (n % 10) rest last
          ∙ ap (λ k. scan k rest) whole)
]

-- There is a digit in front.
abbrev LeadsWithDigit : Bytes → Type 0
LeadsWithDigit [] = ⊥
LeadsWithDigit (c ∷ s) = is_digit c ≡ true

-- There is a digit in front, or nothing.
abbrev MayLeadWithDigit : Bytes → Type 0
MayLeadWithDigit [] = Unit {0}
MayLeadWithDigit (c ∷ s) = is_digit c ≡ true

append-LeadsWithDigit :
    (a b : Bytes) → MayLeadWithDigit a → LeadsWithDigit b → LeadsWithDigit (a ++ b)
append-LeadsWithDigit [] b h k = k
append-LeadsWithDigit (c ∷ a) b h k = h

LeadsWithDigit-append : (a b : Bytes) → LeadsWithDigit a → LeadsWithDigit (a ++ b)
LeadsWithDigit-append [] b h = absurd h
LeadsWithDigit-append (c ∷ a) b h = h

LeadsWithDigit-weaken : (a : Bytes) → LeadsWithDigit a → MayLeadWithDigit a
LeadsWithDigit-weaken [] h = tt
LeadsWithDigit-weaken (c ∷ a) h = h

digit-LeadsWithDigit : (d : ℕ) → d < 10 → LeadsWithDigit (codes (digit d))
digit-LeadsWithDigit d h = rw (codes-digit d h) (ground arith)

decimal_step-LeadsWithDigit :
    (f n : ℕ)
    → MayLeadWithDigit (codes (decimal_from f (n / 10)))
    → LeadsWithDigit (codes (decimal_from (suc f) n))
unfolding decimal_from
decimal_step-LeadsWithDigit f n h = elim (Bool-cases (ltb n 10)) [
  | inl small ↦ rw (small) (digit-LeadsWithDigit n (ground arith))
  | inr large ↦
      rw (large, codes-text_append (decimal_from f (n / 10)) (digit (n % 10)))
        (append-LeadsWithDigit (codes (decimal_from f (n / 10))) (codes (digit (n % 10))) h
          (digit-LeadsWithDigit (n % 10) (omega arith)))
]

decimal_from-MayLeadWithDigit : (f n : ℕ) → MayLeadWithDigit (codes (decimal_from f n))
decimal_from-MayLeadWithDigit zero n = unfold decimal_from codes in tt
decimal_from-MayLeadWithDigit (suc f) n =
    LeadsWithDigit-weaken (codes (decimal_from (suc f) n))
      (decimal_step-LeadsWithDigit f n (decimal_from-MayLeadWithDigit f (n / 10)))

atoi_digits : (s : Bytes) → LeadsWithDigit s → scan 0 s < 2 ^ 31 → atoi s ≡ pos (scan 0 s)
unfolding atoi skip_spaces signed_number
atoi_digits [] h k = absurd h
atoi_digits (c ∷ s) h k = ground arith

pub scan-EndsNumber : (n : ℕ) (rest : Bytes) → EndsNumber rest → scan n rest ≡ n
unfolding scan
scan-EndsNumber n [] e = refl
scan-EndsNumber n (c ∷ rest) e = rw (scan, e) refl

-- A number is read back from its decimal print.
pub atoi-decimal :
    (n : ℕ) (rest : Bytes) → n < 2 ^ 31 → EndsNumber rest → atoi (decimal n ++ rest) ≡ pos n
unfolding decimal to_string
atoi-decimal n rest h e =
    let read : scan 0 (decimal n ++ rest) ≡ n =
      scan-decimal_from (suc n) n rest (omega arith) ∙ scan-EndsNumber n rest e in
    atoi_digits (decimal n ++ rest)
      (LeadsWithDigit-append (decimal n) rest
        (decimal_step-LeadsWithDigit n n (decimal_from-MayLeadWithDigit n (n / 10))))
      (rw read h)
    ∙ ap pos read

pub append-LacksByte : (b : ℕ) (s t : Bytes) → LacksByte b s → LacksByte b t → LacksByte b (s ++ t)
append-LacksByte b [] t l k = k
append-LacksByte b (c ∷ s) t l k = (l.0, append-LacksByte b s t l.1 k)

decimal_from-LacksByte : (b f n : ℕ) → b < 48 → LacksByte b (codes (decimal_from f n))
unfolding decimal_from
decimal_from-LacksByte b zero n h = unfold codes in tt
decimal_from-LacksByte b (suc f) n h =
    let one : (d : ℕ) → d < 10 → LacksByte b (codes (digit d)) =
      λ d small. rw (codes-digit d small) (ground arith, tt) in
    elim (Bool-cases (ltb n 10)) [
      | inl small ↦ rw (small) (one n (ground arith))
      | inr large ↦
          rw (large, codes-text_append (decimal_from f (n / 10)) (digit (n % 10)))
            (append-LacksByte b (codes (decimal_from f (n / 10))) (codes (digit (n % 10)))
              (decimal_from-LacksByte b f (n / 10) h) (one (n % 10) (omega arith)))
    ]

pub decimal-LacksByte : (b n : ℕ) → b < 48 → LacksByte b (decimal n)
unfolding decimal to_string
decimal-LacksByte b n h = decimal_from-LacksByte b (suc n) n h
