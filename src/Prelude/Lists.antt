-- ===== src/Prelude/Lists.antt =====
-- Lists cut and filled by native numbers, under the library's names.
use Prim.Native.Nat.{ℕ, zero, suc, ◌-◌, ◌≤◌}
use mathlib.Core.Path.{◌≡◌, refl, ap}
use mathlib.Core.List.{List, [], ◌∷◌, ◌++◌}
use native.Mathlib.Omega.{arith}
use mathlib.Core.Bool.{true}
use mathlib.Core.Logic.{inl, inr}
use webrtc_peerconnection_cl.Prelude.Tests.{length, length-append, ltb, Bool-cases, if◌then◌else◌}

module _ {ℓ} {A : Type ℓ} where
  abbrev pub take : ℕ → List A → List A
  take zero xs = []
  take (suc n) [] = []
  take (suc n) (x ∷ xs) = x ∷ take n xs

  abbrev pub drop : ℕ → List A → List A
  drop zero xs = xs
  drop (suc n) [] = []
  drop (suc n) (x ∷ xs) = drop n xs

  abbrev pub replicate : ℕ → A → List A
  replicate zero a = []
  replicate (suc n) a = a ∷ replicate n a

  pub take-append-drop : (n : ℕ) (xs : List A) → take n xs ++ drop n xs ≡ xs
  take-append-drop zero xs = refl
  take-append-drop (suc n) [] = refl
  take-append-drop (suc n) (x ∷ xs) = ap (λ ys. x ∷ ys) (take-append-drop n xs)

  pub length-drop : (n : ℕ) (xs : List A) → length (drop n xs) ≡ length xs - n
  length-drop zero xs = omega arith
  length-drop (suc n) [] = omega arith
  length-drop (suc n) (x ∷ xs) = omega (arith, length-drop n xs)

  pub take-all : (xs : List A) → take (length xs) xs ≡ xs
  take-all [] = refl
  take-all (x ∷ xs) = ap (λ ys. x ∷ ys) (take-all xs)

  pub take_nil : (n : ℕ) → take n [] ≡ []
  take_nil zero = refl
  take_nil (suc n) = refl

  pub drop_nil : (n : ℕ) → drop n [] ≡ []
  drop_nil zero = refl
  drop_nil (suc n) = refl

  pub length-take : (n : ℕ) (xs : List A) → length (take n xs) ≤ n
  length-take zero xs = omega arith
  length-take (suc n) [] = omega arith
  length-take (suc n) (x ∷ xs) = omega (arith, length-take n xs)

  -- `while (xs.size() > max) xs.pop_front();`
  unfoldable pub pop_while_over : ℕ → List A → List A
  pop_while_over max [] = []
  pop_while_over max (x ∷ xs) =
      let rest = pop_while_over max xs in if ltb max (length (x ∷ xs)) then rest else x ∷ xs

  pub pop_while_over-drop :
      (max : ℕ) (xs : List A) → pop_while_over max xs ≡ drop (length xs - max) xs
  unfolding pop_while_over
  pop_while_over-drop max [] =
      let none_over : 0 ≡ 0 - max = omega arith in ap (λ k. drop k []) none_over
  pop_while_over-drop max (x ∷ xs) = elim (Bool-cases (ltb max (suc (length xs)))) [
    | inl h ↦
        let over : suc (length xs) - max ≡ suc (length xs - max) = ground arith in
        rw (h, over, pop_while_over-drop max xs)
    | inr h ↦ let fits : suc (length xs) - max ≡ 0 = ground arith in rw (h, fits)
  ]

  -- Popping before more is added makes no difference after popping again.
  pub pop_while_over-append :
      (max : ℕ) (xs ys : List A)
      → pop_while_over max (pop_while_over max xs ++ ys) ≡ pop_while_over max (xs ++ ys)
  unfolding pop_while_over
  pop_while_over-append max [] ys = refl
  pop_while_over-append max (x ∷ xs) ys = elim (Bool-cases (ltb max (suc (length xs)))) [
    | inl h ↦
        let longer : ltb max (suc (length (xs ++ ys))) ≡ true =
          ground (arith, length-append xs ys) in
        rw (h, longer, pop_while_over-append max xs ys)
    | inr h ↦ rw (h)
  ]

  pub append_nil : (xs : List A) → xs ++ [] ≡ xs
  append_nil [] = refl
  append_nil (x ∷ xs) = ap (λ ys. x ∷ ys) (append_nil xs)

  pub append_assoc : (xs ys zs : List A) → (xs ++ ys) ++ zs ≡ xs ++ (ys ++ zs)
  append_assoc [] ys zs = refl
  append_assoc (x ∷ xs) ys zs = ap (λ ws. x ∷ ws) (append_assoc xs ys zs)
