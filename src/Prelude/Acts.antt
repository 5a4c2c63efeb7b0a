-- ===== src/Prelude/Acts.antt =====
-- Stateful code as state passing with a trace: an `Act S E` changes a state `S` and makes the calls
-- `E` on other components, in order.
use mathlib.Core.Path.{◌≡◌, refl}
use mathlib.Core.Bool.{Bool, true, false}
use mathlib.Core.List.{List, [], ◌∷◌, ◌++◌}

abbrev pub Act : Type 0 → Type 0 → Type 0
Act S E = S → S × List E

module _ {S E : Type 0} where
  abbrev pub skip : Act S E
  skip s = (s, [])

  abbrev pub emit : E → Act S E
  emit e s = (s, e ∷ [])

  -- `if (test) act;`
  abbrev pub when : Bool → Act S E → Act S E
  when true act = act
  when false act = skip

  abbrev pub modify : (S → S) → Act S E
  modify f s = (f s, [])

  infixr 6 ◌⨾◌
  abbrev pub ◌⨾◌ : Act S E → Act S E → Act S E
  ◌⨾◌ f g s = let (s', es) = f s in let (s'', es') = g s' in (s'', es ++ es')

  pub seq-steps :
      (f g : Act S E) (s s' s'' : S) (es es' : List E)
      → f s ≡ (s', es)
      → g s' ≡ (s'', es')
      → (f ⨾ g) s ≡ (s'', es ++ es')
  seq-steps f g s s' s'' es es' h k = rw (h, k) refl
