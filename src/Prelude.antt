-- ===== src/Prelude.antt =====
-- The names that the other modules share: the libraries', passed on, and the tests of a child.
mod Acts
pub mod Decimal
mod Int
mod Lists
mod Tests
mod Texts
pub use Acts.*
unfoldable pub use Decimal.{to_string}
pub use Decimal.{text_append}
pub use Decimal.Digits.{to_string-Lacks, to_string-nonempty}
pub use Int.*
unfoldable pub use Lists.{pop_while_over}
pub use Lists.{
  take, drop, replicate, take-append-drop, length-drop, take-all, take_nil, drop_nil, length-take,
  pop_while_over-drop, pop_while_over-append, append_nil, append_assoc,
}
pub use Tests.*
pub use Texts.*
pub use Prim.Native.Nat.{ℕ, zero, suc, ◌+◌, ◌-◌, ◌*◌, ◌/◌, ◌%◌, ◌^◌, ◌≤◌, ◌<◌}
pub use Prim.Native.String.{String}
pub use mathlib.Core.Path.{◌≡◌, refl, sym, ap, ◌∙◌}
pub use mathlib.Core.Logic.{◌≢◌, ◌⊎◌, inl, inr}
pub use mathlib.Core.Bool.{Bool, true, false, not, ◌&&◌, ◌||◌}
pub use mathlib.Core.Option.{Option, none, some}
pub use mathlib.Core.List.{List, [], ◌∷◌, ◌++◌}
pub use native.Mathlib.Omega.{arith}
pub use text.Mathlib.TextEquality.{eq_iff}
unfoldable pub use text.Mathlib.Text.{◌==◌ as str_eq}
