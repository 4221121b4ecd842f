-- ===== src/Prelude.antt =====
-- Names that every module shares: library names passed on, Boolean tests on numbers, and lists
-- measured by native numbers.
mod Test
mod Lists
mod Dict
mod Int
mod Lower
mod Text
mod FullMatch
pub use Test.*
pub use Lists.*
pub use Dict.*
pub use Int.*
pub use FullMatch.{Regex, nothing, between, one_of, both, either, many, digit, blank, nil}
unfoldable pub use Int.{◌+ℤ◌, ◌-ℤ◌, negate, sub_ℕ, minℤ, maxℤ}
unfoldable pub use Lower.{lower}
unfoldable pub use Text.{
  after_prefix, starts_with, remove_prefix, split_once, contains_text, left_strip, is_empty,
  right_strip, strip,
}
unfoldable pub use FullMatch.{
  is_in, optional, some_of, literal, accepts_empty, derive, full_match, sequence, any_of,
  match_word, search_word,
}
unfoldable pub use Dict.{lookup, without, assign, update}
pub use Prim.Native.Nat.{ℕ, zero, suc, ◌+◌, ◌-◌, ◌*◌, ◌/◌, ◌%◌, ◌≤◌, ◌<◌, min, max}
pub use Prim.Native.String.{String, ◌++◌ as str_append}
pub use mathlib.Core.Path.{◌≡◌, refl, sym, ap, ◌∙◌, subst}
pub use mathlib.Core.Logic.{◌≢◌, ◌↔◌, ◌⊎◌, inl, inr}
pub use mathlib.Core.Bool.{Bool, true, false, not, ◌&&◌, ◌||◌}
pub use mathlib.Core.Option.{Option, none, some}
pub use mathlib.Core.List.{List, [], ◌∷◌, ◌++◌, map, append-nil, append_assoc}
pub use native.Mathlib.Omega.{arith}
pub use text.Mathlib.Text.{◌==◌ as str_eq}
pub use text.Mathlib.TextEquality.{eq_iff}
pub use text.Mathlib.TextPositions.{eq_refl}
