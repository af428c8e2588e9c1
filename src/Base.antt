-- ===== src/Base.antt =====
-- The names that the other modules share: the libraries', passed on, Boolean tests, Python's
-- integers and dictionaries, and calls that may raise.
mod Tests
mod Lists
mod Int
mod Dicts
mod Text
pub use Tests.*
pub use Lists.*
pub use Text.{text_append}
unfoldable pub use Text.{str_int}
pub use Dicts.{Dict, same_text, lookup-insert, lookup-remove, has_text, keys_has_text}
unfoldable pub use Dicts.{lookup, insert, remove, keys}
pub use Int.{
  ℤ, pos, negsuc, pos_part, neg_part, sub_ℕ, ◌≤ℤ◌, ◌<ℤ◌, ltb_ℤ, leb_ℤ, +ℤ_parts, -ℤ_parts,
  max_ℤ_parts, eq_of_parts, int_laws,
}
unfoldable pub use Int.{◌+ℤ◌, ◌-ℤ◌, max_ℤ}
pub use Prim.Native.Nat.{ℕ, zero, suc, ◌+◌, ◌-◌, ◌*◌, ◌/◌, ◌%◌, ◌≤◌, ◌<◌}
pub use Prim.Native.String.{String}
pub use mathlib.Core.Path.{◌≡◌, refl, sym, ap, ◌∙◌}
pub use mathlib.Core.Logic.{◌≢◌, ◌⊎◌, inl, inr}
pub use mathlib.Core.Bool.{Bool, true, false, not, ◌&&◌, ◌||◌}
pub use mathlib.Core.Option.{Option, none, some}
pub use mathlib.Core.List.{List, [], ◌∷◌, ◌++◌, map}
pub use native.Mathlib.Omega.{arith}
pub use text.Mathlib.TextEquality.{eq_iff}
pub use text.Mathlib.TextPositions.{eq_refl}
