-- ===== src/Prelude.antt =====
-- The names that the other modules share: the libraries', passed on, and those of the children.
pub mod Tests
pub mod Lists
pub mod Strings
pub mod Maps
pub mod Words
pub use Tests.*
pub use Lists.*
unfoldable pub use Strings.{
  Text, codes, text_eq, includes, distinct, is_empty, starts_with, lower_code, to_lower, is_space,
  trim, split_at, join,
}
pub use Strings.{text_eq_iff, text_eq_refl, trim-kept, trim-space}
pub use Words.{IsWord, split_at-word, split_at-append, join-trim, word-trim}
unfoldable pub use Maps.{Assoc, lookup, insert, erase, merge, keys_unique}
pub use Maps.{lookup-insert, lookup-insert_self, lookup-merge}
pub use Prim.Native.Nat.{ℕ, zero, suc, ◌+◌, ◌-◌, ◌*◌, ◌/◌, ◌%◌, ◌^◌, ◌≤◌, ◌<◌, min, max}
pub use mathlib.Core.Path.{◌≡◌, refl, sym, ap, subst, ◌∙◌}
pub use mathlib.Core.Logic.{◌≢◌, ◌↔◌, ◌⊎◌, inl, inr}
pub use mathlib.Core.Bool.{Bool, true, false, not, ◌&&◌, ◌||◌}
pub use mathlib.Core.Option.{Option, none, some}
pub use mathlib.Core.List.{List, [], ◌∷◌, ◌++◌, map, reverse, append_assoc, append-nil}
pub use native.Mathlib.Omega.{arith}
