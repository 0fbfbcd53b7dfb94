-- ===== src/Prelude/Maps.antt =====
-- Insertion-ordered maps with text keys: the program's `Map` and `Record<string, …>`. Writing an
-- existing key keeps its place.
use mathlib.Core.Path.{◌≡◌, refl}
use mathlib.Core.Option.{Option, none, some}
use mathlib.Core.List.{List, [], ◌∷◌}
use native.Mathlib.Omega.{arith}
use mathlib.Core.Bool.{Bool, true, ◌&&◌, not}
use bright_cli.Prelude.Tests.{if◌then◌else◌, is_some, either}
use bright_cli.Prelude.Strings.{Text, text_eq, text_eq_iff, text_eq_refl}

abbrev pub Assoc {ℓ} : Type ℓ → Type ℓ
Assoc V = List (Text × V)

module _ {ℓ} {V : Type ℓ} where
  unfoldable pub lookup : Text → Assoc V → Option V
  lookup key [] = none
  lookup key ((k, value) ∷ rest) = if text_eq key k then some value else lookup key rest

  unfoldable pub insert : Text → V → Assoc V → Assoc V
  insert key value [] = (key, value) ∷ []
  insert key value ((k, old) ∷ rest) =
      if text_eq key k then (key, value) ∷ rest else (k, old) ∷ insert key value rest

  unfoldable pub erase : Text → Assoc V → Assoc V
  erase k [] = []
  erase k ((j, w) ∷ m) = if text_eq k j then m else (j, w) ∷ erase k m

  -- `{ ...m, ...n }`
  unfoldable pub merge : Assoc V → Assoc V → Assoc V
  unfolding insert
  merge m [] = m
  merge m ((k, v) ∷ n) = merge (insert k v m) n

  pub lookup-insert :
      (k j : Text) (v : V) (m : Assoc V)
      → lookup j (insert k v m) ≡ (if text_eq j k then some v else lookup j m)
  unfolding lookup insert
  lookup-insert k j v [] = refl
  lookup-insert k j v ((i, w) ∷ m) =
      ground (arith, text_eq_iff j k, text_eq_iff k i, text_eq_iff j i, lookup-insert k j v m)

  pub lookup-insert_self : (k : Text) (v : V) (m : Assoc V) → lookup k (insert k v m) ≡ some v
  lookup-insert_self k v m = rw (lookup-insert k k v m, text_eq_refl k)

  unfoldable pub keys_unique : Assoc V → Bool
  keys_unique [] = true
  keys_unique ((k, v) ∷ m) = not (is_some (lookup k m)) && keys_unique m

  pub lookup-merge :
      (k : Text) (m n : Assoc V)
      → keys_unique n ≡ true
      → lookup k (merge m n) ≡ either (lookup k n) (lookup k m)
  unfolding lookup merge keys_unique
  lookup-merge k m [] u = refl
  lookup-merge k m ((j, v) ∷ n) u =
      grind (arith, lookup-merge k (insert j v m) n, lookup-insert j k v m, text_eq_iff k j)
