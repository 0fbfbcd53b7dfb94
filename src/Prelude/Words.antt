-- ===== src/Prelude/Words.antt =====
-- Words in a text: what `split`, `join` and `trim` make of them.
use Prim.Native.Nat.{ℕ}
use mathlib.Core.Path.{◌≡◌, refl, sym, ap, ◌∙◌}
use mathlib.Core.Bool.{true, false}
use mathlib.Core.List.{List, [], ◌∷◌, ◌++◌, append_assoc}
use native.Mathlib.Omega.{arith}
use bright_cli.Prelude.Tests.{◌==◌}
use bright_cli.Prelude.Lists.{any, All}
use bright_cli.Prelude.Strings.{Text, is_space, is_empty, split_at, join, trim, trim-kept}

-- A word is not empty and has no white space.
abbrev pub IsWord : Text → Type 0
IsWord w = (any is_space w ≡ false) × (is_empty w ≡ false)

pub split_at-word : (sep : ℕ) (w : Text) → any (λ d. d == sep) w ≡ false → split_at sep w ≡ w ∷ []
unfolding split_at
split_at-word sep [] h = refl
split_at-word sep (c ∷ w) h =
    let other : (c == sep) ≡ false = ground (arith, h) in
    let rest : any (λ d. d == sep) w ≡ false = ground (arith, h) in
    rw other (rw (split_at-word sep w rest) refl)

pub split_at-append :
    (sep : ℕ) (w s : Text)
    → any (λ d. d == sep) w ≡ false
    → split_at sep (w ++ sep ∷ s) ≡ w ∷ split_at sep s
unfolding split_at
split_at-append sep [] s h = let same : (sep == sep) ≡ true = ground arith in rw same refl
split_at-append sep (c ∷ w) s h =
    let other : (c == sep) ≡ false = ground (arith, h) in
    let rest : any (λ d. d == sep) w ≡ false = ground (arith, h) in
    rw other (rw (split_at-append sep w s rest) refl)

-- A text that ends in a code unit that is no space.
abbrev EndsWell : Text → Type 0
EndsWell s = (l : Text) × (d : ℕ) × (s ≡ l ++ d ∷ []) × (is_space d ≡ false)

append-EndsWell : (p s : Text) → EndsWell s → EndsWell (p ++ s)
append-EndsWell p s (l, d, same, well) =
    (p ++ l, d, ap (λ t. p ++ t) same ∙ sym (append_assoc p l (d ∷ [])), well)

word-EndsWell : (c : ℕ) (w : Text) → any is_space (c ∷ w) ≡ false → EndsWell (c ∷ w)
word-EndsWell c [] h = ([], c, refl, ground (arith, h))
word-EndsWell c (d ∷ w) h = append-EndsWell (c ∷ []) (d ∷ w) (word-EndsWell d w (ground (arith, h)))

join-EndsWell : (sep w : Text) (ws : List Text) → All IsWord (w ∷ ws) → EndsWell (join sep (w ∷ ws))
unfolding join
join-EndsWell sep [] ws words = cc
join-EndsWell sep (c ∷ w) [] words = word-EndsWell c w words.0.0
join-EndsWell sep (c ∷ w) (v ∷ ws) words =
    append-EndsWell (c ∷ w) (sep ++ join sep (v ∷ ws))
      (append-EndsWell sep (join sep (v ∷ ws)) (join-EndsWell sep v ws words.1))

-- Joined words neither start nor end in white space.
pub join-trim :
    (sep w : Text) (ws : List Text)
    → All IsWord (w ∷ ws)
    → trim (join sep (w ∷ ws)) ≡ join sep (w ∷ ws)
unfolding join
join-trim sep [] ws words = cc
join-trim sep (c ∷ w) [] words =
    let (l, d, same, well) = join-EndsWell sep (c ∷ w) [] words in
    trim-kept c d w l (ground (arith, words.0.0)) well same
join-trim sep (c ∷ w) (v ∷ ws) words =
    let (l, d, same, well) = join-EndsWell sep (c ∷ w) (v ∷ ws) words in
    trim-kept c d (w ++ (sep ++ join sep (v ∷ ws))) l (ground (arith, words.0.0)) well same

pub word-trim : (w : Text) → IsWord w → trim w ≡ w
unfolding join
word-trim w word = join-trim [] w [] (word, tt)
