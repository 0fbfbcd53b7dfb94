-- ===== src/Prelude/Strings.antt =====
-- Text as the list of its UTF-16 code units, with the string functions that the program calls.
use Prim.Native.Nat.{ℕ, ◌+◌}
use Prim.Native.Char.{code}
use Prim.Native.String.{String}
use mathlib.Core.Path.{◌≡◌, refl, sym, ap, ◌∙◌}
use mathlib.Core.Logic.{◌↔◌}
use mathlib.Core.Bool.{Bool, true, false, ◌&&◌, ◌||◌}
use mathlib.Core.List.{List, [], ◌∷◌, ◌++◌, map, reverse, reverse-append, reverse-reverse}
use native.Mathlib.Omega.{arith}
use bright_cli.Prelude.Tests.{leb, ◌==◌, if◌then◌else◌}
use bright_cli.Prelude.Lists.{any}

abbrev pub Text : Type 0
Text = List ℕ

-- The code units of a literal, all in the basic plane.
abbrev pub codes : String → Text
codes String.[] = []
codes (String.◌∷◌ c s) = code c ∷ codes s

-- `a === b`
unfoldable pub text_eq : Text → Text → Bool
text_eq [] [] = true
text_eq (a ∷ s) (b ∷ t) = a == b && text_eq s t
text_eq _ _ = false

pub text_eq_iff : (a b : Text) → (text_eq a b ≡ true) ↔ (a ≡ b)
unfolding text_eq
text_eq_iff [] [] = (λ h. refl, λ h. refl)
text_eq_iff [] (b ∷ t) = ground arith
text_eq_iff (a ∷ s) [] = ground arith
text_eq_iff (a ∷ s) (b ∷ t) = ground (arith, text_eq_iff s t)

pub text_eq_refl : (a : Text) → text_eq a a ≡ true
text_eq_refl a = (text_eq_iff a a).1 refl

-- `texts.includes(a)`
unfoldable pub includes : List Text → Text → Bool
includes texts a = any (λ t. text_eq t a) texts

-- `new Set(values)`, after the values seen before
unfoldable pub distinct : List Text → List Text → List Text
distinct seen [] = []
distinct seen (v ∷ values) =
    let rest = distinct (v ∷ seen) values in
    let same = distinct seen values in if includes seen v then same else v ∷ rest

-- `!s`
abbrev pub is_empty : Text → Bool
is_empty [] = true
is_empty (c ∷ s) = false

unfoldable pub starts_with : Text → Text → Bool
starts_with s [] = true
starts_with [] (p ∷ ps) = false
starts_with (c ∷ s) (p ∷ ps) = c == p && starts_with s ps

-- `toLowerCase` and `toUpperCase` on the letters A to Z and a to z; every other code unit is kept.
unfoldable pub lower_code : ℕ → ℕ
lower_code c = if leb 65 c && leb c 90 then c + 32 else c

unfoldable pub to_lower : Text → Text
unfolding lower_code
to_lower s = map lower_code s

-- The white space and line ends that `trim` removes.
unfoldable pub is_space : ℕ → Bool
is_space c =
    (leb 9 c && leb c 13)
    || c == 32
    || c == 160
    || c == 0xfeff
    || c == 0x1680
    || (leb 0x2000 c && leb c 0x200a)
    || c == 0x2028
    || c == 0x2029
    || c == 0x202f
    || c == 0x205f
    || c == 0x3000

trim_start : Text → Text
unfolding is_space
trim_start [] = []
trim_start (c ∷ s) = if is_space c then trim_start s else c ∷ s

unfoldable pub trim : Text → Text
unfolding trim_start
trim s = reverse (trim_start (reverse (trim_start s)))

trim_start-kept : (c : ℕ) (s : Text) → is_space c ≡ false → trim_start (c ∷ s) ≡ c ∷ s
unfolding trim_start
trim_start-kept c s h = rw h refl

pub trim-space : (s : Text) → trim (32 ∷ s) ≡ trim s
unfolding trim trim_start is_space
trim-space s = refl

-- A text that neither starts nor ends in a space is kept.
pub trim-kept :
    (c d : ℕ) (s l : Text)
    → is_space c ≡ false
    → is_space d ≡ false
    → c ∷ s ≡ l ++ d ∷ []
    → trim (c ∷ s) ≡ c ∷ s
unfolding trim
trim-kept c d s l first last same =
    ap (λ t. reverse (trim_start (reverse t))) (trim_start-kept c s first ∙ same)
    ∙ ap (λ t. reverse (trim_start t)) (reverse-append l (d ∷ []))
    ∙ ap reverse (trim_start-kept d (reverse l) last)
    ∙ ap reverse (sym (reverse-append l (d ∷ [])))
    ∙ reverse-reverse (l ++ d ∷ [])
    ∙ sym same

-- `s.split(sep)` for a separator of one code unit
unfoldable pub split_at : ℕ → Text → List Text
split_at sep [] = [] ∷ []
split_at sep (c ∷ s) =
    let rest = split_at sep s in
    if c == sep then [] ∷ rest else elim rest [ [] ↦ (c ∷ []) ∷ [] | t ∷ ts ↦ (c ∷ t) ∷ ts ]

-- `texts.join(sep)`
unfoldable pub join : Text → List Text → Text
join sep [] = []
join sep (t ∷ []) = t
join sep (t ∷ u ∷ ts) = t ++ (sep ++ join sep (u ∷ ts))
