-- ===== src/Mcp/Redaction/Contains.antt =====
-- Where a text stands in another, and which texts can be told from the mark for a secret.
use bright_cli.Prelude.{
  ℕ, zero, suc, ◌≡◌, refl, Bool, true, false, not, ◌&&◌, ◌||◌, [], ◌∷◌, ◌++◌, Text, codes, is_empty,
  starts_with, drop, Bool-cases, inl, inr, ◌==◌, ==_iff, arith,
}
use bright_cli.Mcp.Redaction.{filtered}

-- The text stands somewhere in the other.
unfoldable pub contains : Text → Text → Bool
contains [] t = is_empty t
contains (c ∷ s) t = starts_with (c ∷ s) t || contains s t

-- The text has no bracket.
unfoldable pub no_bracket : Text → Bool
no_bracket [] = true
no_bracket (c ∷ s) = not (c == b'[') && (not (c == b']') && no_bracket s)

-- The secret can be told from the mark that takes its place: it has no bracket, and is no part of the
-- word between them.
abbrev pub IsClean : Text → Type 0
IsClean t = (no_bracket t ≡ true) × (contains (codes "Filtered") t ≡ false) × (is_empty t ≡ false)

pub bracket_begins :
    (rest : Text) (q : ℕ) (p : Text)
    → no_bracket (q ∷ p) ≡ true
    → starts_with (b'[' ∷ rest) (q ∷ p) ≡ false
unfolding starts_with no_bracket
bracket_begins rest q p clean = ground (arith, ==_iff b'[' q, ==_iff q b'[')

-- Behind the rest of the word of the mark, a text with no bracket stands in that rest or not at all.
starts_with-append :
    (w rest p : Text)
    → no_bracket p ≡ true
    → starts_with (w ++ (b']' ∷ rest)) p ≡ true
    → starts_with w p ≡ true
unfolding starts_with no_bracket
starts_with-append w rest [] clean h = refl
starts_with-append [] rest (q ∷ p) clean h = ground (arith, ==_iff b']' q, ==_iff q b']')
starts_with-append (c ∷ w) rest (q ∷ p) clean h = ground (arith, starts_with-append w rest p)

-- No clean text begins with a bracket.
opening_begins : (rest p : Text) → IsClean p → starts_with (b'[' ∷ rest) p ≡ false
opening_begins rest [] (clean, word, full) = cc
opening_begins rest (q ∷ p) (clean, word, full) = bracket_begins rest q p clean

closing_begins : (rest p : Text) → IsClean p → starts_with (b']' ∷ rest) p ≡ false
unfolding starts_with no_bracket
closing_begins rest [] (clean, word, full) = cc
closing_begins rest (q ∷ p) (clean, word, full) = ground (arith, ==_iff b']' q, ==_iff q b']')

contains-append :
    (w rest p : Text)
    → IsClean p
    → contains w p ≡ false
    → contains rest p ≡ false
    → contains (w ++ (b']' ∷ rest)) p ≡ false
unfolding contains
contains-append [] rest p clean a b = rw (closing_begins rest p clean) b
contains-append (c ∷ w) rest p clean a b =
    let later = contains-append w rest p clean in
    elim (Bool-cases (starts_with ((c ∷ w) ++ (b']' ∷ rest)) p)) [
      | inl hit ↦ let h = starts_with-append (c ∷ w) rest p clean.0 hit in ground (arith)
      | inr miss ↦ rw miss (later (ground arith) b)
    ]

-- After the mark, a clean text stands only in what follows.
pub contains-filtered :
    (rest p : Text) → IsClean p → contains rest p ≡ false → contains (filtered ++ rest) p ≡ false
unfolding contains
contains-filtered rest p clean b =
    rw (opening_begins (codes "Filtered" ++ (b']' ∷ rest)) p clean)
      (contains-append (codes "Filtered") rest p clean clean.1 b)

pub contains-drop :
    (n : ℕ) (s p : Text) → is_empty p ≡ false → contains s p ≡ false → contains (drop n s) p ≡ false
unfolding contains
contains-drop zero s p full h = h
contains-drop (suc n) [] p full h = h
contains-drop (suc n) (c ∷ s) p full h = contains-drop n s p full (ground arith)
