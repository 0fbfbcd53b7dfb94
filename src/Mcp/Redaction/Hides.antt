-- ===== src/Mcp/Redaction/Hides.antt =====
-- No secret is left in a message.
use bright_cli.Prelude.{
  ℕ, zero, suc, ◌-◌, ◌≡◌, refl, sym, ap, ◌∙◌, true, false, ◌||◌, List, [], ◌∷◌, ◌++◌, Text, codes,
  includes, starts_with, join, length, drop, Bool-cases, ◌⊎◌, inl, inr, text_eq, text_eq_iff, arith,
  if◌then◌else◌,
}
use bright_cli.Mcp.Redaction.{
  filtered, prepend_code, split_from, replace_secret, replace_all, redact_with, sort_by_length,
  insert_by_length,
}
use bright_cli.Mcp.Redaction.Contains.{
  contains, no_bracket, IsClean, bracket_begins, contains-filtered, contains-drop,
}

-- The replacement, code unit by code unit.
replaced : Text → ℕ → Text → Text
replaced secret n [] = []
replaced secret (suc n) (c ∷ s) = replaced secret n s
replaced secret zero (c ∷ s) =
    let matched = filtered ++ replaced secret (length secret - 1) s in
    let kept = c ∷ replaced secret zero s in if starts_with (c ∷ s) secret then matched else kept

join-prepend : (c : ℕ) (ts : List Text) → join filtered (prepend_code c ts) ≡ c ∷ join filtered ts
unfolding join
join-prepend c [] = refl
join-prepend c (t ∷ []) = refl
join-prepend c (t ∷ u ∷ ts) = refl

-- The parts of a text are never none.
split_from-cons :
    (secret : Text) (n : ℕ) (s : Text)
    → (t : Text) × (ts : List Text) × (split_from secret n s ≡ t ∷ ts)
unfolding split_from
split_from-cons secret n [] = ([], [], refl)
split_from-cons secret (suc n) (c ∷ s) = split_from-cons secret n s
split_from-cons secret zero (c ∷ s) = elim (Bool-cases (starts_with (c ∷ s) secret)) [
  | inl hit ↦ rw hit ([], split_from secret (length secret - 1) s, refl)
  | inr miss ↦ let (t, ts, e) = split_from-cons secret zero s in rw miss (rw e (c ∷ t, ts, refl))
]

join-nil :
    (ts : List Text) (t : Text) (rest : List Text)
    → ts ≡ t ∷ rest
    → join filtered ([] ∷ ts) ≡ filtered ++ join filtered ts
unfolding join
join-nil ts t rest e = rw e refl

join-split_from :
    (secret : Text) (n : ℕ) (s : Text) → join filtered (split_from secret n s) ≡ replaced secret n s
unfolding split_from replaced
join-split_from secret n [] = unfold join in refl
join-split_from secret (suc n) (c ∷ s) = join-split_from secret n s
join-split_from secret zero (c ∷ s) =
    let skip = length secret - 1 in
    let later = join-split_from secret skip s in
    let next = join-split_from secret zero s in
    let (t, ts, e) = split_from-cons secret skip s in
    elim (Bool-cases (starts_with (c ∷ s) secret)) [
      | inl hit ↦
          rw hit (join-nil (split_from secret skip s) t ts e ∙ ap (λ u. filtered ++ u) later)
      | inr miss ↦ rw miss (join-prepend c (split_from secret zero s) ∙ ap (λ u. c ∷ u) next)
    ]

-- A text with no bracket that begins what is left after the replacement began what was there.
starts_with-replaced :
    (secret : Text) (n : ℕ) (s p : Text)
    → no_bracket p ≡ true
    → starts_with (replaced secret n s) p ≡ true
    → starts_with (drop n s) p ≡ true
unfolding replaced starts_with no_bracket
starts_with-replaced secret n s [] clean h = refl
starts_with-replaced secret zero [] (q ∷ p) clean h = h
starts_with-replaced secret (suc n) [] (q ∷ p) clean h = h
starts_with-replaced secret (suc n) (c ∷ s) (q ∷ p) clean h =
    starts_with-replaced secret n s (q ∷ p) clean h
starts_with-replaced secret zero (c ∷ s) (q ∷ p) clean h =
    let before = starts_with-replaced secret zero s p in
    let rest = codes "Filtered]" ++ replaced secret (length secret - 1) s in
    elim (Bool-cases (starts_with (c ∷ s) secret)) [
      | inl hit ↦ let h' = rw hit at h in cc (bracket_begins rest q p clean, h')
      | inr miss ↦ let h' = rw miss at h in ground (arith, before)
    ]

-- The secret itself, or a text that was not there.
abbrev IsGone : Text → Text → Text → Type 0
IsGone secret s p = (p ≡ secret) ⊎ (contains s p ≡ false)

IsGone-drop :
    (secret : Text) (c : ℕ) (s p : Text) (n : ℕ)
    → IsClean p
    → IsGone secret (c ∷ s) p
    → IsGone secret (drop n s) p
unfolding contains
IsGone-drop secret c s p n clean (inl same) = inl same
IsGone-drop secret c s p n (clean, word, full) (inr h) =
    inr (contains-drop n s p full (ground arith))

-- A text that is gone does not begin where the secret does not.
not_begins :
    (secret : Text) (c : ℕ) (s p : Text)
    → IsClean p
    → IsGone secret (c ∷ s) p
    → starts_with (c ∷ s) secret ≡ false
    → starts_with (c ∷ replaced secret 0 s) p ≡ false
unfolding replaced contains
not_begins secret c s p clean gone miss =
    elim (Bool-cases (starts_with (c ∷ replaced secret 0 s) p)) [
      | inr no_hit ↦ no_hit
      | inl hit ↦
          let same : replaced secret 0 (c ∷ s) ≡ c ∷ replaced secret 0 s = rw miss refl in
          let begins =
            starts_with-replaced secret 0 (c ∷ s) p clean.0
              (ap (λ t. starts_with t p) same ∙ hit) in
          elim gone [ inl e ↦ cc (begins, miss, e) | inr h ↦ ground arith ]
    ]

-- What is replaced is gone, and what was not there before does not come back.
contains-replaced :
    (secret : Text) (n : ℕ) (s p : Text)
    → IsClean p
    → IsGone secret (drop n s) p
    → contains (replaced secret n s) p ≡ false
unfolding replaced contains
contains-replaced secret zero [] p clean h = clean.2
contains-replaced secret (suc n) [] p clean h = clean.2
contains-replaced secret (suc n) (c ∷ s) p clean h = contains-replaced secret n s p clean h
contains-replaced secret zero (c ∷ s) p clean h =
    let skip = length secret - 1 in
    let next = contains-replaced secret zero s p clean (IsGone-drop secret c s p 0 clean h) in
    let later = contains-replaced secret skip s p clean (IsGone-drop secret c s p skip clean h) in
    elim (Bool-cases (starts_with (c ∷ s) secret)) [
      | inl hit ↦ rw hit (contains-filtered (replaced secret skip s) p clean later)
      | inr miss ↦ rw miss (rw (not_begins secret c s p clean h miss) next)
    ]

replace_secret-hides :
    (secret s p : Text)
    → IsClean p
    → IsGone secret s p
    → contains (replace_secret secret s) p ≡ false
unfolding replace_secret
replace_secret-hides secret s p clean h =
    rw (join-split_from secret 0 s) (contains-replaced secret 0 s p clean h)

-- One of the secrets, or a text that was not there, is gone after all of them are replaced.
replace_all-hides :
    (secrets : List Text) (s p : Text)
    → IsClean p
    → (includes secrets p ≡ true) ⊎ (contains s p ≡ false)
    → contains (replace_all secrets s) p ≡ false
unfolding replace_all includes
replace_all-hides [] s p clean (inl h) = cc
replace_all-hides [] s p clean (inr h) = h
replace_all-hides (secret ∷ secrets) s p clean (inr h) =
    replace_all-hides secrets (replace_secret secret s) p clean
      (inr (replace_secret-hides secret s p clean (inr h)))
replace_all-hides (secret ∷ secrets) s p clean (inl h) =
    let rest = replace_all-hides secrets (replace_secret secret s) p clean in
    elim (Bool-cases (text_eq secret p)) [
      | inl same ↦
          rest (
            inr (replace_secret-hides secret s p clean (inl (sym ((text_eq_iff secret p).0 same)))))
      | inr other ↦ rest (inl (ground arith))
    ]

includes-insert_by_length :
    (v : Text) (values : List Text) (p : Text)
    → includes (insert_by_length v values) p ≡ includes (v ∷ values) p
unfolding insert_by_length includes
includes-insert_by_length v [] p = refl
includes-insert_by_length v (w ∷ values) p = ground (arith, includes-insert_by_length v values p)

includes-cons :
    (v : Text) (values others : List Text) (p : Text)
    → includes values p ≡ includes others p
    → includes (v ∷ values) p ≡ includes (v ∷ others) p
unfolding includes
includes-cons v values others p h = ap (λ b. text_eq v p || b) h

includes-sort_by_length :
    (secrets : List Text) (p : Text) → includes (sort_by_length secrets) p ≡ includes secrets p
unfolding sort_by_length
includes-sort_by_length [] p = refl
includes-sort_by_length (v ∷ secrets) p =
    includes-insert_by_length v (sort_by_length secrets) p
    ∙ includes-cons v (sort_by_length secrets) secrets p (includes-sort_by_length secrets p)

pub redact_with-hides :
    (secrets : List Text) (message secret : Text)
    → IsClean secret
    → includes secrets secret ≡ true
    → contains (redact_with secrets message) secret ≡ false
unfolding redact_with
redact_with-hides secrets message secret clean h =
    replace_all-hides (sort_by_length secrets) message secret clean
      (inl (includes-sort_by_length secrets secret ∙ h))
