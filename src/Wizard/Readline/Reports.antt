-- ===== src/Wizard/Readline/Reports.antt =====
-- What the wizard reports of the URLs.
use mathlib.Core.List.{foldr}
use mathlib.Core.List.{Perm}
use mathlib.Core.List.Perm
use native.Mathlib.Nat.{ℕ_set}
use bright_cli.Prelude.{
  ℕ, suc, ◌+◌, ◌-◌, ◌≡◌, refl, sym, ap, ◌∙◌, Bool, not, true, false, List, [], ◌∷◌, ◌++◌, Text,
  length, map, arith, ◌⊎◌, inl, inr, Bool-cases, any, ◌==◌, All, IsWord, is_empty, split_at,
  split_at-word, split_at-append, join, join-trim, word-trim, trim, trim-space, codes, filter_by,
}
use bright_cli.Wizard.Readline.{
  Wizardry, WizardStep, delimited_input, process_ping, reached, reached_count, reports, asks, http,
  tests, url, target_urls,
}

-- A word that a list with commas can hold.
abbrev pub IsEntry : Text → Type 0
IsEntry w = IsWord w × (any (λ d. d == b',') w ≡ false)

entries-IsWord : (ws : List Text) → All IsEntry ws → All IsWord ws
entries-IsWord [] h = tt
entries-IsWord (w ∷ ws) h = (h.0.0, entries-IsWord ws h.1)

split_at-cons : (s : Text) → (t : Text) × (ts : List Text) × (split_at b',' s ≡ t ∷ ts)
unfolding split_at
split_at-cons [] = ([], [], refl)
split_at-cons (c ∷ s) = elim (Bool-cases (c == b',')) [
  | inl comma ↦ ([], split_at b',' s, rw comma refl)
  | inr other ↦ let (t, ts, at) = split_at-cons s in (c ∷ t, ts, rw other (rw at refl))
]

split_at-space : (s : Text) → map trim (split_at b',' (32 ∷ s)) ≡ map trim (split_at b',' s)
unfolding split_at
split_at-space s =
    let (t, ts, at) = split_at-cons s in rw at (ap (λ l. l ∷ map trim ts) (trim-space t))

-- The pieces between the commas: each after the first has a space before it.
split_at-entries :
    (w : Text) (ws : List Text)
    → All IsEntry (w ∷ ws)
    → map trim (split_at b',' (join (codes ", ") (w ∷ ws))) ≡ w ∷ ws
unfolding join
split_at-entries w [] h =
    ap (map trim) (split_at-word b',' w h.0.1) ∙ ap (λ t. t ∷ []) (word-trim w h.0.0)
split_at-entries w (v ∷ ws) h =
    let rest = join (codes ", ") (v ∷ ws) in
    ap (map trim) (split_at-append b',' w (32 ∷ rest) h.0.1)
    ∙ ap (λ t. t ∷ map trim (split_at b',' (32 ∷ rest))) (word-trim w h.0.0)
    ∙ ap (λ ts. w ∷ ts) (split_at-space rest ∙ split_at-entries v ws h.1)

full-join :
    (w : Text) (ws : List Text) → is_empty w ≡ false → is_empty (join (codes ", ") (w ∷ ws)) ≡ false
unfolding join
full-join [] ws h = cc
full-join (c ∷ w) [] h = refl
full-join (c ∷ w) (v ∷ ws) h = refl

filter_by-entries : (ws : List Text) → All IsEntry ws → filter_by (λ x. not (is_empty x)) ws ≡ ws
filter_by-entries [] h = refl
filter_by-entries (w ∷ ws) h = rw (h.0.0.1) (ap (λ l. w ∷ l) (filter_by-entries ws h.1))

delimited_input-join :
    (w : Text) (ws : List Text)
    → All IsEntry (w ∷ ws)
    → delimited_input b',' (join (codes ", ") (w ∷ ws)) ≡ w ∷ ws
unfolding delimited_input
delimited_input-join w ws h =
    let whole = join-trim (codes ", ") w ws (entries-IsWord (w ∷ ws) h) in
    rw whole
      (rw (full-join w ws h.0.0.1) (rw (split_at-entries w ws h) (filter_by-entries (w ∷ ws) h)))

module _ (w : Wizardry) where
  -- What is shown of URLs, one after another, and how many of them are not reached: a URL is reached
  -- where it is one and its test gives true; it is not where it is no URL, or where its test gives
  -- false or throws.
  pub data Shows : List Text → List WizardStep → ℕ → Type 0 where
    none_left : Shows [] [] 0
    reaches :
        {u : Text} {urls : List Text} {steps : List WizardStep} {n : ℕ}
        → w.is_url u ≡ true
        → w.verify_access http (url u) ≡ inr true
        → Shows urls steps n
        → Shows (u ∷ urls) (tests http (url u) true ∷ steps) n
    no_url :
        {u : Text} {urls : List Text} {steps : List WizardStep} {n : ℕ}
        → w.is_url u ≡ false
        → Shows urls steps n
        → Shows (u ∷ urls) (tests http (url u) false ∷ steps) (suc n)
    refused :
        {u : Text} {urls : List Text} {steps : List WizardStep} {n : ℕ}
        → w.is_url u ≡ true
        → w.verify_access http (url u) ≡ inr false
        → Shows urls steps n
        → Shows (u ∷ urls) (tests http (url u) false ∷ steps) (suc n)
    throws :
        {u message : Text} {urls : List Text} {steps : List WizardStep} {n : ℕ}
        → w.is_url u ≡ true
        → w.verify_access http (url u) ≡ inl message
        → Shows urls steps n
        → Shows (u ∷ urls) (tests http (url u) false ∷ steps) (suc n)

  abbrev shown : List Text → List WizardStep
  shown urls = map (λ u. tests http (url u) (reached w u)) urls

  -- The URLs that are not reached are those that are left of all.
  IsShown : List Text → Type 0
  IsShown urls = (n : ℕ) × Shows urls (shown urls) n × (n + reached_count w urls ≡ length urls)

  tested-IsShown :
      (u : Text) (urls : List Text) (r : Text ⊎ Bool)
      → w.is_url u ≡ true
      → w.verify_access http (url u) ≡ r
      → IsShown urls
      → IsShown (u ∷ urls)
  unfolding IsShown reached_count
  tested-IsShown u urls (inl message) is h (n, shows, all) =
      let got : reached w u ≡ false = rw is (rw h refl) in
      rw got (suc n, throws is h shows, omega (arith, all))
  tested-IsShown u urls (inr false) is h (n, shows, all) =
      let got : reached w u ≡ false = rw is (rw h refl) in
      rw got (suc n, refused is h shows, omega (arith, all))
  tested-IsShown u urls (inr true) is h (n, shows, all) =
      let got : reached w u ≡ true = rw is (rw h refl) in
      rw got (n, reaches is h shows, omega (arith, all))

  line-IsShown : (urls : List Text) → IsShown urls
  unfolding IsShown reached_count
  line-IsShown [] = (0, none_left, refl)
  line-IsShown (u ∷ urls) = elim (Bool-cases (w.is_url u)) [
    | inl is ↦ tested-IsShown u urls (w.verify_access http (url u)) is refl (line-IsShown urls)
    | inr is_not ↦
        let (n, shows, all) = line-IsShown urls in
        let got : reached w u ≡ false = rw is_not refl in
        rw got (suc n, no_url is_not shows, omega (arith, all))
  ]

  length-eq-foldr : (urls : List Text) → length urls ≡ foldr (λ u n. 1 + n) 0 urls
  length-eq-foldr [] = refl
  length-eq-foldr (u ∷ urls) = omega (arith, length-eq-foldr urls)

  Perm-length : (xs ys : List Text) → Perm xs ys → length xs ≡ length ys
  Perm-length xs ys p =
      length-eq-foldr xs
      ∙ Perm.foldr-eq ℕ_set (λ u n. 1 + n) (λ a b x. refl) p 0
      ∙ sym (length-eq-foldr ys)

  -- Let the user enter URLs that are words without commas, with a comma and a space between them. In
  -- whatever order their tests end, the check of the URLs asks for them, shows each with whether it is
  -- reached, and reports last how many are not, and of how many: one that is no URL, or whose test
  -- gives false or throws, is not reached.
  pub process_ping-reports :
      (u : Text) (urls finished : List Text)
      → All IsEntry (u ∷ urls)
      → w.answer target_urls ≡ join (codes ", ") (u ∷ urls)
      → Perm finished (u ∷ urls)
      → (steps : List WizardStep) × (n : ℕ) × Shows finished steps n
        × (process_ping w finished
            ≡ asks target_urls ∷ (steps ++ reports n (length (u ∷ urls)) ∷ []))
  unfolding process_ping IsShown
  process_ping-reports u urls finished entries answer p =
      let (n, shows, all) = line-IsShown finished in
      let entered : delimited_input b',' (w.answer target_urls) ≡ u ∷ urls =
        ap (delimited_input b',') answer ∙ delimited_input-join u urls entries in
      let same = Perm-length finished (u ∷ urls) p in
      let left : length (u ∷ urls) - reached_count w finished ≡ n = omega (arith, all, same) in
      (
        shown finished,
        n,
        shows,
        ap
              (λ l.
                asks target_urls
                ∷ (shown finished ++ reports (length l - reached_count w finished) (length l) ∷ []))
              entered
            ∙ ap (λ k. asks target_urls ∷ (shown finished ++ reports k (length (u ∷ urls)) ∷ []))
                left,
      )
