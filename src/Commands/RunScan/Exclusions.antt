-- ===== src/Commands/RunScan/Exclusions.antt =====
-- What the coercion of exclusions lets through.
use bright_cli.Prelude.{
  distinct, ◌≡◌, refl, ap, subst, Bool, true, false, not, Option, none, some, List, [], ◌∷◌, Text,
  includes, is_empty, filter_by, or_else, text_eq, text_eq_iff, text_eq_refl, All, Bool-cases, inl,
  inr, arith, if◌then◌else◌,
}
use bright_cli.Scan.Config.{RequestExclusion}
use bright_cli.Commands.RunScan.{
  Excluded, PartialExclusion, exclude_each, exclude_entry_point, exclude_parsed, excluded,
  excluded_before, exits_with_1, non_empty_patterns, parse_exclusions, syntax_error,
}

-- No text stands twice.
abbrev pub AreDistinct : List Text → Type 0
AreDistinct [] = Unit
AreDistinct (t ∷ ts) = (includes ts t ≡ false) × AreDistinct ts

abbrev pub IsFull : Text → Type 0
IsFull t = is_empty t ≡ false

abbrev pub IsExclusion : RequestExclusion → Type 0
IsExclusion x =
    ((pattern : Text) × (patterns : List Text) × (x.patterns ≡ pattern ∷ patterns))
    × All IsFull x.patterns
    × AreDistinct x.patterns
    × AreDistinct x.methods

if-list :
    (P : List Text → Type 0) (b : Bool) (xs ys : List Text)
    → P xs
    → (b ≡ false → P ys)
    → P (if b then xs else ys)
if-list P true xs ys h k = h
if-list P false xs ys h k = k refl

distinct-seen :
    (seen values : List Text) (v : Text)
    → includes seen v ≡ true
    → includes (distinct seen values) v ≡ false
unfolding distinct includes
distinct-seen seen [] v h = refl
distinct-seen seen (w ∷ values) v h =
    if-list (λ l. includes l v ≡ false) (includes seen w) (distinct seen values) _
      (distinct-seen seen values v h)
      (λ new.
        let rest = distinct-seen (w ∷ seen) values v (ground (arith, h)) in
        elim (Bool-cases (text_eq w v)) [
          | inl same ↦
              let at : includes seen w ≡ includes seen v =
                ap (includes seen) ((text_eq_iff w v).0 same) in
              cc
          | inr other ↦ ground (arith, other, rest)
        ])

distinct-AreDistinct : (seen values : List Text) → AreDistinct (distinct seen values)
unfolding distinct includes
distinct-AreDistinct seen [] = tt
distinct-AreDistinct seen (v ∷ values) =
    if-list AreDistinct (includes seen v) (distinct seen values) _
      (distinct-AreDistinct seen values)
      (λ new. (
        distinct-seen (v ∷ seen) values v (ground (arith, text_eq_refl v)),
        distinct-AreDistinct (v ∷ seen) values,
      ))

distinct-AreFull : (seen values : List Text) → All IsFull values → All IsFull (distinct seen values)
unfolding distinct
distinct-AreFull seen [] full = tt
distinct-AreFull seen (v ∷ values) full =
    if-list (All IsFull) (includes seen v) (distinct seen values) _
      (distinct-AreFull seen values full.1)
      (λ new. (full.0, distinct-AreFull (v ∷ seen) values full.1))

filter_by-AreFull : (ts : List Text) → All IsFull (filter_by (λ t. not (is_empty t)) ts)
filter_by-AreFull [] = tt
filter_by-AreFull ([] ∷ ts) = filter_by-AreFull ts
filter_by-AreFull ((c ∷ t) ∷ ts) = (refl, filter_by-AreFull ts)

excluded_list : Excluded → List RequestExclusion
excluded_list (excluded xs) = xs
excluded_list syntax_error = []
excluded_list exits_with_1 = []

excluded_injective : {xs ys : List RequestExclusion} → excluded xs ≡ excluded ys → xs ≡ ys
unfolding excluded_list
excluded_injective h = ap excluded_list h

excluded_before-AreExclusions :
    (methods patterns : List Text) (rest : Excluded) (xs : List RequestExclusion)
    → All IsFull patterns
    → ((ys : List RequestExclusion) → rest ≡ excluded ys → All IsExclusion ys)
    → excluded_before methods patterns rest ≡ excluded xs
    → All IsExclusion xs
unfolding distinct includes
excluded_before-AreExclusions methods [] rest xs full later h = cc
excluded_before-AreExclusions methods (t ∷ ts) syntax_error xs full later h = cc
excluded_before-AreExclusions methods (t ∷ ts) exits_with_1 xs full later h = cc
excluded_before-AreExclusions methods (t ∷ ts) (excluded ys) xs full later h =
    let rest = distinct (t ∷ []) ts in
    let head : IsExclusion (record { methods = distinct [] methods; patterns = t ∷ rest }) = (
      (t, rest, refl),
      distinct-AreFull [] (t ∷ ts) full,
      distinct-AreDistinct [] (t ∷ ts),
      distinct-AreDistinct [] methods,
    ) in
    subst (All IsExclusion) (excluded_injective h) (head, later ys refl)

exclude_each-AreExclusions :
    (ps : List PartialExclusion) (xs : List RequestExclusion)
    → exclude_each ps ≡ excluded xs
    → All IsExclusion xs
unfolding exclude_each
exclude_each-AreExclusions [] xs h = subst (All IsExclusion) (excluded_injective h) tt
exclude_each-AreExclusions (p ∷ ps) xs h =
    excluded_before-AreExclusions (or_else p.methods []) (non_empty_patterns p) (exclude_each ps) xs
      (filter_by-AreFull (or_else p.patterns [])) (λ ys same. exclude_each-AreExclusions ps ys same)
      h

exclude_parsed-AreExclusions :
    (o : Option (List PartialExclusion)) (xs : List RequestExclusion)
    → exclude_parsed o ≡ excluded xs
    → All IsExclusion xs
exclude_parsed-AreExclusions none xs h = cc
exclude_parsed-AreExclusions (some ps) xs h = exclude_each-AreExclusions ps xs h

-- Where the coercion of the exclusions gives a list, each of its exclusions has a pattern, no pattern of
-- it is empty, and none of its patterns and none of its methods stands twice.
pub exclude_entry_point-AreExclusions :
    (parse : Text → Option PartialExclusion) (args : List Text) (xs : List RequestExclusion)
    → exclude_entry_point parse args ≡ excluded xs
    → All IsExclusion xs
unfolding exclude_entry_point
exclude_entry_point-AreExclusions parse args xs h =
    exclude_parsed-AreExclusions (parse_exclusions parse args) xs h
