-- ===== src/EntryPoint/Pages/Laws.antt =====
-- The pages of a list of entry points, put together.
use bright_cli.Prelude.{
  ℕ, zero, suc, ◌+◌, ◌-◌, ◌≤◌, min, ◌≡◌, refl, sym, ap, ◌∙◌, Option, none, some, List, [], ◌∷◌,
  ◌++◌, or_else, length, take, drop, get_elem?, append_assoc, append-nil, arith,
}
use bright_cli.Utils.Chunks.{drop-drop}
use bright_cli.EntryPoint.Pages.{
  EntryPoint, PageStart, PageParams, PageAnswer, last_start, next_page, page_answered,
  entrypoints_from, entrypoints,
}

module _ {ℓ} {A : Type ℓ} where
  take-nil : (n : ℕ) → take {A = A} n [] ≡ []
  take-nil zero = refl
  take-nil (suc n) = refl

  take-append-take :
      (m k : ℕ) (xs : List A) → take m xs ++ take k (drop (length (take m xs)) xs) ≡ take (m + k) xs
  take-append-take zero k xs = ap (λ n. take n xs) (omega arith)
  take-append-take (suc m) k [] = take-nil k ∙ sym (take-nil (suc m + k))
  take-append-take (suc m) k (x ∷ xs) =
      let more : suc (m + k) ≡ suc m + k = omega arith in
      ap (λ l. x ∷ l) (take-append-take m k xs) ∙ ap (λ n. take n (x ∷ xs)) more

  get_elem?-drop : (i : ℕ) (xs ys : List A) (y : A) → drop i xs ≡ y ∷ ys → get_elem? xs i ≡ some y
  get_elem?-drop zero [] ys y h = cc
  get_elem?-drop zero (x ∷ xs) ys y h = cc
  get_elem?-drop (suc i) [] ys y h = cc
  get_elem?-drop (suc i) (x ∷ xs) ys y h = get_elem?-drop i xs ys y h

  drop-suc : (i : ℕ) (xs ys : List A) (y : A) → drop i xs ≡ y ∷ ys → drop (suc i) xs ≡ ys
  drop-suc zero [] ys y h = cc
  drop-suc zero (x ∷ xs) ys y h = cc
  drop-suc (suc i) [] ys y h = cc
  drop-suc (suc i) (x ∷ xs) ys y h = drop-suc i xs ys y h

abbrev pub start_of {ℓ} : {View : Type ℓ} → EntryPoint View → PageStart
start_of item = record { next_id = item.id; next_created_at = item.created_at }

abbrev pub request_of {ℓ} : {Filters : Type ℓ} → Option PageStart → Filters → ℕ → PageParams Filters
request_of after filters n = record { after = after; filters = filters; limit = n }

module _ {ℓ} {View : Type ℓ} where
  last_item :
      (m i : ℕ) (xs ys : List (EntryPoint View)) (y : EntryPoint View)
      → drop i xs ≡ y ∷ ys
      → (item : EntryPoint View) × (get_elem? xs (i + length (take m ys)) ≡ some item)
        × (last_start y (take m ys) ≡ start_of item)
  unfolding last_start
  last_item zero i xs ys y h =
      (y, ap (get_elem? xs) (omega arith) ∙ get_elem?-drop i xs ys y h, refl)
  last_item (suc m) i xs [] y h =
      (y, ap (get_elem? xs) (omega arith) ∙ get_elem?-drop i xs [] y h, refl)
  last_item (suc m) i xs (z ∷ zs) y h =
      let (item, here, start) = last_item m (suc i) xs zs z (drop-suc i xs (z ∷ zs) y h) in
      (item, ap (get_elem? xs) (omega arith) ∙ here, start)

  -- A page of `suc m` items and, after the last of them, the next `k`.
  next_page-take :
      (m k i : ℕ) (xs ys ds : List (EntryPoint View))
      (continue : PageStart → List (EntryPoint View) → Option (List (EntryPoint View)))
      → drop i xs ≡ ys
      → ((j : ℕ) (item : EntryPoint View) (ds' : List (EntryPoint View))
          → get_elem? xs j ≡ some item
          → continue (start_of item) ds' ≡ some (ds' ++ take k (drop (suc j) xs)))
      → next_page ds (take (suc m) ys) continue ≡ some (ds ++ take (suc m + k) ys)
  next_page-take m k i xs [] ds continue at later =
      ap (λ l. some l) (sym (append-nil ds) ∙ ap (λ l. ds ++ l) (sym (take-nil (suc m + k))))
  next_page-take m k i xs (y ∷ ys) ds continue at later =
      let items = y ∷ take m ys in
      let (item, here, start) = last_item m i xs ys y at in
      let after : suc (i + length (take m ys)) ≡ i + length items = omega arith in
      let rest : drop (suc (i + length (take m ys))) xs ≡ drop (length items) (y ∷ ys) =
        ap (λ n. drop n xs) after
        ∙ sym (drop-drop (length items) i xs)
        ∙ ap (drop (length items)) at in
      let both : items ++ take k (drop (suc (i + length (take m ys))) xs)
          ≡ take (suc m + k) (y ∷ ys) =
        ap (λ l. items ++ take k l) rest ∙ take-append-take (suc m) k (y ∷ ys) in
      ap (λ s. continue s (ds ++ items)) start
      ∙ later (i + length (take m ys)) item (ds ++ items) here
      ∙ ap (λ l. some l) (append_assoc ds items _ ∙ ap (λ l. ds ++ l) both)

module _ {ℓ ℓ'} {View : Type ℓ} {Filters : Type ℓ'} where
  -- The service lists `xs`: from the start, and after each of them.
  abbrev pub Lists :
      (PageParams Filters → PageAnswer View) → Filters → List (EntryPoint View) → Type ℓ
  Lists serve filters xs =
      ((n : ℕ) → serve (request_of none filters n) ≡ some (some (take n xs)))
      × ((i n : ℕ) (item : EntryPoint View)
          → get_elem? xs i ≡ some item
          → serve (request_of (some (start_of item)) filters n)
            ≡ some (some (take n (drop (suc i) xs))))

  entrypoints_from_lem :
      (serve : PageParams Filters → PageAnswer View) (filters : Filters)
      (xs : List (EntryPoint View))
      → Lists serve filters xs
      → (fuel r i : ℕ) (after : Option PageStart) (ds : List (EntryPoint View)) → r ≤ fuel
      → ((n : ℕ) → serve (request_of after filters n) ≡ some (some (take n (drop i xs))))
      → entrypoints_from serve filters fuel r after ds ≡ some (ds ++ take r (drop i xs))
  unfolding entrypoints_from
  entrypoints_from_lem serve filters xs lists zero zero i after ds enough page =
      ap (λ l. some l) (sym (append-nil ds))
  entrypoints_from_lem serve filters xs lists (suc fuel) zero i after ds enough page =
      ap (λ l. some l) (sym (append-nil ds))
  entrypoints_from_lem serve filters xs lists zero (suc r) i after ds enough page =
      let absurd : ⊥ = omega (arith, enough) in elim absurd [ ]
  entrypoints_from_lem serve filters xs lists (suc fuel) (suc r) i after ds enough page =
      let m = min r 49 in
      let k = suc r - 50 in
      let most : min (suc r) 50 ≡ suc m = omega arith in
      let total : suc m + k ≡ suc r = omega arith in
      let continue = λ (start : PageStart) (items : List (EntryPoint View)).
        entrypoints_from serve filters fuel k (some start) items in
      ap (λ a. page_answered ds a continue) (page (min (suc r) 50))
      ∙ ap (λ n. next_page ds (take n (drop i xs)) continue) most
      ∙ next_page-take m k i xs (drop i xs) ds continue refl (λ j item ds' here.
        entrypoints_from_lem serve filters xs lists fuel k (suc j) (some (start_of item)) ds'
          (omega (arith, enough)) (λ n. lists.1 j n item here))
      ∙ ap (λ n. some (ds ++ take n (drop i xs))) total

  -- Where the service lists the entry points page by page, from the start and after each of them, the
  -- entry points that are read are the first `limit`, ten by default, in their order, none left out
  -- and none twice, however many pages that takes.
  pub entrypoints-eq-take :
      (serve : PageParams Filters → PageAnswer View) (filters : Filters)
      (xs : List (EntryPoint View)) (limit : Option ℕ)
      → Lists serve filters xs
      → entrypoints serve limit filters ≡ some (take (or_else limit 10) xs)
  unfolding entrypoints
  entrypoints-eq-take serve filters xs limit lists =
      entrypoints_from_lem serve filters xs lists (or_else limit 10) (or_else limit 10) 0 none []
        (omega arith) lists.0
