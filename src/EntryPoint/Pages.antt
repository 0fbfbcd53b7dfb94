-- ===== src/EntryPoint/Pages.antt =====
-- `entrypoints` of src/EntryPoint/RestEntryPoints.ts: the entry points of a project, read page by page.
-- The service is a function from the parameters of a request to its answer.
pub mod Laws
use bright_cli.Prelude.{
  ℕ, zero, suc, ◌-◌, min, Option, none, some, List, [], ◌∷◌, ◌++◌, Text, or_else,
}

-- The fields of an entry point that the client reads; the rest is passed on as it came.
pub record EntryPoint {ℓ} (View : Type ℓ) : Type ℓ where
  pub id : Text
  pub created_at : Text
  pub view : View

-- `nextId` and `nextCreatedAt`
pub record PageStart : Type 0 where
  pub next_id : Text
  pub next_created_at : Text

pub record PageParams {ℓ} (Filters : Type ℓ) : Type ℓ where
  pub after : Option PageStart
  pub filters : Filters
  pub limit : ℕ

abbrev pub entrypoints_pagination_batch_size : ℕ
entrypoints_pagination_batch_size = 50

-- The items of an answer; an answer without them has none. `none` is that the request fails.
abbrev pub items_of {ℓ} : {A : Type ℓ} → Option (List A) → List A
items_of answer = or_else answer []

-- The cursor after the last of the items, which are not empty.
unfoldable pub last_start {ℓ} :
    {View : Type ℓ} → EntryPoint View → List (EntryPoint View) → PageStart
last_start item [] = record { next_id = item.id; next_created_at = item.created_at }
last_start item (next ∷ items) = last_start next items

abbrev pub PageAnswer {ℓ} : Type ℓ → Type ℓ
PageAnswer View = Option (Option (List (EntryPoint View)))

module _ {ℓ} {View : Type ℓ} where
  -- What follows an answer: `continue` gets the cursor and the data with the items.
  abbrev pub next_page :
      (data_so_far items : List (EntryPoint View))
      → (PageStart → List (EntryPoint View) → Option (List (EntryPoint View)))
      → Option (List (EntryPoint View))
  next_page data_so_far [] continue = some data_so_far
  next_page data_so_far (item ∷ items) continue =
      continue (last_start item items) (data_so_far ++ item ∷ items)

  abbrev pub page_answered :
      List (EntryPoint View)
      → PageAnswer View
      → (PageStart → List (EntryPoint View) → Option (List (EntryPoint View)))
      → Option (List (EntryPoint View))
  page_answered data_so_far none continue = none
  page_answered data_so_far (some answer) continue =
      next_page data_so_far (items_of answer) continue

module _ {ℓ ℓ'} {View : Type ℓ} {Filters : Type ℓ'} where
  -- The loop, with `remaining` as in the code, for at most `fuel` requests
  unfoldable pub entrypoints_from :
      (PageParams Filters → PageAnswer View)
      → Filters
      → (fuel remaining : ℕ) → Option PageStart
      → List (EntryPoint View)
      → Option (List (EntryPoint View))
  entrypoints_from serve filters zero remaining after data_so_far = some data_so_far
  entrypoints_from serve filters (suc fuel) zero after data_so_far = some data_so_far
  entrypoints_from serve filters (suc fuel) (suc r) after data_so_far =
      page_answered data_so_far
        (serve (record {
          after = after;
          filters = filters;
          limit = min (suc r) entrypoints_pagination_batch_size;
        }))
        (λ start items.
          entrypoints_from serve filters fuel (suc r - entrypoints_pagination_batch_size)
            (some start) items)

  -- `entrypoints`; `none` is that a request fails. Each request takes at least one off `remaining`.
  unfoldable pub entrypoints :
      (PageParams Filters → PageAnswer View) → Option ℕ → Filters → Option (List (EntryPoint View))
  entrypoints serve limit filters =
      entrypoints_from serve filters (or_else limit 10) (or_else limit 10) none []
