-- ===== src/EntryPoint/Tests.antt =====
-- The theorem of the pages of entry points at a concrete input.
use bright_cli.Prelude.{
  ℕ, zero, suc, ◌+◌, arith, ◌≡◌, refl, sym, ap, ◌∙◌, none, some, Option, List, [], ◌∷◌, take, drop,
  get_elem?, codes,
}
use bright_cli.EntryPoint.Pages.{PageAnswer, EntryPoint, PageParams, PageStart, entrypoints}
use bright_cli.EntryPoint.Pages.Laws.{Lists, start_of, entrypoints-eq-take}

abbrev entry : ℕ → EntryPoint ℕ
entry n = record { id = n ∷ []; created_at = codes "2024"; view = n }

abbrev numbered : ℕ → ℕ → List (EntryPoint ℕ)
numbered k zero = []
numbered k (suc n) = entry k ∷ numbered (suc k) n

abbrev after_id : List ℕ → ℕ
after_id [] = 0
after_id (n ∷ id) = suc n

abbrev position : Option PageStart → ℕ
position none = 0
position (some start) = after_id start.next_id

abbrev service : PageParams ℕ → PageAnswer ℕ
service params = some (some (take params.limit (drop (position params.after) (numbered 0 120))))

get_elem?-numbered :
    (n k i : ℕ) (item : EntryPoint ℕ)
    → get_elem? (numbered k n) i ≡ some item
    → entry (k + i) ≡ item
get_elem?-numbered zero k i item h = cc
get_elem?-numbered (suc n) k zero item h = let at_k : k + 0 ≡ k = omega arith in ap entry at_k ∙ cc
get_elem?-numbered (suc n) k (suc i) item h =
    let later : k + suc i ≡ suc k + i = omega arith in
    ap entry later ∙ get_elem?-numbered n (suc k) i item h

service-Lists : Lists service 0 (numbered 0 120)
service-Lists = (
  λ n. refl,
  λ i n item here.
      let from_0 : 0 + i ≡ i = omega arith in
      let at_i : position (some (start_of item)) ≡ suc i =
        ap (λ e. position (some (start_of e))) (sym (get_elem?-numbered 120 0 i item here))
        ∙ ap suc from_0 in
      ap (λ p. some (some (take n (drop p (numbered 0 120))))) at_i,
)

entrypoints-eq-take_example : entrypoints service (some 70) 0 ≡ some (take 70 (numbered 0 120))
entrypoints-eq-take_example = entrypoints-eq-take service 0 (numbered 0 120) (some 70) service-Lists
