-- ===== src/Scripts/Store.antt =====
-- The store of scripts: what its well-formedness is, and what `set` and `clear` do to it.
use bright_cli.Prelude.{
  ◌≡◌, ◌≢◌, refl, sym, ◌∙◌, Bool, not, some, [], ◌∷◌, ◌++◌, Text, All, arith, inl, inr, text_eq,
  text_eq_iff, append_assoc, All-append, insert, erase, filter_by, Bool-cases,
}
use bright_cli.Scripts.{ScriptType, type_eq, VirtualScript, Store, clear_each, clear}

abbrev pub IsAbsent : Text → Store → Type 0
IsAbsent k store = All (λ e. e.0 ≢ k) store

-- Every script is kept under its own id, and no two have one id.
abbrev pub IsKeyed : Store → Type 0
IsKeyed [] = Unit
IsKeyed ((k, x) ∷ rest) = (k ≡ x.id) × IsAbsent k rest × IsKeyed rest

abbrev pub not_of : ScriptType → Text × VirtualScript → Bool
not_of type e = not (type_eq e.1.type type)

erase-append :
    (i k : Text) (kept rest : Store) (x : VirtualScript)
    → k ≡ i
    → IsAbsent k kept
    → erase i (kept ++ (k, x) ∷ rest) ≡ kept ++ rest
unfolding erase
erase-append i k [] rest x e h = ground (arith, text_eq_iff i k)
erase-append i k ((j, y) ∷ kept) rest x e (n, h) =
    ground (arith, text_eq_iff i j, erase-append i k kept rest x e h)

IsAbsent-snoc :
    (k : Text) (x : VirtualScript) (kept rest : Store)
    → All (λ e. IsAbsent e.0 kept) rest
    → IsAbsent k rest
    → All (λ e. IsAbsent e.0 (kept ++ (k, x) ∷ [])) rest
IsAbsent-snoc k x kept [] h a = tt
IsAbsent-snoc k x kept ((j, y) ∷ rest) (n, h) (m, a) = (
  All-append (λ e. e.0 ≢ j) kept ((k, x) ∷ []) n ((λ e. m (sym e)), tt),
  IsAbsent-snoc k x kept rest h a,
)

-- Walking a suffix of the store deletes that suffix's scripts of the type, and leaves the rest.
clear_each-append :
    (type : ScriptType) (kept rest : Store)
    → IsKeyed rest
    → All (λ e. IsAbsent e.0 kept) rest
    → clear_each type rest (kept ++ rest) ≡ kept ++ filter_by (not_of type) rest
unfolding clear_each
clear_each-append type kept [] h k = refl
clear_each-append type kept ((j, x) ∷ rest) (e, absent, h) (n, k) =
    elim (Bool-cases (type_eq x.type type)) [
      | inl gone ↦
          rw gone
            ((rw (erase-append x.id j kept rest x e n) (clear_each-append type kept rest h k)))
      | inr stays ↦ rw stays (
          rw (← append_assoc kept ((j, x) ∷ []) rest) (
            clear_each-append type (kept ++ (j, x) ∷ []) rest h
              (IsAbsent-snoc j x kept rest k absent)
            ∙ append_assoc kept ((j, x) ∷ []) (filter_by (not_of type) rest)))
    ]

pub clear-eq-filter_by :
    (type : ScriptType) (store : Store)
    → IsKeyed store
    → clear (some type) store ≡ filter_by (not_of type) store
unfolding clear
clear-eq-filter_by type store h = clear_each-append type [] store h (IsAbsent-nil store)
  where
    IsAbsent-nil : (rest : Store) → All (λ e. IsAbsent e.0 []) rest
    IsAbsent-nil [] = tt
    IsAbsent-nil (e ∷ rest) = (tt, IsAbsent-nil rest)

filter_by-IsAbsent :
    (type : ScriptType) (k : Text) (store : Store)
    → IsAbsent k store
    → IsAbsent k (filter_by (not_of type) store)
filter_by-IsAbsent type k [] h = tt
filter_by-IsAbsent type k (e ∷ store) (n, h) = ground (arith, filter_by-IsAbsent type k store h)

filter_by-IsKeyed :
    (type : ScriptType) (store : Store) → IsKeyed store → IsKeyed (filter_by (not_of type) store)
filter_by-IsKeyed type [] h = tt
filter_by-IsKeyed type ((k, x) ∷ store) (e, a, h) =
    ground (arith, filter_by-IsAbsent type k store a, filter_by-IsKeyed type store h)

pub clear-IsKeyed :
    (type : ScriptType) (store : Store) → IsKeyed store → IsKeyed (clear (some type) store)
clear-IsKeyed type store h = rw (clear-eq-filter_by type store h) (filter_by-IsKeyed type store h)

insert-IsAbsent :
    (k j : Text) (x : VirtualScript) (store : Store)
    → k ≢ j
    → IsAbsent j store
    → IsAbsent j (insert k x store)
unfolding insert
insert-IsAbsent k j x [] n h = (n, tt)
insert-IsAbsent k j x ((i, y) ∷ store) n (m, h) = ground (arith, insert-IsAbsent k j x store n h)

pub insert-IsKeyed :
    (x : VirtualScript) (store : Store) → IsKeyed store → IsKeyed (insert x.id x store)
unfolding insert
insert-IsKeyed x [] h = (refl, tt, tt)
insert-IsKeyed x ((k, y) ∷ store) (e, a, h) = elim (Bool-cases (text_eq x.id k)) [
  | inl same ↦ rw same (refl, rw ((text_eq_iff x.id k).0 same) a, h)
  | inr other ↦ rw other (
    e,
    insert-IsAbsent x.id k x store (λ p. cc ((text_eq_iff x.id k).1 p, other)) a,
    insert-IsKeyed x store h,
  )
]
