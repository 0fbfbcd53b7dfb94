-- ===== src/Utils/Pool/Promises.antt =====
-- The promises of a pool: each call that has not settled has its own among them.
use bright_cli.Prelude.{
  ℕ, suc, ◌≤◌, ◌≡◌, refl, ap, ◌∙◌, Bool, true, false, List, [], ◌∷◌, ◌++◌, length, ◌==◌, Bool-cases,
  inl, inr, arith, some, if◌then◌else◌,
}
use bright_cli.Utils.Pool.{index_of, splice_one, splice_at, settle_call, is_in_progress}

-- The first list is in the second, in its order.
pub data IsPart : List ℕ → List ℕ → Type 0 where
  stop : {ys : List ℕ} → IsPart [] ys
  keep : {y : ℕ} {xs ys : List ℕ} → IsPart xs ys → IsPart (y ∷ xs) (y ∷ ys)
  skip : {y : ℕ} {xs ys : List ℕ} → IsPart xs ys → IsPart xs (y ∷ ys)

pub IsPart-length : {xs ys : List ℕ} → IsPart xs ys → length xs ≤ length ys
IsPart-length (stop {ys = ys}) = omega arith
IsPart-length (keep p) = omega (arith, IsPart-length p)
IsPart-length (skip p) = omega (arith, IsPart-length p)

pub IsPart-add : {xs ys : List ℕ} (n : ℕ) → IsPart xs ys → IsPart (xs ++ n ∷ []) (ys ++ n ∷ [])
IsPart-add n (stop {ys = []}) = keep stop
IsPart-add n (stop {ys = y ∷ ys}) = skip (IsPart-add n (stop {ys = ys}))
IsPart-add n (keep p) = keep (IsPart-add n p)
IsPart-add n (skip p) = skip (IsPart-add n p)

if-IsPart :
    (b : Bool) (us vs ys : List ℕ) → IsPart us ys → IsPart vs ys → IsPart (if b then us else vs) ys
if-IsPart true us vs ys h k = h
if-IsPart false us vs ys h k = k

pub settle_call-IsPart : {xs ys : List ℕ} (n : ℕ) → IsPart xs ys → IsPart (settle_call n xs) ys
unfolding settle_call
settle_call-IsPart n stop = stop
settle_call-IsPart n (keep {y = y} {xs = xs} {ys = ys} p) =
    if-IsPart (y == n) xs (y ∷ settle_call n xs) (y ∷ ys) (skip p) (keep (settle_call-IsPart n p))
settle_call-IsPart n (skip p) = skip (settle_call-IsPart n p)

index_of-found :
    (n : ℕ) (ps : List ℕ)
    → is_in_progress n ps ≡ true
    → (i : ℕ) × (index_of n ps ≡ some i) × (splice_one i ps ≡ settle_call n ps)
unfolding index_of splice_one settle_call
index_of-found n [] h = cc
index_of-found n (p ∷ ps) h = elim (Bool-cases (p == n)) [
  | inl same ↦ (0, rw same refl, rw same refl)
  | inr other ↦
      let (i, at, rest) = index_of-found n ps (ground (arith, other, h)) in
      (suc i, rw other (rw at refl), rw other (ap (λ l. p ∷ l) rest))
]

-- What is removed from `poolPromises`, where it is there.
pub splice_at-settle_call :
    (n : ℕ) (ps : List ℕ)
    → is_in_progress n ps ≡ true
    → splice_at (index_of n ps) ps ≡ settle_call n ps
splice_at-settle_call n ps h =
    let (i, at, removed) = index_of-found n ps h in ap (λ o. splice_at o ps) at ∙ removed

pub settle_call-shrinks :
    (n : ℕ) (ps : List ℕ) → is_in_progress n ps ≡ true → suc (length (settle_call n ps)) ≡ length ps
unfolding settle_call
settle_call-shrinks n [] h = cc
settle_call-shrinks n (p ∷ ps) h = elim (Bool-cases (p == n)) [
  | inl same ↦ rw same refl
  | inr other ↦ rw other (ap suc (settle_call-shrinks n ps (ground (arith, other, h))))
]

pub is_in_progress-IsPart :
    {xs ys : List ℕ} (n : ℕ)
    → IsPart xs ys
    → is_in_progress n xs ≡ true
    → is_in_progress n ys ≡ true
is_in_progress-IsPart n stop h = cc
is_in_progress-IsPart n (keep p) h = ground (arith, is_in_progress-IsPart n p, h)
is_in_progress-IsPart n (skip p) h = ground (arith, is_in_progress-IsPart n p, h)

pub settle_both-IsPart :
    {xs ys : List ℕ} (n : ℕ)
    → IsPart xs ys
    → is_in_progress n xs ≡ true
    → IsPart (settle_call n xs) (settle_call n ys)
unfolding settle_call
settle_both-IsPart n stop h = cc
settle_both-IsPart n (keep {y = y} {xs = xs} {ys = ys} p) h = elim (Bool-cases (y == n)) [
  | inl same ↦ rw same p
  | inr other ↦ rw other (keep (settle_both-IsPart n p (ground (arith, other, h))))
]
settle_both-IsPart n (skip {y = y} {xs = xs} {ys = ys} p) h = elim (Bool-cases (y == n)) [
  | inl same ↦ rw same (settle_call-IsPart n p)
  | inr other ↦ rw other (skip (settle_both-IsPart n p h))
]
