-- ===== src/Utils/Chunks.antt =====
-- `split` of src/Utils/Helpers.ts: a list in slices of `count`.
use native.Mathlib.Nat.{suc-mul, mul_comm}
use native.Mathlib.Omega.{div_fact, mod_fact}
use bright_cli.Prelude.{
  ℕ, zero, suc, ◌+◌, ◌-◌, ◌*◌, ◌/◌, ◌≤◌, ◌<◌, ◌≡◌, refl, sym, ap, ◌∙◌, List, [], ◌∷◌, length, take,
  drop, length-drop, arith,
}

-- `Math.ceil(n / count)`, for a `count` of at least 1
unfoldable pub ceil_div : ℕ → ℕ → ℕ
ceil_div n count = (n + count - 1) / count

ceil_bounds :
    (n k : ℕ) → (n ≤ ceil_div n (suc k) * suc k) × (ceil_div n (suc k) * suc k < n + suc k)
unfolding ceil_div
ceil_bounds n k =
    let total = div_fact (n + suc k - 1) k in
    let part = mod_fact (n + suc k - 1) k in
    let swap = mul_comm (suc k) ((n + suc k - 1) / suc k) in
    (omega (arith, total, part, swap), omega (arith, total, part, swap))

module _ {ℓ} {A : Type ℓ} where
  -- `array.slice(first, last)`, for indices that are not negative
  unfoldable pub slice : ℕ → ℕ → List A → List A
  slice first last xs = take (last - first) (drop first xs)

  -- `Array(n).fill(null).map((_value, i) => …)`, from `i`
  unfoldable pub slices : ℕ → ℕ → ℕ → List A → List (List A)
  slices i zero count xs = []
  slices i (suc n) count xs = slice (i * count) (i * count + count) xs ∷ slices (suc i) n count xs

  unfoldable pub split : List A → ℕ → List (List A)
  split xs count = slices 0 (ceil_div (length xs) count) count xs

  -- The chunks one after another: the first `suc k` elements, then the chunks of the others, for
  -- at most `fuel` chunks.
  unfoldable pub chunks : ℕ → ℕ → List A → List (List A)
  chunks zero k xs = []
  chunks (suc fuel) k [] = []
  chunks (suc fuel) k (x ∷ xs) = take (suc k) (x ∷ xs) ∷ chunks fuel k (drop k xs)

  pub drop-nil : (m : ℕ) → drop {A = A} m [] ≡ []
  drop-nil zero = refl
  drop-nil (suc m) = refl

  pub drop-drop : (m n : ℕ) (xs : List A) → drop m (drop n xs) ≡ drop (n + m) xs
  drop-drop m zero xs = ap (λ j. drop j xs) (omega arith)
  drop-drop m (suc n) [] = drop-nil m ∙ sym (drop-nil (suc n + m))
  drop-drop m (suc n) (x ∷ xs) =
      let e : suc (n + m) ≡ suc n + m = omega arith in
      drop-drop m n xs ∙ ap (λ j. drop j (x ∷ xs)) e

  -- The slices from the `i`-th on, where `n` are needed for what is left.
  slices-eq-chunks :
      (n i k fuel : ℕ) (xs ys : List A)
      → drop (i * suc k) xs ≡ ys
      → length ys ≤ n * suc k
      → n * suc k < length ys + suc k
      → length ys ≤ fuel
      → slices i n (suc k) xs ≡ chunks fuel k ys
  unfolding slices slice chunks
  slices-eq-chunks zero i k zero xs ys e low high enough = refl
  slices-eq-chunks zero i k (suc fuel) xs [] e low high enough = refl
  slices-eq-chunks zero i k (suc fuel) xs (y ∷ ys) e low high enough =
      let absurd : ⊥ = omega (arith, low) in elim absurd [ ]
  slices-eq-chunks (suc n) i k fuel xs [] e low high enough =
      let count = suc-mul n (suc k) in let absurd : ⊥ = omega (arith, count) in elim absurd [ ]
  slices-eq-chunks (suc n) i k zero xs (y ∷ ys) e low high enough =
      let absurd : ⊥ = omega arith in elim absurd [ ]
  slices-eq-chunks (suc n) i k (suc fuel) xs (y ∷ ys) e low high enough =
      let width : i * suc k + suc k - i * suc k ≡ suc k = omega arith in
      let next : suc i * suc k ≡ i * suc k + suc k = suc-mul i (suc k) in
      let count : suc n * suc k ≡ n * suc k + suc k = suc-mul n (suc k) in
      let left = length-drop k ys in
      let rest =
        ap (λ j. drop j xs) next ∙ sym (drop-drop (suc k) (i * suc k) xs) ∙ ap (drop (suc k)) e in
      rw width (
        rw e (
          ap (λ l. take (suc k) (y ∷ ys) ∷ l)
            (slices-eq-chunks n (suc i) k fuel xs (drop k ys) rest (omega (arith, count, left))
              (omega (arith, count, left)) (omega (arith, left)))))

  -- A list is split by `count`, of at least 1, into its chunks one after another: the first `count` elements,
  -- the next, and so on, with what is left over at the end.
  pub split-eq-chunks : (xs : List A) (k : ℕ) → split xs (suc k) ≡ chunks (length xs) k xs
  unfolding split
  split-eq-chunks xs k =
      let (low, high) = ceil_bounds (length xs) k in
      let first : 0 * suc k ≡ 0 = omega arith in
      slices-eq-chunks (ceil_div (length xs) (suc k)) 0 k (length xs) xs xs
        (ap (λ j. drop j xs) first) low high (omega arith)
