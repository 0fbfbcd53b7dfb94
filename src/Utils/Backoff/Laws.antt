-- ===== src/Utils/Backoff/Laws.antt =====
-- How often Backoff.execute retries, how long it waits, and what it settles with.
use bright_cli.Prelude.{
  ℕ, zero, suc, ◌+◌, ◌-◌, ◌≤◌, ◌<◌, ◌≡◌, refl, sym, ap, ◌∙◌, ◌⊎◌, inl, inr, Bool, true, false, ◌&&◌,
  some, List, [], ◌∷◌, arith, length, ltb, Bool-cases,
}
use native.Mathlib.Decide.{dec_lt}
use native.Mathlib.Nat.{zero-add}
use bright_cli.Utils.Backoff.{Settled, fulfilled, rejected, Backoff, Run, retry_delay, execute_from}

-- The waits of `count` retries that begin at a depth.
abbrev pub delays_from : ℕ → ℕ → List ℕ
delays_from depth zero = []
delays_from depth (suc count) = retry_delay depth ∷ delays_from (depth + 1) count

module _ {E A : Type 0} (should_retry : E → Bool) (task : ℕ → Settled E A) where
  -- What a run that began at the object `b` and the n-th call has done: it settles as its last
  -- call, every call before that was rejected by an error to retry, and it gave up only on another
  -- error or at the greatest depth.
  pub record IsRetryRun (b : Backoff) (n : ℕ) (r : Run E A) : Type 0 where
    pub settled : r.outcome ≡ task (n + length r.delays)
    pub retried :
        (k : ℕ)
        → k < length r.delays
        → (e : E) × (task (n + k) ≡ rejected e) × (should_retry e ≡ true)
    pub gave_up :
        (e : E)
        → r.outcome ≡ rejected e
        → (should_retry e ≡ false) ⊎ (b.max_depth ≤ r.backoff.depth)
    pub counted : r.backoff.depth ≡ b.depth + length r.delays
    pub bounded : length r.delays ≤ b.max_depth - b.depth
    pub waited : r.delays ≡ delays_from b.depth (length r.delays)

  abbrev rejected_run : E → Backoff → Run E A
  rejected_run e b = record { outcome = rejected e; delays = []; backoff = b }

  once-IsRetryRun :
      (b : Backoff) (n : ℕ) (s : Settled E A)
      → task n ≡ s
      → ((e : E) → s ≡ rejected e → (should_retry e ≡ false) ⊎ (b.max_depth ≤ b.depth))
      → IsRetryRun b n (record { outcome = s; delays = []; backoff = b })
  once-IsRetryRun b n s h g = record {
    settled = sym h ∙ ap task (omega arith);
    retried = λ k lt. absurd (omega arith);
    gave_up = g;
    counted = omega arith;
    bounded = omega arith;
    waited = refl;
  }

  again-IsRetryRun :
      (b : Backoff) (n : ℕ) (e : E) (r : Run E A)
      → task n ≡ rejected e
      → should_retry e ≡ true
      → b.depth < b.max_depth
      → IsRetryRun (record b { depth = b.depth + 1 }) (suc n) r
      → IsRetryRun b n (record r { delays = retry_delay b.depth ∷ r.delays })
  again-IsRetryRun b n e r h t lt ih = record {
    settled = ih.settled ∙ ap task (omega arith);
    retried = earlier;
    gave_up = ih.gave_up;
    counted = omega (arith, ih.counted);
    bounded = omega (arith, ih.bounded);
    waited = ap (λ l. retry_delay b.depth ∷ l) ih.waited;
  }
    where
      earlier :
          (k : ℕ)
          → k < suc (length r.delays)
          → (x : E) × (task (n + k) ≡ rejected x) × (should_retry x ≡ true)
      earlier zero lt' = (e, ap task (omega arith) ∙ h, t)
      earlier (suc k) lt' =
          let (x, p, q) = ih.retried k (omega arith) in (x, ap task (omega arith) ∙ p, q)

  pub execute_from_lem :
      (fuel : ℕ) (b : Backoff) (n : ℕ)
      → b.max_depth - b.depth < fuel
      → (r : Run E A) × (execute_from should_retry task fuel b n ≡ some r) × IsRetryRun b n r
  unfolding execute_from
  execute_from_lem zero b n h = elim h [ ]
  execute_from_lem (suc fuel) b n h =
      step (task n) refl (execute_from_lem fuel (record b { depth = b.depth + 1 }) (suc n))
    where
      step :
          (s : Settled E A)
          → task n ≡ s
          → (b.max_depth - (b.depth + 1) < fuel
              → (r : Run E A) × (execute_from should_retry task fuel
                    (record b { depth = b.depth + 1 })
                    (suc n)
                  ≡ some r)
                × IsRetryRun (record b { depth = b.depth + 1 }) (suc n) r)
          → (r : Run E A) × (execute_from should_retry task (suc fuel) b n ≡ some r)
            × IsRetryRun b n r
      step (fulfilled a) q rest = (_, ground arith, once-IsRetryRun b n _ q (λ e p. cc))
      step (rejected e) q rest = elim (Bool-cases (should_retry e && ltb b.depth b.max_depth)) [
        | inl again ↦
            let (r, ran, ih) = rest (ground arith) in
            (
              record r { delays = retry_delay b.depth ∷ r.delays },
              ground arith,
              again-IsRetryRun b n e r q (ground arith) (ground arith) ih,
            )
        | inr stop ↦ (_, ground arith, once-IsRetryRun b n _ q (λ e' p. ground arith))
      ]

  -- The run that a task makes whose k-th call succeeds after errors to retry.
  pub run_recovers :
      (k : ℕ) (a : A) (b : Backoff) (r : Run E A)
      → k ≤ b.max_depth - b.depth
      → ((j : ℕ) → j < k → (e : E) × (task j ≡ rejected e) × (should_retry e ≡ true))
      → task k ≡ fulfilled a
      → IsRetryRun b 0 r
      → (r.outcome ≡ fulfilled a) × (length r.delays ≡ k)
  run_recovers k a b r le before now h = elim (dec_lt (length r.delays) k) [
    | yes lt ↦
        let (e, p, q) = before (length r.delays) lt in
        absurd (
          ground (arith, h.settled, h.gave_up e (h.settled ∙ ap task (omega arith) ∙ p), h.counted))
    | no ge ↦ elim (dec_lt k (length r.delays)) [
      | yes gt ↦
          let (e, p, q) = h.retried k gt in cc (p, ap {B = Settled E A} task (zero-add k), now)
      | no le' ↦
          let same : length r.delays ≡ k = omega arith in
          (h.settled ∙ ap task (omega arith) ∙ now, same)
    ]
  ]
