-- ===== src/Utils/Backoff/Requests.antt =====
-- What the pollers get from a request that is retried with the default settings.
use bright_cli.Prelude.{
  ℕ, zero, suc, ◌+◌, ◌≤◌, ◌<◌, ◌≡◌, refl, Bool, true, ◌&&◌, some, arith, length, leb, All,
}
use bright_cli.Utils.Backoff.{
  Settled, fulfilled, rejected, Run, NetworkError, is_transient, retry_delay, default_backoff,
  request_with_backoff,
}
use bright_cli.Utils.Backoff.Laws.{IsRetryRun, execute_from_lem, run_recovers, delays_from}

-- Every delay before the attempt with this number is within the longest one.
delays_bounded : ℕ → Bool
unfolding retry_delay
delays_bounded zero = true
delays_bounded (suc attempt) = delays_bounded attempt && leb (retry_delay attempt) 52428800

abbrev pub IsPolite : ℕ → Type 0
IsPolite d = (1000 ≤ d) × (d ≤ 52428800)

retry_delay-leb :
    (attempts d : ℕ)
    → delays_bounded attempts ≡ true
    → d < attempts
    → leb (retry_delay d) 52428800 ≡ true
unfolding delays_bounded
retry_delay-leb zero d checked h = absurd (omega arith)
retry_delay-leb (suc attempts) d checked h = ground (arith, retry_delay-leb attempts d)

delays_bounded_lem : delays_bounded 20 ≡ true
unfolding delays_bounded retry_delay
delays_bounded_lem = refl

retry_delay-IsPolite : (d : ℕ) → d < 20 → IsPolite (retry_delay d)
unfolding retry_delay
retry_delay-IsPolite d h = ground (arith, retry_delay-leb 20 d delays_bounded_lem h)

delays_from-IsPolite :
    (count depth : ℕ) → depth + count ≤ 20 → All IsPolite (delays_from depth count)
delays_from-IsPolite zero depth h = tt
delays_from-IsPolite (suc count) depth h =
    (retry_delay-IsPolite depth (omega arith), delays_from-IsPolite count (depth + 1) (omega arith))

-- A request with the default settings always ends. It settles as its last call; every earlier call
-- failed with a transient error; it ends with an error only if that error is not transient or all
-- 20 retries are used.
pub request_with_backoff_lem :
    {A : Type 0} (task : ℕ → Settled NetworkError A)
    → (r : Run NetworkError A) × (request_with_backoff task ≡ some r)
      × IsRetryRun is_transient task default_backoff 0 r
unfolding request_with_backoff
request_with_backoff_lem task =
    execute_from_lem is_transient task 21 default_backoff 0 (omega arith)

-- If the k-th call (from 0, k at most 20) succeeds and every call before it fails with a transient
-- error, then the request returns that value after exactly k retries.
pub request_recovers :
    {A : Type 0} (task : ℕ → Settled NetworkError A) (k : ℕ) (a : A)
    → k ≤ 20
    → ((j : ℕ) → j < k → (e : NetworkError) × (task j ≡ rejected e) × (is_transient e ≡ true))
    → task k ≡ fulfilled a
    → (r : Run NetworkError A) × (request_with_backoff task ≡ some r)
      × (r.outcome ≡ fulfilled a)
      × (length r.delays ≡ k)
request_recovers task k a le before now =
    let (r, ran, h) = request_with_backoff_lem task in
    let (out, count) = run_recovers is_transient task k a default_backoff r le before now h in
    (r, ran, out, count)

-- Every wait of a request is between one second and about 15 hours, and there are at most 20.
pub request_waits :
    {A : Type 0} (task : ℕ → Settled NetworkError A) (r : Run NetworkError A)
    → request_with_backoff task ≡ some r
    → (length r.delays ≤ 20) × All IsPolite r.delays
request_waits task r e =
    let (r', ran, h) = request_with_backoff_lem task in
    let same : r' ≡ r = cc in
    rw (← same) (
      omega (arith, h.bounded),
      rw h.waited (delays_from-IsPolite (length r'.delays) 0 (omega (arith, h.bounded))),
    )
