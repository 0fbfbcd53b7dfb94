-- ===== src/Utils/Backoff.antt =====
-- src/Utils/Backoff.ts, and the test of errors that the three pollers hand to it.
-- A task is the outcome of each of its calls: the n-th call settles as `task n`.
pub mod Laws
pub mod Requests
use bright_cli.Prelude.{
  ℕ, zero, suc, ◌+◌, ◌*◌, ◌^◌, max, Bool, false, ◌&&◌, ◌||◌, Option, none, some, List, [], ◌∷◌,
  Text, codes, includes, if◌then◌else◌, ltb,
}

-- How a promise settles.
pub data Settled (E A : Type 0) : Type 0 where
  fulfilled : A → Settled E A
  rejected : E → Settled E A

pub record Backoff : Type 0 where
  pub depth : ℕ
  pub max_depth : ℕ

-- What one `execute` does: how it settles, the delays that it slept, and the object afterwards.
pub record Run (E A : Type 0) : Type 0 where
  pub outcome : Settled E A
  pub delays : List ℕ
  pub backoff : Backoff

-- The milliseconds that `retry` waits: `Math.max(2 ** depth * 100, 1000)`.
unfoldable pub retry_delay : ℕ → ℕ
retry_delay depth = max (2 ^ depth * 100) 1000

abbrev prepend : {E A : Type 0} → ℕ → Option (Run E A) → Option (Run E A)
prepend d none = none
prepend d (some r) = some (record r { delays = d ∷ r.delays })

module _ {E A : Type 0} (should_retry : E → Bool) (task : ℕ → Settled E A) where
  -- `execute` and `retry`, with fuel for the calls of the task; `none` means that it ran out.
  unfoldable pub execute_from : ℕ → Backoff → ℕ → Option (Run E A)
  unfolding retry_delay
  execute_from zero b n = none
  execute_from (suc fuel) b n =
      let again =
        prepend (retry_delay b.depth)
          (execute_from fuel (record b { depth = b.depth + 1 }) (suc n)) in
      elim (task n) [
        | fulfilled a ↦ some (record { outcome = fulfilled a; delays = []; backoff = b })
        | rejected e ↦
            if should_retry e && ltb b.depth b.max_depth
            then again
            else some (record { outcome = rejected e; delays = []; backoff = b })
      ]

-- An error as the retry test sees it. An absent `status` or `code` is `undefined`.
pub record NetworkError : Type 0 where
  pub is_axios_error : Bool
  pub status : Option ℕ
  pub error_code : Option Text

abbrev pub transient_codes : List Text
transient_codes =
    codes "ECONNRESET"
    ∷ codes "ENETDOWN"
    ∷ codes "ENETUNREACH"
    ∷ codes "ETIMEDOUT"
    ∷ codes "ECONNREFUSED"
    ∷ codes "ENOTFOUND"
    ∷ codes "EAI_AGAIN"
    ∷ codes "ESOCKETTIMEDOUT"
    ∷ []

abbrev above_500 : Option ℕ → Bool
above_500 none = false
above_500 (some s) = ltb 500 s

abbrev is_listed : Option Text → Bool
is_listed none = false
is_listed (some c) = includes transient_codes c

-- The test of `createBackoff`.
unfoldable pub is_transient : NetworkError → Bool
unfolding includes
is_transient e = (e.is_axios_error && above_500 e.status) || is_listed e.error_code

abbrev pub default_reconnect_times : ℕ
default_reconnect_times = 20

abbrev pub default_backoff : Backoff
default_backoff = record { depth = 0; max_depth = default_reconnect_times }

-- `createBackoff().execute(task)`: a new object for each request.
unfoldable pub request_with_backoff :
    {A : Type 0} → (ℕ → Settled NetworkError A) → Option (Run NetworkError A)
unfolding execute_from is_transient
request_with_backoff task =
    execute_from is_transient task (suc default_reconnect_times) default_backoff 0
