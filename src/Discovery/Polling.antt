-- ===== src/Discovery/Polling.antt =====
-- The loop that src/Discovery/DiscoveryPolling.ts and src/EntryPoint/HostUpdateJobStatusPolling.ts
-- have in common, on the statuses that each polls. A round is a pass of the loop: what each call of
-- the request settles with (with no status if nothing is found), and whether the timer fires while
-- the request runs or in the delay after it.
pub mod Laws
use bright_cli.Prelude.{
  ℕ, Bool, true, false, ◌&&◌, not, Option, none, some, List, [], ◌∷◌, ◌++◌, or_else, if◌then◌else◌,
}
use bright_cli.Utils.Backoff.{Settled, fulfilled, rejected, NetworkError, request_with_backoff}
use bright_cli.Scan.Polling.{PollingConfig, truthy, default_interval}

-- `aborted` is that of the signal, `timer` whether a timeout was set and not cleared.
pub record JobPolling : Type 0 where
  pub options : PollingConfig
  pub aborted : Bool
  pub timer : Bool

pub record JobRound (S : Type 0) : Type 0 where
  pub view : ℕ → Settled NetworkError (Option S)
  pub fires_in_request : Bool
  pub fires_in_delay : Bool

-- The lines that are logged while polling.
pub data Line (S : Type 0) : Type 0 where
  not_found by_timeout : Line S
  status_is finished_with : S → Line S

-- How `start` ends: `exited` is `process.exit(1)`, and `waiting` is that it has not.
pub data JobEnd : Type 0 where
  waiting returned exited : JobEnd

pub record JobTrace (S : Type 0) : Type 0 where
  pub polling : JobPolling
  pub lines : List (Line S)
  pub delays : List ℕ
  pub ended : JobEnd

-- The callback of the timeout.
abbrev pub fire : Bool → JobPolling → JobPolling
fire f p = if f && p.timer then record p { aborted = true } else p

-- `interval ?? defaultInterval`
unfoldable pub job_delay : JobPolling → ℕ
job_delay p = or_else p.options.interval default_interval

-- `clearTimeout` and `abort`
unfoldable pub stop_jobs : JobPolling → JobPolling
stop_jobs p = record p { aborted = true; timer = false }

module _ {S : Type 0} where
  abbrev pub fire_line : Bool → JobPolling → List (Line S)
  fire_line f p = if f && p.timer then by_timeout ∷ [] else []

  abbrev end_job : JobPolling → JobEnd → JobTrace S
  end_job p e = record { polling = p; lines = []; delays = []; ended = e }

  abbrev log : List (Line S) → JobTrace S → JobTrace S
  log ls t = record t { lines = ls ++ t.lines }

  abbrev slept : ℕ → JobTrace S → JobTrace S
  slept ms t = record t { delays = ms ∷ t.delays }

  -- How the request of a round settles after its retries.
  unfoldable pub settle_view : JobRound S → Option (Settled NetworkError (Option S))
  unfolding request_with_backoff
  settle_view r = elim (request_with_backoff r.view) [ none ↦ none | some run ↦ some run.outcome ]

  -- `finally`, which a process that exits does not reach
  abbrev finally_stop_jobs : JobEnd → JobTrace S → JobTrace S
  finally_stop_jobs returned t = record t { polling = stop_jobs t.polling }
  finally_stop_jobs _ t = t

module _ {S : Type 0} (is_finished : S → Bool) where
  -- `processDiscoveryView`, `processJobView`: whether to go on, and the lines logged.
  unfoldable pub process_view : Option S → Bool × List (Line S)
  process_view none = (false, not_found ∷ [])
  process_view (some s) =
      if is_finished s
      then (false, status_is s ∷ finished_with s ∷ [])
      else (true, status_is s ∷ [])

  -- `handleError`: silent if the signal is aborted.
  unfoldable pub handle_error : JobPolling → JobTrace S
  handle_error p = end_job p (if p.aborted then returned else exited)

  -- `delay`, which rejects once the signal is aborted, and the passes that follow it.
  abbrev pause : JobRound S → JobPolling → JobTrace S → JobTrace S
  pause r p rest =
      if p.aborted
      then handle_error p
      else log (fire_line r.fires_in_delay p) (
          if (fire r.fires_in_delay p).aborted
          then handle_error (fire r.fires_in_delay p)
          else slept (job_delay p) rest)

  abbrev react_view :
      JobPolling → Option (Settled NetworkError (Option S)) → JobTrace S → JobTrace S
  react_view p none next = end_job p waiting
  react_view p (some (rejected e)) next = handle_error p
  react_view p (some (fulfilled v)) next =
      log (process_view v).1 (if (process_view v).0 then next else end_job p returned)

  -- `runPollingLoop` over `poll`
  unfoldable pub run_polling_loop : JobPolling → List (JobRound S) → JobTrace S
  unfolding settle_view process_view handle_error job_delay
  run_polling_loop p [] = end_job p (if p.aborted then returned else waiting)
  run_polling_loop p (r ∷ rs) =
      let p' = fire r.fires_in_request p in
      let rest = run_polling_loop (fire r.fires_in_delay p') rs in
      if p.aborted
      then end_job p returned
      else log (fire_line r.fires_in_request p) (react_view p' (settle_view r) (pause r p' rest))

  -- `start`, on a new poller
  unfoldable pub poll_jobs : PollingConfig → List (JobRound S) → JobTrace S
  unfolding stop_jobs
  poll_jobs o rounds =
      let t =
        run_polling_loop (record { options = o; aborted = false; timer = truthy o.timeout })
          rounds in
      finally_stop_jobs t.ended t
