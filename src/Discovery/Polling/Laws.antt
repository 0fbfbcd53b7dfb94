-- ===== src/Discovery/Polling/Laws.antt =====
-- What ends the polling of a discovery or of a host update.
use bright_cli.Prelude.{
  ℕ, ◌≡◌, refl, ap, ◌∙◌, Bool, true, false, ◌&&◌, ◌||◌, Option, none, some, List, [], ◌∷◌, ◌++◌,
  map, append-nil, length, replicate, arith, if◌then◌else◌,
}
use bright_cli.Utils.Backoff.{fulfilled, rejected, NetworkError}
use bright_cli.Scan.Polling.{PollingConfig, truthy}
use bright_cli.Discovery.Polling.{
  JobPolling, JobRound, JobTrace, status_is, JobEnd, waiting, returned, exited, fire, fire_line,
  job_delay, settle_view, process_view, handle_error, stop_jobs, run_polling_loop, poll_jobs,
  finally_stop_jobs,
}

module _ {S : Type 0} (is_finished : S → Bool) where
  -- A round that answers with a status that is not final, while no timer fires.
  abbrev pub IsOngoing : Bool → JobRound S → S → Type 0
  IsOngoing timer r s =
      (settle_view r ≡ some (fulfilled (some s)))
      × (is_finished s ≡ false)
      × (r.fires_in_request && timer ≡ false)
      × (r.fires_in_delay && timer ≡ false)

  -- Rounds of that kind, with these statuses.
  abbrev pub AreOngoing : Bool → List (JobRound S) → List S → Type 0
  AreOngoing timer [] [] = Unit
  AreOngoing timer (r ∷ rs) (s ∷ ss) = IsOngoing timer r s × AreOngoing timer rs ss
  AreOngoing timer _ _ = ⊥

  -- What such rounds add in front of a trace.
  abbrev after_ongoing : ℕ → List S → JobTrace S → JobTrace S
  after_ongoing ms ss t = record t {
    lines = map status_is ss ++ t.lines;
    delays = replicate (length ss) ms ++ t.delays;
  }

  run_ongoing_once :
      (p : JobPolling) (r : JobRound S) (rs : List (JobRound S)) (s : S)
      → p.aborted ≡ false
      → IsOngoing p.timer r s
      → run_polling_loop is_finished p (r ∷ rs)
        ≡ after_ongoing (job_delay p) (s ∷ []) (run_polling_loop is_finished p rs)
  unfolding run_polling_loop process_view
  run_ongoing_once p r rs s a (h, f, e, d) = ground arith

  run_ongoing :
      (p : JobPolling) (rs more : List (JobRound S)) (ss : List S)
      → p.aborted ≡ false
      → AreOngoing p.timer rs ss
      → run_polling_loop is_finished p (rs ++ more)
        ≡ after_ongoing (job_delay p) ss (run_polling_loop is_finished p more)
  run_ongoing p [] more [] a h = refl
  run_ongoing p (r ∷ rs) more (s ∷ ss) a (pass, h) =
      rw (run_ongoing_once p r (rs ++ more) s a pass, run_ongoing p rs more ss a h)
  run_ongoing p [] more (s ∷ ss) a h = absurd h
  run_ongoing p (r ∷ rs) more [] a h = absurd h

  -- A poller that has begun.
  abbrev pub begun : PollingConfig → JobPolling
  begun o = record { options = o; aborted = false; timer = truthy o.timeout }

  poll_ongoing :
      (o : PollingConfig) (rs more : List (JobRound S)) (ss : List S)
      → AreOngoing (truthy o.timeout) rs ss
      → let t = run_polling_loop is_finished (begun o) more in
        poll_jobs is_finished o (rs ++ more)
        ≡ finally_stop_jobs t.ended (after_ongoing (job_delay (begun o)) ss t)
  unfolding poll_jobs
  poll_ongoing o rs more ss h = rw (run_ongoing (begun o) rs more ss refl h)

  -- A status is final, or nothing is found.
  abbrev pub is_last : Option S → Bool
  is_last none = true
  is_last (some s) = is_finished s

  -- A round that answers with this ends the polling.
  run_last :
      (o : PollingConfig) (r : JobRound S) (later : List (JobRound S)) (v : Option S)
      → settle_view r ≡ some (fulfilled v)
      → is_last v ≡ true
      → run_polling_loop is_finished (begun o) (r ∷ later) ≡ record {
        polling = fire r.fires_in_request (begun o);
        lines = fire_line r.fires_in_request (begun o) ++ (process_view is_finished v).1;
        delays = [];
        ended = returned;
      }
  unfolding run_polling_loop process_view
  run_last o r later none h l =
      ground (arith, append-nil (fire_line {S = S} r.fires_in_request (begun o)))
  run_last o r later (some s) h l = ground arith

  -- A round that fails exits the process, unless the timer fires while its request runs.
  run_fails :
      (o : PollingConfig) (r : JobRound S) (later : List (JobRound S)) (e : NetworkError)
      → settle_view r ≡ some (rejected e)
      → (run_polling_loop is_finished (begun o) (r ∷ later)).ended
        ≡ (if r.fires_in_request && truthy o.timeout then returned else exited)
  unfolding run_polling_loop handle_error
  run_fails o r later e h = ground arith

  -- A round in which the timer fires is the last.
  run_times_out :
      (o : PollingConfig) (r : JobRound S) (later : List (JobRound S)) (v : Option S)
      → settle_view r ≡ some (fulfilled v)
      → (r.fires_in_request || r.fires_in_delay) && truthy o.timeout ≡ true
      → let t = run_polling_loop is_finished (begun o) (r ∷ later) in
        (t.ended ≡ returned) × (t.delays ≡ [])
  unfolding run_polling_loop handle_error process_view
  run_times_out o r later none h f = ground arith
  run_times_out o r later (some s) h f = ground arith

  stop-fire :
      (o : PollingConfig) (f : Bool)
      → stop_jobs (fire f (begun o)) ≡ record { options = o; aborted = true; timer = false }
  unfolding stop_jobs
  stop-fire o f = ground arith

  finally-ended : (e : JobEnd) (t : JobTrace S) → (finally_stop_jobs e t).ended ≡ t.ended
  finally-ended waiting t = refl
  finally-ended returned t = refl
  finally-ended exited t = refl

  finally-delays : (e : JobEnd) (t : JobTrace S) → (finally_stop_jobs e t).delays ≡ t.delays
  finally-delays waiting t = refl
  finally-delays returned t = refl
  finally-delays exited t = refl

  module _ (o : PollingConfig) (rs : List (JobRound S)) (ss : List S)
      (ongoing : AreOngoing (truthy o.timeout) rs ss) (r : JobRound S)
      (later : List (JobRound S)) where
    -- The polling returns at the first final status, or where nothing is found, with the poller
    -- aborted and its timeout cleared. Until then no timer has fired; it has logged each status
    -- before in order and waited the interval after each, and no later round is made.
    pub poll_jobs_return :
        (v : Option S)
        → settle_view r ≡ some (fulfilled v)
        → is_last v ≡ true
        → let t = poll_jobs is_finished o (rs ++ r ∷ later) in
          (t.ended ≡ returned)
          × (t.lines
              ≡ map status_is ss
                ++ (fire_line r.fires_in_request (begun o) ++ (process_view is_finished v).1))
          × (t.delays ≡ replicate (length ss) (job_delay (begun o)))
          × (t.polling ≡ record { options = o; aborted = true; timer = false })
    unfolding stop_jobs
    poll_jobs_return v h l =
        rw (poll_ongoing o rs (r ∷ later) ss ongoing, run_last o r later v h l)
          (
            refl,
            refl,
            append-nil (replicate (length ss) (job_delay (begun o))),
            stop-fire o r.fires_in_request,
          )

    -- A request that fails for good, after its retries, makes the process exit, unless the timeout
    -- fires while it runs: then the polling returns as if it had not failed.
    pub poll_jobs_exit :
        (e : NetworkError)
        → settle_view r ≡ some (rejected e)
        → (poll_jobs is_finished o (rs ++ r ∷ later)).ended
          ≡ (if r.fires_in_request && truthy o.timeout then returned else exited)
    poll_jobs_exit e h =
        ap (λ t. t.ended) (poll_ongoing o rs (r ∷ later) ss ongoing)
        ∙ finally-ended _ _
        ∙ run_fails o r later e h

    -- Where the timeout fires in a round, while its request runs or in the delay after it, and the
    -- request does not fail, the polling returns after that round: it has waited out the delays of
    -- the rounds before, and no others.
    pub poll_jobs_time_out :
        (v : Option S)
        → settle_view r ≡ some (fulfilled v)
        → (r.fires_in_request || r.fires_in_delay) && truthy o.timeout ≡ true
        → let t = poll_jobs is_finished o (rs ++ r ∷ later) in
          (t.ended ≡ returned) × (t.delays ≡ replicate (length ss) (job_delay (begun o)))
    poll_jobs_time_out v h f =
        let (e, d) = run_times_out o r later v h f in
        (
          ap (λ t. t.ended) (poll_ongoing o rs (r ∷ later) ss ongoing) ∙ finally-ended _ _ ∙ e,
          ap (λ t. t.delays) (poll_ongoing o rs (r ∷ later) ss ongoing)
              ∙ finally-delays _ _
              ∙ ap (λ ds. replicate (length ss) (job_delay (begun o)) ++ ds) d
              ∙ append-nil (replicate (length ss) (job_delay (begun o))),
        )
