-- ===== src/Discovery/Tests.antt =====
-- The theorems on job polling at concrete inputs.
use bright_cli.Prelude.{◌≡◌, refl, true, false, Option, none, some, [], ◌∷◌}
use bright_cli.Utils.Backoff.{Settled, fulfilled, rejected, NetworkError}
use bright_cli.Scan.Polling.{PollingConfig}
use bright_cli.Discovery.{DiscoveryStatus, running, done, discovery_finished}
use bright_cli.Discovery.Polling.{
  JobRound, status_is, finished_with, returned, settle_view, job_delay, process_view, poll_jobs,
}
use bright_cli.Discovery.Polling.Laws.{AreOngoing, poll_jobs_return}

abbrev options : PollingConfig
options = record { timeout = some 600000; interval = some 15000 }

abbrev answer : Settled NetworkError (Option DiscoveryStatus) → JobRound DiscoveryStatus
answer x = record { view = λ n. x; fires_in_request = false; fires_in_delay = false }

abbrev refusal : NetworkError
refusal = record { is_axios_error = true; status = some 401; error_code = none }

answers :
    (s : DiscoveryStatus) → settle_view (answer (fulfilled (some s))) ≡ some (fulfilled (some s))
unfolding settle_view
answers s = refl

refused : settle_view (answer (rejected refusal)) ≡ some (rejected refusal)
unfolding settle_view
refused = refl

begins : AreOngoing discovery_finished true (answer (fulfilled (some running)) ∷ []) (running ∷ [])
unfolding discovery_finished
begins = ((answers running, refl, refl, refl), tt)

poll_jobs_return_example :
    let t =
      poll_jobs discovery_finished options
        (answer (fulfilled (some running)) ∷ answer (fulfilled (some done)) ∷ []) in
    (t.ended ≡ returned)
    × (t.lines ≡ status_is running ∷ status_is done ∷ finished_with done ∷ [])
    × (t.delays ≡ 15000 ∷ [])
    × (t.polling ≡ record { options = options; aborted = true; timer = false })
unfolding discovery_finished job_delay process_view
poll_jobs_return_example =
    poll_jobs_return discovery_finished options (answer (fulfilled (some running)) ∷ [])
      (running ∷ []) begins (answer (fulfilled (some done))) [] (some done) (answers done) refl

abbrev late : JobRound DiscoveryStatus
late = record (answer (fulfilled (some running))) { fires_in_delay = true }

late_answers : settle_view late ≡ some (fulfilled (some running))
unfolding settle_view
late_answers = refl
