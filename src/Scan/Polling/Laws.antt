-- ===== src/Scan/Polling/Laws.antt =====
-- What ends a scan's polling, and what the breakpoint has seen by then.
use bright_cli.Prelude.{
  ℕ, suc, ◌≡◌, refl, append-nil, ◌∙◌, ◌≢◌, Bool, true, false, ◌&&◌, ◌||◌, some, List, [], ◌∷◌, ◌++◌,
  arith, length, length-append, length-replicate, replicate, if◌then◌else◌, ap,
}
use bright_cli.Utils.Backoff.{fulfilled, rejected, NetworkError}
use bright_cli.Scan.Severity.{ScanState}
use bright_cli.Scan.Breakpoint.{OnSeverity, is_excepted, execute}
use bright_cli.Scan.Polling.{
  expire, PollingConfig, BasePolling, Round, Trace, Ended, pending, completed, broke, failed_with,
  truthy, is_redundant, settle, delay, poll, start, stop,
}

-- A state that neither ends the scan nor trips the breakpoint.
abbrev pub IsQuiet : OnSeverity → ScanState → Type 0
IsQuiet b s = (is_redundant s.status ≡ false) × (is_excepted b s ≡ false)

-- The round answers with the state, and no scheduled timer fires in it.
abbrev Passes : Bool → Round → ScanState → Type 0
Passes timer r s = (settle r ≡ some (fulfilled s)) × (r.expires && timer ≡ false)

-- The rounds answer with the states, all quiet, and no scheduled timer fires.
abbrev pub AreQuiet : OnSeverity → Bool → List Round → List ScanState → Type 0
AreQuiet b timer [] [] = Unit
AreQuiet b timer (r ∷ rs) (s ∷ ss) = Passes timer r s × IsQuiet b s × AreQuiet b timer rs ss
AreQuiet b timer _ _ = ⊥

-- What the quiet rounds add in front of a trace.
abbrev after_quiet : ℕ → List ScanState → Trace → Trace
after_quiet ms ss t = record t {
  examined = ss ++ t.examined;
  waited = replicate (length ss) ms ++ t.waited;
}

poll_quiet_once :
    (p : BasePolling) (r : Round) (rs : List Round) (s : ScanState)
    → p.active ≡ true
    → Passes p.timer r s
    → IsQuiet p.breakpoint s
    → poll p (r ∷ rs) ≡ after_quiet (delay p) (s ∷ []) (poll p rs)
unfolding poll execute
poll_quiet_once p r rs s a (h, e) q = ground arith

poll_quiet :
    (p : BasePolling) (rs more : List Round) (ss : List ScanState)
    → p.active ≡ true
    → AreQuiet p.breakpoint p.timer rs ss
    → poll p (rs ++ more) ≡ after_quiet (delay p) ss (poll p more)
poll_quiet p [] more [] a h = refl
poll_quiet p (r ∷ rs) more (s ∷ ss) a (pass, q, h) =
    rw (poll_quiet_once p r (rs ++ more) s a pass q, poll_quiet p rs more ss a h)
poll_quiet p [] more (s ∷ ss) a h = absurd h
poll_quiet p (r ∷ rs) more [] a h = absurd h

-- A poller as the constructor returns it.
abbrev pub fresh : PollingConfig → OnSeverity → BasePolling
fresh o b = record { options = o; breakpoint = b; active = true; timer = false }

abbrev armed : PollingConfig → OnSeverity → BasePolling
armed o b = record { options = o; breakpoint = b; active = true; timer = truthy o.timeout }

start-eq :
    (o : PollingConfig) (b : OnSeverity) (rs : List Round) (t : Trace)
    → poll (armed o b) rs ≡ t
    → t.ended ≢ pending
    → start (fresh o b) rs ≡ record t { polling = stop t.polling }
unfolding start
start-eq o b rs t h n = ground (arith, h)

-- A run whose quiet rounds are followed by rounds that end.
abbrev closed_after : PollingConfig → OnSeverity → List ScanState → Trace → Trace
closed_after o b ss t = record (after_quiet (delay (armed o b)) ss t) { polling = stop t.polling }

start_after_quiet :
    (o : PollingConfig) (b : OnSeverity) (rs more : List Round) (ss : List ScanState) (t : Trace)
    → AreQuiet b (truthy o.timeout) rs ss
    → poll (armed o b) more ≡ t
    → t.ended ≢ pending
    → start (fresh o b) (rs ++ more) ≡ closed_after o b ss t
start_after_quiet o b rs more ss t h e n =
    start-eq o b (rs ++ more) (after_quiet (delay (armed o b)) ss t)
      (poll_quiet (armed o b) rs more ss refl h ∙ ap (after_quiet (delay (armed o b)) ss) e) n

-- How the run ends at a state that is not quiet.
abbrev pub verdict : OnSeverity → ScanState → Ended
verdict b s = if is_redundant s.status then completed else broke (record { found = b.severity })

abbrev pub examined_last : ScanState → List ScanState
examined_last s = if is_redundant s.status then [] else s ∷ []

abbrev last_trace : PollingConfig → OnSeverity → Round → List ScanState → Ended → Trace
last_trace o b r ss e = record {
  polling = expire r.expires (armed o b);
  examined = ss;
  waited = delay (armed o b) ∷ [];
  ended = e;
}

poll_ends :
    (o : PollingConfig) (b : OnSeverity) (r : Round) (later : List Round) (s : ScanState)
    → settle r ≡ some (fulfilled s)
    → is_redundant s.status || is_excepted b s ≡ true
    → poll (armed o b) (r ∷ later) ≡ last_trace o b r (examined_last s) (verdict b s)
unfolding poll execute
poll_ends o b r later s h e = ground arith

verdict-ne-pending : (b : OnSeverity) (s : ScanState) → verdict b s ≢ pending
verdict-ne-pending b s = ground arith

poll_times_out :
    (o : PollingConfig) (b : OnSeverity) (r : Round) (later : List Round) (s : ScanState)
    → truthy o.timeout ≡ true
    → r.expires ≡ true
    → settle r ≡ some (fulfilled s)
    → IsQuiet b s
    → poll (armed o b) (r ∷ later) ≡ last_trace o b r (s ∷ []) completed
unfolding poll execute
poll_times_out o b r [] s set fires h q = ground arith
poll_times_out o b r (r' ∷ later) s set fires h q = ground arith

poll_fails :
    (o : PollingConfig) (b : OnSeverity) (r : Round) (later : List Round) (e : NetworkError)
    → settle r ≡ some (rejected e)
    → poll (armed o b) (r ∷ later) ≡ last_trace o b r [] (failed_with e)
unfolding poll execute
poll_fails o b r later e h = ground arith

module _ (ss : List ScanState) where
  waits : (ms : ℕ) → length (replicate (length ss) ms ++ ms ∷ []) ≡ suc (length ss)
  waits ms =
      omega
        (arith, length-append (replicate (length ss) ms) (ms ∷ []), length-replicate (length ss) ms)

module _ (o : PollingConfig) (b : OnSeverity) (rs : List Round) (ss : List ScanState)
    (quiet : AreQuiet b (truthy o.timeout) rs ss) (r : Round) (later : List Round) where
  -- The first state that is not quiet ends the polling, whatever would come later: normally if the
  -- status is final, even if the scan has issues by then, and with the exception of the breakpoint
  -- if not. The breakpoint has examined the quiet states before it, and this one if it is not final;
  -- the poller is inactive and its timeout is cleared.
  pub start_ends :
      (s : ScanState)
      → settle r ≡ some (fulfilled s)
      → is_redundant s.status || is_excepted b s ≡ true
      → let t = start (fresh o b) (rs ++ r ∷ later) in
        (t.ended ≡ verdict b s)
        × (t.examined ≡ ss ++ examined_last s)
        × (t.polling.active ≡ false)
        × (t.polling.timer ≡ false)
  unfolding stop
  start_ends s h e =
      rw
        (start_after_quiet o b rs (r ∷ later) ss _ quiet (poll_ends o b r later s h e)
          (verdict-ne-pending b s))
        (refl, refl, refl, refl)

  -- Where a timeout is configured and fires in a round with a quiet state, the polling ends
  -- normally after that round, with the state of the round examined and no later request made.
  pub start_times_out :
      (s : ScanState)
      → truthy o.timeout ≡ true
      → r.expires ≡ true
      → settle r ≡ some (fulfilled s)
      → IsQuiet b s
      → let t = start (fresh o b) (rs ++ r ∷ later) in
        (t.ended ≡ completed) × (t.examined ≡ ss ++ s ∷ []) × (length t.waited ≡ suc (length ss))
  start_times_out s set fires h q =
      rw
        (start_after_quiet o b rs (r ∷ later) ss _ quiet
          (poll_times_out o b r later s set fires h q) (λ p. cc))
        (refl, refl, waits ss (delay (armed o b)))

  -- A status request that fails for good makes `start` fail with its error, after the quiet states
  -- have been examined; the poller is inactive and its timeout is cleared.
  pub start_fails :
      (e : NetworkError)
      → settle r ≡ some (rejected e)
      → let t = start (fresh o b) (rs ++ r ∷ later) in
        (t.ended ≡ failed_with e)
        × (t.examined ≡ ss)
        × (t.polling.active ≡ false)
        × (t.polling.timer ≡ false)
  unfolding stop
  start_fails e h =
      rw (start_after_quiet o b rs (r ∷ later) ss _ quiet (poll_fails o b r later e h) (λ p. cc))
        (refl, append-nil ss, refl, refl)
