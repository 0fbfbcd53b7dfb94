-- ===== src/Commands/PollingScanStatus/Exit.antt =====
-- What the code of the command that polls a scan tells.
use bright_cli.Prelude.{
  ◌≡◌, refl, sym, subst, ◌∙◌, ◌⊎◌, inl, inr, Bool, true, false, ◌&&◌, Option, none, some, List, [],
  ◌∷◌, Text, lookup, Bool-cases, arith, if◌then◌else◌,
}
use bright_cli.Utils.Backoff.{Settled, fulfilled, rejected, NetworkError}
use bright_cli.Scan.Severity.{Severity, ScanState}
use bright_cli.Scan.Breakpoint.{BreakpointException, OnSeverity, create, execute, is_excepted}
use bright_cli.Scan.Breakpoint.Laws.{HasIssue, thresholds, create-is_excepted}
use bright_cli.Scan.Polling.{
  BasePolling, Ended, PollingConfig, Round, Trace, broke, completed, create_polling, failed_with,
  is_redundant, new_polling, pending, poll, react, settle, start, truthy, finally_stop, expire,
  end_here,
}
use bright_cli.Commands.PollingScanStatus.{exit_after, polling_exit_code, polling_scan_status}

-- The states that the rounds report.
abbrev pub IsReported : List Round → ScanState → Type 0
IsReported [] s = ⊥
IsReported (r ∷ rounds) s = (settle r ≡ some (fulfilled s)) ⊎ IsReported rounds s

abbrev Trips : OnSeverity → ScanState → Type 0
Trips b s = (is_redundant s.status ≡ false) × (is_excepted b s ≡ true)

react-broke :
    (p : BasePolling) (o : Option (Settled NetworkError ScanState)) (rest : Trace)
    (e : BreakpointException)
    → (react p o rest).ended ≡ broke e
    → ((s : ScanState) × (o ≡ some (fulfilled s)) × Trips p.breakpoint s) ⊎ (rest.ended ≡ broke e)
unfolding execute
react-broke p none rest e h = cc
react-broke p (some (rejected x)) rest e h = cc
react-broke p (some (fulfilled s)) rest e h = elim (Bool-cases (is_redundant s.status)) [
  | inl over ↦ let absurd : ⊥ = ground (arith, over, h) in elim absurd [ ]
  | inr runs ↦ elim (Bool-cases (is_excepted p.breakpoint s)) [
    | inl trips ↦ inl (s, refl, (runs, trips))
    | inr quiet ↦ inr (ground (arith, runs, quiet, h))
  ]
]

expire-breakpoint : (x : Bool) (p : BasePolling) → (expire x p).breakpoint ≡ p.breakpoint
expire-breakpoint x p = elim (Bool-cases (x && p.timer)) [ inl e ↦ rw e refl | inr e ↦ rw e refl ]

if-broke :
    (b : Bool) (t u : Trace) (e : BreakpointException)
    → u.ended ≡ completed
    → (if b then t else u).ended ≡ broke e
    → t.ended ≡ broke e
if-broke true t u e over h = h
if-broke false t u e over h = cc

poll-broke :
    (b : OnSeverity) (rounds : List Round) (p : BasePolling) (e : BreakpointException)
    → p.breakpoint ≡ b
    → (poll p rounds).ended ≡ broke e
    → (s : ScanState) × IsReported rounds s × Trips b s
unfolding poll
poll-broke b [] p e same h = let absurd : ⊥ = ground (arith, h) in elim absurd [ ]
poll-broke b (r ∷ rounds) p e same h =
    let p' = expire r.expires p in
    let at : p'.breakpoint ≡ b = expire-breakpoint r.expires p ∙ same in
    elim (react-broke p' (settle r) (poll p' rounds) e
      (if-broke p.active _ (end_here p completed) e refl h)) [
        | inl (s, answer, trips) ↦ (s, inl answer, subst (λ c. Trips c s) at trips)
        | inr later ↦
            let (s, reported, trips) = poll-broke b rounds p' e at later in (s, inr reported, trips)
      ]

finally_stop-ended : (end : Ended) (t : Trace) → (finally_stop end t).ended ≡ t.ended
finally_stop-ended pending t = refl
finally_stop-ended completed t = refl
finally_stop-ended (broke e) t = refl
finally_stop-ended (failed_with e) t = refl

if-breakpoint :
    (x : Bool) (p : BasePolling)
    → (if x then record p { timer = true } else p).breakpoint ≡ p.breakpoint
if-breakpoint true p = refl
if-breakpoint false p = refl

start-broke :
    (rounds : List Round) (p : BasePolling) (e : BreakpointException)
    → (start p rounds).ended ≡ broke e
    → (s : ScanState) × IsReported rounds s × Trips p.breakpoint s
unfolding start
start-broke rounds p e h =
    let armed : BasePolling = if truthy p.options.timeout then record p { timer = true } else p in
    let t = poll armed rounds in
    poll-broke p.breakpoint rounds armed e (if-breakpoint (truthy p.options.timeout) p)
      (sym (finally_stop-ended t.ended t) ∙ h)

polling_exit_code-broke :
    (end : Ended) → polling_exit_code end ≡ some 50 → (e : BreakpointException) × (end ≡ broke e)
unfolding polling_exit_code
polling_exit_code-broke pending h = cc
polling_exit_code-broke completed h = let absurd : ⊥ = ground (arith, h) in elim absurd [ ]
polling_exit_code-broke (broke e) h = (e, refl)
polling_exit_code-broke (failed_with e) h = let absurd : ⊥ = ground (arith, h) in elim absurd [ ]

exit_after-broke :
    (type : Text) (options : PollingConfig) (rounds : List Round) (o : Option OnSeverity)
    → create type ≡ o
    → exit_after rounds (new_polling options o) ≡ some 50
    → (least : Severity) × (s : ScanState) × (lookup type thresholds ≡ some least)
      × IsReported rounds s
      × (is_redundant s.status ≡ false)
      × HasIssue least s
unfolding new_polling
exit_after-broke type options rounds none made h =
    let absurd : ⊥ = ground (arith, h) in elim absurd [ ]
exit_after-broke type options rounds (some b) made h =
    let p : BasePolling = record {
      options = options;
      breakpoint = b;
      active = true;
      timer = false;
    } in
    let (e, broken) = polling_exit_code-broke (start p rounds).ended h in
    let (s, reported, state) = start-broke rounds p e broken in
    let (least, found, same) = create-is_excepted type b s made in
    (least, s, found, reported, state.0, same.0 state.1)

-- The command that polls a scan exits with 50 only where the breakpoint's type is known and a round
-- reports the scan in a state that is not final and has an issue of the severity of the type or of a
-- higher one.
pub polling_scan_status-exceeded :
    (options : PollingConfig) (type : Text) (rounds : List Round)
    → polling_scan_status options type rounds ≡ some 50
    → (least : Severity) × (s : ScanState) × (lookup type thresholds ≡ some least)
      × IsReported rounds s
      × (is_redundant s.status ≡ false)
      × HasIssue least s
unfolding polling_scan_status create_polling
polling_scan_status-exceeded options type rounds h =
    exit_after-broke type options rounds (create type) refl h
