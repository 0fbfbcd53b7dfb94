-- ===== src/Scan/Polling.antt =====
-- src/Scan/BasePolling.ts and src/Scan/DefaultPollingFactory.ts.
-- The environment is a list of rounds: what each call of the status request settles with, and
-- whether the timer fires in the course of the round. A list that ends while the poller is active
-- leaves it waiting.
pub mod Laws
use bright_cli.Prelude.{
  ℕ, suc, Bool, true, false, ◌&&◌, not, Option, none, some, List, [], ◌∷◌, ◌++◌, Text, or_else,
  if◌then◌else◌, ltb, ◌==◌,
}
use bright_cli.Utils.Backoff.{Settled, fulfilled, rejected, Run, NetworkError, request_with_backoff}
use bright_cli.Scan.Severity.{ScanStatus, done, stopped, disrupted, failed, ScanState}
use bright_cli.Scan.Breakpoint.{OnSeverity, BreakpointException, execute, create}

-- Times in milliseconds.
pub record PollingConfig : Type 0 where
  pub timeout : Option ℕ
  pub interval : Option ℕ

pub data Warning : Type 0 where
  no_timeout minimal_timeout short_interval : Warning

abbrev pub default_interval : ℕ
default_interval = 10000

-- An option that is absent or 0 is falsy.
abbrev pub truthy : Option ℕ → Bool
truthy none = false
truthy (some n) = not (n == 0)

pub record BasePolling : Type 0 where
  pub options : PollingConfig
  pub breakpoint : OnSeverity
  pub active : Bool
  -- whether a timeout is scheduled
  pub timer : Bool

pub data CreateError : Type 0 where
  no_breakpoint : CreateError

abbrev interval_warning : Option ℕ → List Warning
interval_warning none = []
interval_warning (some n) =
    if not (n == 0) && ltb n default_interval then short_interval ∷ [] else []

-- The warnings that the constructor logs.
unfoldable pub warnings : PollingConfig → List Warning
warnings o =
    (if truthy o.timeout then [] else no_timeout ∷ minimal_timeout ∷ [])
    ++ interval_warning o.interval

-- The constructor, which refuses a missing breakpoint.
unfoldable pub new_polling : PollingConfig → Option OnSeverity → Settled CreateError BasePolling
new_polling o none = rejected no_breakpoint
new_polling o (some b) =
    fulfilled (record { options = o; breakpoint = b; active = true; timer = false })

-- `DefaultPollingFactory.create`
unfoldable pub create_polling : PollingConfig → Text → Settled CreateError BasePolling
unfolding new_polling create
create_polling o type = new_polling o (create type)

unfoldable pub is_redundant : ScanStatus → Bool
is_redundant done = true
is_redundant stopped = true
is_redundant disrupted = true
is_redundant failed = true
is_redundant _ = false

-- The time that `delay` waits before a request.
unfoldable pub delay : BasePolling → ℕ
delay p = or_else p.options.interval default_interval

pub record Round : Type 0 where
  pub status : ℕ → Settled NetworkError ScanState
  pub expires : Bool

-- How `start` ends. `pending` means that it has not.
pub data Ended : Type 0 where
  pending completed : Ended
  broke : BreakpointException → Ended
  failed_with : NetworkError → Ended

-- What has happened: the poller, the states handed to the breakpoint, the times waited, the end.
pub record Trace : Type 0 where
  pub polling : BasePolling
  pub examined : List ScanState
  pub waited : List ℕ
  pub ended : Ended

-- The callback of the timeout.
abbrev pub expire : Bool → BasePolling → BasePolling
expire e p = if e && p.timer then record p { active = false } else p

abbrev pub end_here : BasePolling → Ended → Trace
end_here p e = record { polling = p; examined = []; waited = []; ended = e }

abbrev pub after_wait : ℕ → Trace → Trace
after_wait ms t = record t { waited = ms ∷ t.waited }

abbrev examine : ScanState → Trace → Trace
examine s t = record t { examined = s ∷ t.examined }

-- How the status request of a round settles after its retries.
unfoldable pub settle : Round → Option (Settled NetworkError ScanState)
unfolding request_with_backoff
settle r = elim (request_with_backoff r.status) [ none ↦ none | some run ↦ some run.outcome ]

-- The body of `for await` on a state, and what follows if the breakpoint does not throw.
abbrev visit : BasePolling → ScanState → Trace → Trace
visit p s rest =
    if is_redundant s.status then end_here p completed else elim (execute p.breakpoint s) [
      | rejected e ↦ examine s (end_here p (broke e))
      | fulfilled _ ↦ examine s rest
    ]

abbrev pub react : BasePolling → Option (Settled NetworkError ScanState) → Trace → Trace
react p none rest = end_here p pending
react p (some (rejected e)) rest = end_here p (failed_with e)
react p (some (fulfilled s)) rest = visit p s rest

-- `for await (const x of this.poll()) await this.breakpoint.execute(x)`
unfoldable pub poll : BasePolling → List Round → Trace
unfolding delay
poll p [] = end_here p (if p.active then pending else completed)
poll p (r ∷ rs) =
    let p' = expire r.expires p in
    let rest = poll p' rs in
    if p.active then after_wait (delay p) (react p' (settle r) rest) else end_here p completed

-- `stop`, run by `finally` when the loop has ended
unfoldable pub stop : BasePolling → BasePolling
stop p = record p { active = false; timer = false }

abbrev pub finally_stop : Ended → Trace → Trace
finally_stop pending t = t
finally_stop _ t = record t { polling = stop t.polling }

unfoldable pub start : BasePolling → List Round → Trace
unfolding poll stop
start p rs =
    let armed : BasePolling = if truthy p.options.timeout then record p { timer = true } else p in
    let t = poll armed rs in finally_stop t.ended t
