-- ===== src/Scan/Breakpoint.antt =====
-- src/Scan/Breakpoint.ts, src/Scan/Breakpoints/OnSeverity.ts and
-- src/Scan/DefaultBreakpointFactory.ts
pub mod Laws
use bright_cli.Prelude.{
  Bool, Option, none, some, List, [], Text, codes, text_eq, any, ltb, or_else, if◌then◌else◌,
}
use bright_cli.Utils.Backoff.{Settled, fulfilled, rejected}
use bright_cli.Scan.Severity.{
  Severity, medium, high, low, critical, ScanState, issue_count, severity_ranges,
}

pub record OnSeverity : Type 0 where
  pub severity : Severity
  pub break_severities : List Severity

-- `Bright CLI found a first ${severity} issue.`
pub record BreakpointException : Type 0 where
  pub found : Severity

-- The constructor.
unfoldable pub on_severity : Severity → OnSeverity
unfolding severity_ranges
on_severity s = record { severity = s; break_severities = or_else (severity_ranges s) [] }

unfoldable pub is_excepted : OnSeverity → ScanState → Bool
is_excepted b stats = any (λ s. ltb 0 (issue_count stats s)) b.break_severities

-- `Breakpoint.execute`, with `breakOn` of `OnSeverity`
unfoldable pub execute : OnSeverity → ScanState → Settled BreakpointException (Unit {0})
unfolding is_excepted
execute b stats =
    if is_excepted b stats then rejected (record { found = b.severity }) else fulfilled tt

-- `DefaultBreakpointFactory.create`; `none` is `null`
unfoldable pub create : Text → Option OnSeverity
unfolding on_severity
create type =
    if text_eq type (codes "any")
    then some (on_severity low)
    else if text_eq type (codes "high_issue")
    then some (on_severity high)
    else if text_eq type (codes "medium_issue")
    then some (on_severity medium)
    else if text_eq type (codes "critical_issue")
    then some (on_severity critical)
    else none
