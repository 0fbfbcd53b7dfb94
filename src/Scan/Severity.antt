-- ===== src/Scan/Severity.antt =====
-- src/Scan/Severity.ts, and the statuses and issue counts of src/Scan/Scans.ts
use bright_cli.Prelude.{ℕ, Option, some, List, [], ◌∷◌}

-- The constructors stand in the order of `Object.values(Severity)`.
pub data Severity : Type 0 where
  medium high low critical : Severity

abbrev pub severity_values : List Severity
severity_values = medium ∷ high ∷ low ∷ critical ∷ []

-- `severityRanges.get(severity)`
unfoldable pub severity_ranges : Severity → Option (List Severity)
severity_ranges critical = some (critical ∷ [])
severity_ranges high = some (high ∷ critical ∷ [])
severity_ranges medium = some (medium ∷ high ∷ critical ∷ [])
severity_ranges low = some severity_values

pub data ScanStatus : Type 0 where
  running pending stopped failed done disrupted scheduled queued : ScanStatus

pub record ScanState : Type 0 where
  pub status : ScanStatus
  pub low_issues : ℕ
  pub medium_issues : ℕ
  pub high_issues : ℕ
  pub critical_issues : ℕ

-- stats[`numberOf${severity}SeverityIssues`]
abbrev pub issue_count : ScanState → Severity → ℕ
issue_count s medium = s.medium_issues
issue_count s high = s.high_issues
issue_count s low = s.low_issues
issue_count s critical = s.critical_issues
