-- ===== src/Scan/Breakpoint/Laws.antt =====
-- What a breakpoint breaks on, by the order of the severities.
use bright_cli.Prelude.{
  ℕ, ◌≤◌, ◌<◌, ◌≡◌, ◌↔◌, some, true, Text, codes, arith, List, [], ◌∷◌, All, any, ltb, ltb→lt,
  Bool-cases, inl, inr, Assoc, lookup,
}
use bright_cli.Scan.Severity.{
  Severity, medium, high, low, critical, ScanState, issue_count, severity_ranges, severity_values,
}
use bright_cli.Scan.Breakpoint.{OnSeverity, on_severity, is_excepted, create}

abbrev pub rank : Severity → ℕ
rank low = 0
rank medium = 1
rank high = 2
rank critical = 3

-- Some issue of the severity `least` or above has been found.
abbrev pub HasIssue : Severity → ScanState → Type 0
HasIssue least stats = (s : Severity) × (rank least ≤ rank s) × (0 < issue_count stats s)

any→HasIssue :
    (least : Severity) (stats : ScanState) (xs : List Severity)
    → All (λ s. rank least ≤ rank s) xs
    → any (λ s. ltb 0 (issue_count stats s)) xs ≡ true
    → HasIssue least stats
any→HasIssue least stats [] h e = cc
any→HasIssue least stats (s ∷ xs) (le, h) e = elim (Bool-cases (ltb 0 (issue_count stats s))) [
  | inl found ↦ (s, le, ltb→lt 0 (issue_count stats s) found)
  | inr other ↦ any→HasIssue least stats xs h (ground arith)
]

excepted→HasIssue :
    (least : Severity) (stats : ScanState)
    → is_excepted (on_severity least) stats ≡ true
    → HasIssue least stats
unfolding is_excepted on_severity severity_ranges
excepted→HasIssue critical stats h = any→HasIssue critical stats (critical ∷ []) (omega arith) h
excepted→HasIssue high stats h = any→HasIssue high stats (high ∷ critical ∷ []) (omega arith) h
excepted→HasIssue medium stats h =
    any→HasIssue medium stats (medium ∷ high ∷ critical ∷ []) (omega arith) h
excepted→HasIssue low stats h = any→HasIssue low stats severity_values (omega arith) h

HasIssue→excepted :
    (least s : Severity) (stats : ScanState)
    → rank least ≤ rank s
    → 0 < issue_count stats s
    → is_excepted (on_severity least) stats ≡ true
unfolding is_excepted on_severity severity_ranges
HasIssue→excepted least s stats h k = ground arith

-- The smallest severity that each type of breakpoint is about.
abbrev pub thresholds : Assoc Severity
thresholds =
    (codes "any", low)
    ∷ (codes "high_issue", high)
    ∷ (codes "medium_issue", medium)
    ∷ (codes "critical_issue", critical)
    ∷ []

create-on_severity :
    (type : Text) (b : OnSeverity)
    → create type ≡ some b
    → (b ≡ on_severity b.severity) × (lookup type thresholds ≡ some b.severity)
unfolding create lookup
create-on_severity type b h = ground arith

-- The breakpoint that the factory makes for a type breaks exactly when the scan has an issue of
-- the type's severity or of a higher one.
pub create-is_excepted :
    (type : Text) (b : OnSeverity) (stats : ScanState)
    → create type ≡ some b
    → (least : Severity) × (lookup type thresholds ≡ some least)
      × ((is_excepted b stats ≡ true) ↔ HasIssue least stats)
unfolding on_severity
create-is_excepted type b stats h =
    let (same, found) = create-on_severity type b h in
    (
      b.severity,
      found,
      rw same (
          (
            excepted→HasIssue b.severity stats,
            λ (s, le, lt). HasIssue→excepted b.severity s stats le lt,
          )),
    )
