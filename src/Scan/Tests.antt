-- ===== src/Scan/Tests.antt =====
-- The scan's theorems at concrete inputs, and tests of the definitions.
use bright_cli.Prelude.{
  ◌≡◌, refl, ◌↔◌, true, false, none, some, [], ◌∷◌, codes, text_eq, lookup, ◌||◌,
}
use bright_cli.Utils.Backoff.{fulfilled, rejected, NetworkError}
use bright_cli.Scan.Severity.{Severity, high, ScanState, running}
use bright_cli.Scan.Breakpoint.{OnSeverity, create, is_excepted}
use bright_cli.Scan.Breakpoint.Laws.{HasIssue, thresholds, create-is_excepted}
use bright_cli.Scan.Polling.{PollingConfig, Round, failed_with, start, settle, is_redundant}
use bright_cli.Scan.Polling.Laws.{
  AreQuiet, IsQuiet, fresh, verdict, examined_last, start_ends, start_fails,
}

abbrev state : ScanState
state = record {
  status = running;
  low_issues = 4;
  medium_issues = 1;
  high_issues = 0;
  critical_issues = 0;
}

abbrev bad_state : ScanState
bad_state = record state { critical_issues = 1 }

abbrev on_high : OnSeverity
on_high = record { severity = high; break_severities = high ∷ Severity.critical ∷ [] }

abbrev minutes : PollingConfig
minutes = record { timeout = some 600000; interval = none }

abbrev answer : ScanState → Round
answer s = record { status = λ n. fulfilled s; expires = false }

abbrev refusal : NetworkError
refusal = record { is_axios_error = true; status = some 401; error_code = none }

create_high : create (codes "high_issue") ≡ some on_high
unfolding create text_eq
create_high = refl

create-is_excepted_example :
    (least : Severity) × (lookup (codes "high_issue") thresholds ≡ some least)
    × ((is_excepted on_high bad_state ≡ true) ↔ HasIssue least bad_state)
create-is_excepted_example = create-is_excepted (codes "high_issue") on_high bad_state create_high

answers : (s : ScanState) → settle (answer s) ≡ some (fulfilled s)
unfolding settle
answers s = refl

state-IsQuiet : IsQuiet on_high state
unfolding is_redundant is_excepted
state-IsQuiet = (refl, refl)

quiet_round : AreQuiet on_high true (answer state ∷ []) (state ∷ [])
quiet_round = ((answers state, refl), state-IsQuiet, tt)

trips : is_redundant bad_state.status || is_excepted on_high bad_state ≡ true
unfolding is_redundant is_excepted
trips = refl

start_ends_example :
    let t = start (fresh minutes on_high) (answer state ∷ answer bad_state ∷ []) in
    (t.ended ≡ verdict on_high bad_state)
    × (t.examined ≡ state ∷ examined_last bad_state)
    × (t.polling.active ≡ false)
    × (t.polling.timer ≡ false)
start_ends_example =
    start_ends minutes on_high (answer state ∷ []) (state ∷ []) quiet_round (answer bad_state) []
      bad_state (answers bad_state) trips

abbrev late : Round
late = record (answer state) { expires = true }

late_answers : settle late ≡ some (fulfilled state)
unfolding settle
late_answers = refl

abbrev denied : Round
denied = record { status = λ n. rejected refusal; expires = false }

denied_fails : settle denied ≡ some (rejected refusal)
unfolding settle
denied_fails = refl

start_fails_example :
    let t = start (fresh minutes on_high) (answer state ∷ denied ∷ []) in
    (t.ended ≡ failed_with refusal)
    × (t.examined ≡ state ∷ [])
    × (t.polling.active ≡ false)
    × (t.polling.timer ≡ false)
start_fails_example =
    start_fails minutes on_high (answer state ∷ []) (state ∷ []) quiet_round denied [] refusal
      denied_fails
