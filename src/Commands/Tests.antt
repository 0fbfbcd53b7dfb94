-- ===== src/Commands/Tests.antt =====
-- The theorems of the commands at concrete inputs, and tests of the definitions.
use bright_cli.Prelude.{
  distinct, Option, includes, All, ◌≡◌, ◌↔◌, ◌&&◌, Bool, refl, true, false, none, some, [], ◌∷◌,
  List, Text, codes, join, lookup, text_eq, is_space,
}
use bright_cli.Utils.Backoff.{fulfilled}
use bright_cli.Scan.Severity.{Severity, ScanState, running}
use bright_cli.Scan.Breakpoint.{create, is_excepted, execute}
use bright_cli.Scan.Breakpoint.Laws.{HasIssue, thresholds}
use bright_cli.Scan.Polling.{
  PollingConfig, Round, create_polling, new_polling, is_redundant, poll, settle, start, delay, stop,
}
use bright_cli.Commands.PollingScanStatus.{polling_exit_code, polling_scan_status}
use bright_cli.Commands.PollingScanStatus.Exit.{IsReported, polling_scan_status-exceeded}
use bright_cli.Scan.Config.{RequestExclusion}
use bright_cli.Commands.RunScan.{
  PartialExclusion, exclude_each, exclude_entry_point, parse_exclusions, syntax_error,
}
use bright_cli.Commands.RunScan.Exclusions.{IsExclusion, exclude_entry_point-AreExclusions}
use bright_cli.Commands.RunRepeater.{coerce_proxy_domains, coerce_proxy_domains_bypass}
use bright_cli.Commands.RunRepeater.Handler.{
  HandlerArguments, LauncherCall, load_certs_fails, load_scripts, repeater_handler,
  repeater_handler-runs, runs,
}
use bright_cli.Commands.RunRepeater.Domains.{coerce_proxy_domains-join}

abbrev local_domain : Text
local_domain = codes "a.local"

abbrev other_domain : Text
other_domain = codes "b.local"

coerce_proxy_domains-join_example :
    (coerce_proxy_domains (some (join (32 ∷ []) (local_domain ∷ other_domain ∷ []) ∷ []))
      ≡ coerce_proxy_domains (some (local_domain ∷ other_domain ∷ [])))
    × (coerce_proxy_domains_bypass (some (join (32 ∷ []) (local_domain ∷ other_domain ∷ []) ∷ []))
        ≡ coerce_proxy_domains_bypass (some (local_domain ∷ other_domain ∷ [])))
unfolding is_space
coerce_proxy_domains-join_example =
    coerce_proxy_domains-join local_domain (other_domain ∷ []) ((refl, refl), ((refl, refl), tt))

abbrev critical_state : ScanState
critical_state = record {
  status = running;
  low_issues = 0;
  medium_issues = 0;
  high_issues = 0;
  critical_issues = 1;
}

abbrev options : PollingConfig
options = record { timeout = some 600000; interval = none }

abbrev rounds : List Round
rounds = record { status = λ n. fulfilled critical_state; expires = false } ∷ []

exceeded : polling_scan_status options (codes "high_issue") rounds ≡ some 50
unfolding polling_scan_status create_polling new_polling create text_eq start poll settle
    is_redundant execute is_excepted polling_exit_code stop delay
exceeded = refl

polling_scan_status-exceeded_example :
    (least : Severity) × (s : ScanState) × (lookup (codes "high_issue") thresholds ≡ some least)
    × IsReported rounds s
    × (is_redundant s.status ≡ false)
    × HasIssue least s
polling_scan_status-exceeded_example =
    polling_scan_status-exceeded options (codes "high_issue") rounds exceeded

abbrev handler_arguments : HandlerArguments
handler_arguments = record {
  cacert = some (some (codes "ca.pem"));
  scripts = true;
  remove = false;
  daemon = false;
}

abbrev none_fails : LauncherCall → Bool
none_fails call = false

repeater_handler-runs_example : (runs (repeater_handler none_fails handler_arguments).0 ≡ true) ↔ (
    (handler_arguments.remove ≡ false)
    × (handler_arguments.daemon ≡ false)
    × (load_certs_fails none_fails handler_arguments.cacert ≡ false)
    × (handler_arguments.scripts && none_fails load_scripts ≡ false))
repeater_handler-runs_example = repeater_handler-runs none_fails handler_arguments

abbrev read_exclusion : Text → Option PartialExclusion
read_exclusion [] = none
read_exclusion (c ∷ s) =
    some (record { methods = none; patterns = some ((c ∷ s) ∷ [] ∷ (c ∷ s) ∷ []) })

abbrev exclusion : RequestExclusion
exclusion = record { methods = []; patterns = codes "/a$" ∷ [] }

exclude_entry_point-AreExclusions_example : All IsExclusion (exclusion ∷ [])
unfolding exclude_entry_point parse_exclusions exclude_each distinct includes text_eq
exclude_entry_point-AreExclusions_example =
    exclude_entry_point-AreExclusions read_exclusion (codes "/a$" ∷ []) (exclusion ∷ []) refl

-- The empty text of the help is no JSON.
empty_exclusion : exclude_entry_point read_exclusion ([] ∷ []) ≡ syntax_error
unfolding exclude_entry_point parse_exclusions
empty_exclusion = refl
