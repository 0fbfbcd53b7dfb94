-- ===== src/Commands/PollingScanStatus.antt =====
-- The handler of src/Commands/PollingScanStatus.ts: the polling of a scan and the code that the process
-- exits with.
pub mod Exit
use bright_cli.Prelude.{ℕ, Option, none, some, List, Text}
use bright_cli.Utils.Backoff.{Settled, fulfilled, rejected}
use bright_cli.Scan.Polling.{
  BasePolling, CreateError, Ended, PollingConfig, Round, broke, completed, create_polling,
  failed_with, pending, start,
}

-- The code of an end; a polling that waits has none.
unfoldable pub polling_exit_code : Ended → Option ℕ
polling_exit_code pending = none
polling_exit_code completed = some 0
polling_exit_code (broke e) = some 50
polling_exit_code (failed_with e) = some 1

abbrev pub exit_after : List Round → Settled CreateError BasePolling → Option ℕ
exit_after rounds (rejected e) = some 1
exit_after rounds (fulfilled polling) = polling_exit_code (start polling rounds).ended

-- `handler`, with the rounds of the scan
unfoldable pub polling_scan_status : PollingConfig → Text → List Round → Option ℕ
polling_scan_status options breakpoint rounds =
    exit_after rounds (create_polling options breakpoint)
