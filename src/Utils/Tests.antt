-- ===== src/Utils/Tests.antt =====
-- The theorems on Utils at concrete inputs, and tests of the definitions.
use bright_cli.Prelude.{
  join, ◌↔◌, ℕ, zero, suc, ◌≤◌, ◌<◌, ◌≡◌, refl, true, false, none, some, [], ◌∷◌, codes, text_eq,
  length, arith, All, Text, List,
}
use bright_cli.Utils.ShellArgument.{escape_shell_argument}
use bright_cli.Utils.ShellArgument.RoundTrip.{
  read_command_line, read_command_line-escape_shell_argument,
}
use bright_cli.Utils.Chunks.{split, chunks, split-eq-chunks}
use bright_cli.Utils.Pool.{call_fulfilled, call_rejected, loop_resumes, pool}
use bright_cli.Utils.Pool.Bounds.{IsWithin, pool-IsWithin}
use bright_cli.Utils.Wildcard.{
  wildcard_test, wildcard_to_reg_exp, reg_exp_test, parse_reg_exp, matches, is_syntax,
}
use bright_cli.Utils.Wildcard.Globs.{Globs}
use bright_cli.Utils.Wildcard.Laws.{wildcard_test_iff}
use bright_cli.Utils.Backoff.{
  Settled, fulfilled, rejected, Run, NetworkError, is_transient, default_backoff,
  request_with_backoff,
}
use bright_cli.Utils.Backoff.Laws.{IsRetryRun}
use bright_cli.Utils.Backoff.Requests.{request_with_backoff_lem, request_waits, IsPolite}

abbrev reset : NetworkError
reset = record { is_axios_error = false; status = none; error_code = some (codes "ECONNRESET") }

abbrev flaky : ℕ → Settled NetworkError ℕ
flaky zero = rejected reset
flaky (suc zero) = rejected reset
flaky (suc (suc n)) = fulfilled 7

reset-is_transient : is_transient reset ≡ true
unfolding is_transient text_eq
reset-is_transient = refl

abbrev flaky_run : Run NetworkError ℕ
flaky_run = record {
  outcome = fulfilled 7;
  delays = 1000 ∷ 1000 ∷ [];
  backoff = record { depth = 2; max_depth = 20 };
}

flaky_runs : request_with_backoff flaky ≡ some flaky_run
unfolding request_with_backoff text_eq
flaky_runs = refl

request_with_backoff_lem_example :
    (r : Run NetworkError ℕ) × (request_with_backoff flaky ≡ some r)
    × IsRetryRun is_transient flaky default_backoff 0 r
request_with_backoff_lem_example = request_with_backoff_lem flaky

flaky_before :
    (j : ℕ) → j < 2 → (e : NetworkError) × (flaky j ≡ rejected e) × (is_transient e ≡ true)
flaky_before zero h = (reset, refl, reset-is_transient)
flaky_before (suc zero) h = (reset, refl, reset-is_transient)
flaky_before (suc (suc j)) h = absurd (omega arith)

request_waits_example : (length flaky_run.delays ≤ 20) × All IsPolite flaky_run.delays
request_waits_example = request_waits flaky flaky_run flaky_runs

dotted_wildcard : wildcard_test (codes "*.a.com") (codes "x.a.com") ≡ true
unfolding wildcard_test wildcard_to_reg_exp reg_exp_test parse_reg_exp matches join is_syntax
dotted_wildcard = refl

dot_is_literal : wildcard_test (codes "a.com") (codes "abcom") ≡ false
unfolding wildcard_test wildcard_to_reg_exp reg_exp_test parse_reg_exp matches join is_syntax
dot_is_literal = refl

wildcard_test_iff_example :
    (wildcard_test (codes "*.a.com") (codes "x.a.com") ≡ true)
    ↔ Globs (codes "*.a.com") (codes "x.a.com")
wildcard_test_iff_example = wildcard_test_iff (codes "*.a.com") (codes "x.a.com")

abbrev argument : Text
argument = codes "a\"b\\ &"

read_command_line-escape_shell_argument_example :
    read_command_line (escape_shell_argument argument) ≡ some argument
read_command_line-escape_shell_argument_example = read_command_line-escape_shell_argument argument

abbrev items : List ℕ
items = 5 ∷ 6 ∷ 7 ∷ []

split-eq-chunks_example : split items 2 ≡ chunks 3 1 items
split-eq-chunks_example = split-eq-chunks items 1

chunks_of_two : chunks 3 1 items ≡ (5 ∷ 6 ∷ []) ∷ (7 ∷ []) ∷ []
unfolding chunks
chunks_of_two = refl

pool-IsWithin_example :
    IsWithin 2 items (pool 2 items (call_fulfilled 0 ∷ loop_resumes ∷ call_rejected 1 ∷ []))
pool-IsWithin_example =
    pool-IsWithin 2 items (call_fulfilled 0 ∷ loop_resumes ∷ call_rejected 1 ∷ [])
