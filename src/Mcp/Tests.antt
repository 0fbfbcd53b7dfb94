-- ===== src/Mcp/Tests.antt =====
-- The theorems of the repeater's tools at concrete inputs, and tests of the definitions.
use bright_cli.Prelude.{
  distinct, ◌≡◌, refl, false, none, some, [], ◌∷◌, codes, List, Text, starts_with,
}
use bright_cli.Mcp.Redaction.{
  RunInput, args_with, build_args, collect_sensitive_values, redact_with, resolve_token,
}
use bright_cli.Mcp.Redaction.Contains.{contains, no_bracket}
use bright_cli.Mcp.Redaction.Token.{redact_with-token}
use bright_cli.Mcp.Processes.{no_processes}
use bright_cli.Mcp.RepeaterTools.{
  ToolEvent, child_exited, child_failed, handle_tools, run_called, startup_over, stop_all_called,
}
use bright_cli.Mcp.RepeaterTools.Entries.{IsRegistered}
use bright_cli.Mcp.RepeaterTools.Registered.{handle_tools-IsRegistered}

abbrev input : RunInput
input = record { id = codes "r1"; hostname = some (codes "app.example") }

abbrev api_token : Text
api_token = codes "key=1"

abbrev message : Text
message = codes "spawn --token key=1 --id r1"

redact_with-token_example :
    contains
      (redact_with (distinct [] (collect_sensitive_values (args_with input api_token))) message)
      api_token
    ≡ false
unfolding resolve_token build_args no_bracket contains starts_with
redact_with-token_example =
    redact_with-token input (some api_token) none api_token message (args_with input api_token) refl
      refl (refl, refl, refl)

abbrev calls : List ToolEvent
calls =
    run_called 10 input (some api_token) none
    ∷ child_failed 0 message
    ∷ child_exited 0 20 (some 1)
    ∷ run_called 30 input none (some api_token)
    ∷ startup_over 0
    ∷ stop_all_called
    ∷ []

handle_tools-IsRegistered_example : IsRegistered (handle_tools calls no_processes)
handle_tools-IsRegistered_example = handle_tools-IsRegistered calls
