-- ===== src/Repeater/Launcher/Tests.antt =====
-- The theorems on the launcher at concrete inputs.
use bright_cli.Prelude.{
  ◌≡◌, ◌≢◌, refl, Bool, true, false, Option, none, some, List, [], ◌∷◌, Text, codes,
}
use bright_cli.Repeater.Server.{deactivated}
use bright_cli.Scripts.{local, Store, one}
use bright_cli.RequestExecutor.Options.{Protocol, Request, Response}
use bright_cli.Repeater.Launcher.{
  RepeaterEvent, connected, error, limits, scripts_updated, log_critical, disconnect, new_launcher,
  run, on_server, handle_event, on_server_all, is_critical_error, normalize_message, Call, run_call,
  close_call, server, perform, perform_all,
}
use bright_cli.Repeater.Launcher.Closing.{critical_error_closes}
use bright_cli.Repeater.Launcher.LocalScripts.{local_scripts_stay}

abbrev any_text : Text → Bool
any_text t = true

abbrev no_executor : Protocol → Option (Request → Response)
no_executor protocol = none

abbrev calls : List Call
calls =
    run_call (codes "r")
    ∷ close_call
    ∷ run_call (codes "r")
    ∷ server connected
    ∷ server (scripts_updated (one (codes "x")))
    ∷ []

abbrev later : List RepeaterEvent
later = limits (some 5) ∷ connected ∷ []

runs : (perform_all any_text any_text no_executor calls (new_launcher [])).running ≡ true
unfolding perform_all perform run new_launcher on_server handle_event
runs = refl

critical : is_critical_error deactivated ≡ true
unfolding is_critical_error
critical = refl

critical_error_closes_example :
    let s = perform_all any_text any_text no_executor calls (new_launcher []) in
    let (t, actions) =
      on_server any_text any_text no_executor (error deactivated (codes "gone.") none) s in
    (t.running ≡ false)
    × (t.exit_code ≡ some 1)
    × (actions ≡ log_critical (codes "gone") [] ∷ disconnect ∷ [])
    × (on_server_all any_text any_text no_executor later t ≡ (t, []))
unfolding normalize_message
critical_error_closes_example =
    critical_error_closes any_text any_text no_executor [] calls deactivated (codes "gone.") none
      later runs critical

abbrev loaded : Store
loaded = (codes "*.a", record { id = codes "*.a"; type = local; source = codes "x" }) ∷ []

loaded-ne-nil : loaded ≢ []
loaded-ne-nil e = cc

local_scripts_stay_example :
    (perform_all any_text any_text no_executor calls (new_launcher loaded)).scripts ≡ loaded
local_scripts_stay_example =
    local_scripts_stay any_text any_text no_executor loaded calls (refl, tt, tt) (refl, tt)
      loaded-ne-nil
