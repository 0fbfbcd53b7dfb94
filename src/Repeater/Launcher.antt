-- ===== src/Repeater/Launcher.antt =====
-- src/Repeater/ServerRepeaterLauncher.ts over the server's emitter: `run`, `close`, and the handlers
-- that `subscribeToEvents` registers, each wrapped by `wrapEventListener` of
-- src/Repeater/DefaultRepeaterServer.ts, with `sendRequest` and `compileScripts` of
-- src/Repeater/DefaultRepeaterCommandHub.ts. The manager of daemons settles at once. The executors,
-- the parser of URLs, the compiler of scripts and the network diagnostic are parameters or inputs.
pub mod Closing
pub mod LocalScripts
mod Tests
use bright_cli.Prelude.{
  ℕ, zero, suc, ◌+◌, Bool, true, false, not, Option, none, some, List, [], ◌∷◌, ◌++◌, Text, or_else,
  if◌then◌else◌, ◌==◌, ◌⊎◌, inl, inr,
}
use bright_cli.Repeater.Server.{
  ErrorCode, not_permitted, already_started, deactivated, unauthorized, no_longer_supported,
  unknown_error, unexpected_error,
}
use bright_cli.Scripts.{local, Store, Outcome, Sent, ScriptError, size, count, compile_scripts}
use bright_cli.RequestExecutor.Options.{Protocol, Request, Response}
use bright_cli.RequestExecutor.Request.{RequestOptions, RequestError, new_request}

-- What the runtime of a deployment says of scripts; its other fields come from the platform.
pub record Runtime : Type 0 where
  pub scripts_loaded : Bool
  pub local_scripts_loaded : Bool

pub data RepeaterEvent : Type 0 where
  connected : RepeaterEvent
  error : ErrorCode → Text → Option Text → RepeaterEvent
  reconnection_failed : Text → RepeaterEvent
  request : RequestOptions → RepeaterEvent
  limits : Option ℕ → RepeaterEvent
  -- with the output of the diagnostic, or the message of its error
  test_network : Text ⊎ Text → RepeaterEvent
  scripts_updated : Sent → RepeaterEvent
  update_available : Text → RepeaterEvent
  reconnect_attempt : ℕ → RepeaterEvent
  reconnection_succeeded : RepeaterEvent

-- What the launcher does: calls of the server, answers to its events, and error lines.
pub data LauncherAction : Type 0 where
  connect : Text → LauncherAction
  disconnect : LauncherAction
  deploy : Option Text → Runtime → LauncherAction
  respond : Response → LauncherAction
  respond_test : Text ⊎ Text → LauncherAction
  log_error : Text → LauncherAction
  log_critical : Text → Text → LauncherAction
  handler_failed : LauncherAction

-- `listeners` counts how often `subscribeToEvents` has registered the handlers.
pub record Launcher : Type 0 where
  pub running : Bool
  pub repeater_id : Option Text
  pub listeners : ℕ
  pub scripts : Store
  pub max_body_size : Option ℕ
  pub exit_code : Option ℕ

unfoldable pub new_launcher : Store → Launcher
new_launcher scripts = record {
  running = false;
  repeater_id = none;
  listeners = 0;
  scripts = scripts;
  max_body_size = none;
  exit_code = none;
}

-- `close`; `disconnect` removes all listeners.
unfoldable pub close : Launcher → Launcher × List LauncherAction
close s = (record s { running = false; listeners = 0 }, disconnect ∷ [])

-- `run`
unfoldable pub run : Text → Launcher → Launcher × List LauncherAction
run id s = if s.running then (s, []) else (
  record s { running = true; repeater_id = some id; listeners = s.listeners + 1 },
  connect id ∷ [],
)

-- `getRuntime`
unfoldable pub get_runtime : Store → Runtime
get_runtime scripts = record {
  scripts_loaded = not (size scripts == 0);
  local_scripts_loaded = not (count local scripts == 0);
}

unfoldable pub is_critical_error : ErrorCode → Bool
is_critical_error unknown_error = false
is_critical_error _ = true

-- `message.replace(/\.$/, '')`
unfoldable pub normalize_message : Text → Text
normalize_message [] = []
normalize_message (c ∷ []) = if c == b'.' then [] else c ∷ []
normalize_message (c ∷ d ∷ s) = c ∷ normalize_message (d ∷ s)

-- `handleError` with `handleCriticalError`
unfoldable pub handle_error :
    ErrorCode → Text → Option Text → Launcher → Launcher × List LauncherAction
unfolding close
handle_error code message remediation s =
    if is_critical_error code
    then (
      record (close s).0 { exit_code = some 1 },
      log_critical (normalize_message message) (normalize_message (or_else remediation []))
          ∷ (close s).1,
    )
    else (s, log_error (normalize_message message) ∷ [])

-- `reconnectionFailed`
unfoldable pub handle_reconnection_failed : Text → Launcher → Launcher × List LauncherAction
unfolding close
handle_reconnection_failed message s =
    (record (close s).0 { exit_code = some 1 }, log_error message ∷ (close s).1)

abbrev failed_or_done : Option ScriptError → List LauncherAction
failed_or_done none = []
failed_or_done (some e) = handler_failed ∷ []

module _ (compiles : Text → Bool) (is_url : Text → Bool)
    (executors : Protocol → Option (Request → Response)) where
  -- `sendRequest`; no executor for the protocol is an error.
  unfoldable pub send_request : Request → List LauncherAction
  send_request r = elim (executors r.protocol) [
    | none ↦ handler_failed ∷ []
    | some execute ↦ respond (execute r) ∷ []
  ]

  -- `requestReceived`
  unfoldable pub request_received : RequestOptions → List LauncherAction
  unfolding send_request
  request_received o = elim (new_request is_url o) [
    | inl r ↦ send_request r
    | inr e ↦ handler_failed ∷ []
  ]

  -- The handler of an event.
  unfoldable pub handle_event : RepeaterEvent → Launcher → Launcher × List LauncherAction
  unfolding handle_error handle_reconnection_failed
  handle_event connected s = (s, deploy s.repeater_id (get_runtime s.scripts) ∷ [])
  handle_event (error code message remediation) s = handle_error code message remediation s
  handle_event (reconnection_failed message) s = handle_reconnection_failed message s
  handle_event (request o) s = (s, request_received o)
  handle_event (limits bytes) s = (record s { max_body_size = bytes }, [])
  handle_event (test_network result) s = (s, respond_test result ∷ [])
  handle_event (scripts_updated sent) s =
      let (scripts, thrown) = compile_scripts compiles sent s.scripts in
      (record s { scripts = scripts }, failed_or_done thrown)
  handle_event (update_available version) s = (s, [])
  handle_event (reconnect_attempt attempt) s = (s, [])
  handle_event reconnection_succeeded s = (s, [])

  -- `emit`: the handler runs once for each registration.
  unfoldable pub emit : ℕ → RepeaterEvent → Launcher → Launcher × List LauncherAction
  emit zero e s = (s, [])
  emit (suc n) e s =
      let (t, actions) = handle_event e s in let (u, more) = emit n e t in (u, actions ++ more)

  unfoldable pub on_server : RepeaterEvent → Launcher → Launcher × List LauncherAction
  unfolding emit
  on_server e s = emit s.listeners e s

  -- The server's events one after the other.
  unfoldable pub on_server_all : List RepeaterEvent → Launcher → Launcher × List LauncherAction
  on_server_all [] s = (s, [])
  on_server_all (e ∷ es) s =
      let (t, actions) = on_server e s in let (u, more) = on_server_all es t in (u, actions ++ more)

-- Calls of the launcher, between the events of the server.
pub data Call : Type 0 where
  run_call : Text → Call
  close_call : Call
  server : RepeaterEvent → Call

module _ (compiles : Text → Bool) (is_url : Text → Bool)
    (executors : Protocol → Option (Request → Response)) where
  unfoldable pub perform : Call → Launcher → Launcher × List LauncherAction
  unfolding run close
  perform (run_call id) s = run id s
  perform close_call s = close s
  perform (server e) s = on_server compiles is_url executors e s

  unfoldable pub perform_all : List Call → Launcher → Launcher
  perform_all [] s = s
  perform_all (c ∷ calls) s = perform_all calls (perform c s).0
