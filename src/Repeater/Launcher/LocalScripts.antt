-- ===== src/Repeater/Launcher/LocalScripts.antt =====
-- The scripts of the repeater through its whole life: nothing that the service sends touches local
-- scripts, and its own never join them.
use bright_cli.Prelude.{
  ℕ, zero, suc, ◌≡◌, ◌≢◌, refl, ap, ◌∙◌, Bool, Option, List, [], ◌∷◌, Text, arith, ◌⊎◌, inl,
}
use bright_cli.Repeater.Server.{ErrorCode}
use bright_cli.Scripts.{local, remote, Store, Sent, compile_scripts}
use bright_cli.Scripts.Store.{IsKeyed}
use bright_cli.Scripts.Laws.{AllOf, locals, compile_keeps_local, compile_unmixed}
use bright_cli.RequestExecutor.Options.{Protocol, Request, Response}
use bright_cli.Repeater.Launcher.{
  RepeaterEvent, connected, error, reconnection_failed, request, limits, test_network,
  scripts_updated, update_available, reconnect_attempt, reconnection_succeeded, Launcher,
  new_launcher, close, run, handle_error, handle_reconnection_failed, handle_event, emit, on_server,
  Call, run_call, close_call, server, perform, perform_all,
}

module _ (compiles : Text → Bool) (is_url : Text → Bool)
    (executors : Protocol → Option (Request → Response)) where
  handle_error-scripts :
      (code : ErrorCode) (message : Text) (remediation : Option Text) (s : Launcher)
      → (handle_error code message remediation s).0.scripts ≡ s.scripts
  unfolding handle_error close
  handle_error-scripts code message remediation s = ground arith

  run-scripts : (id : Text) (s : Launcher) → (run id s).0.scripts ≡ s.scripts
  unfolding run
  run-scripts id s = ground arith

  -- What holds of the scripts, and what an update from the service keeps, holds always.
  module _ (P : Store → Type 0)
      (keeps : (sent : Sent) (scripts : Store)
        → P scripts
        → P (compile_scripts compiles sent scripts).0) where
    handle_event-keeps :
        (e : RepeaterEvent) (s : Launcher)
        → P s.scripts
        → P (handle_event compiles is_url executors e s).0.scripts
    unfolding handle_event handle_reconnection_failed close
    handle_event-keeps connected s h = h
    handle_event-keeps (error code message remediation) s h =
        rw (handle_error-scripts code message remediation s) h
    handle_event-keeps (reconnection_failed message) s h = h
    handle_event-keeps (request o) s h = h
    handle_event-keeps (limits bytes) s h = h
    handle_event-keeps (test_network result) s h = h
    handle_event-keeps (scripts_updated sent) s h = keeps sent s.scripts h
    handle_event-keeps (update_available version) s h = h
    handle_event-keeps (reconnect_attempt attempt) s h = h
    handle_event-keeps reconnection_succeeded s h = h

    emit-keeps :
        (n : ℕ) (e : RepeaterEvent) (s : Launcher)
        → P s.scripts
        → P (emit compiles is_url executors n e s).0.scripts
    unfolding emit
    emit-keeps zero e s h = h
    emit-keeps (suc n) e s h =
        emit-keeps n e (handle_event compiles is_url executors e s).0 (handle_event-keeps e s h)

    perform-keeps :
        (c : Call) (s : Launcher)
        → P s.scripts
        → P (perform compiles is_url executors c s).0.scripts
    unfolding perform close on_server
    perform-keeps (run_call id) s h = rw (run-scripts id s) h
    perform-keeps close_call s h = h
    perform-keeps (server e) s h = emit-keeps s.listeners e s h

    perform_all-keeps :
        (calls : List Call) (s : Launcher)
        → P s.scripts
        → P (perform_all compiles is_url executors calls s).scripts
    unfolding perform_all
    perform_all-keeps [] s h = h
    perform_all-keeps (c ∷ calls) s h =
        perform_all-keeps calls (perform compiles is_url executors c s).0 (perform-keeps c s h)

  locals_lem : (scripts : Store) → AllOf local scripts → locals scripts ≡ scripts
  locals_lem [] h = refl
  locals_lem ((k, x) ∷ scripts) (type, h) = ground (arith, locals_lem scripts h)

  -- Scripts that a user has loaded, keyed by their ids and all local, stay as they are, whatever
  -- calls and events follow.
  pub local_scripts_stay :
      (scripts : Store) (calls : List Call)
      → IsKeyed scripts
      → AllOf local scripts
      → scripts ≢ []
      → (perform_all compiles is_url executors calls (new_launcher scripts)).scripts ≡ scripts
  unfolding new_launcher
  local_scripts_stay scripts calls keyed all_local loaded =
      perform_all-keeps (λ now. now ≡ scripts) keeps calls (new_launcher scripts) refl
    where
      keeps :
          (sent : Sent) (now : Store)
          → now ≡ scripts
          → (compile_scripts compiles sent now).0 ≡ scripts
      keeps sent now same = rw same (
          ap (λ r. r.0)
            (compile_keeps_local compiles sent scripts keyed
              (rw (locals_lem scripts all_local) loaded))
          ∙ locals_lem scripts all_local)

  -- From no scripts on, the store is well formed after any calls and events, and its scripts are
  -- all local or all from the service.
  pub scripts_unmixed :
      (calls : List Call)
      → let scripts = (perform_all compiles is_url executors calls (new_launcher [])).scripts in
        IsKeyed scripts × (AllOf local scripts ⊎ AllOf remote scripts)
  unfolding new_launcher
  scripts_unmixed calls =
      perform_all-keeps (λ now. IsKeyed now × (AllOf local now ⊎ AllOf remote now))
        (λ sent now h. compile_unmixed compiles sent now h.0) calls (new_launcher []) (tt, inl tt)
