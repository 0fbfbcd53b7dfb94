-- ===== src/Repeater/Launcher/Closing.antt =====
-- The launcher handles an event once while it runs, and none after it has closed.
use bright_cli.Prelude.{
  ℕ, zero, suc, ◌≡◌, refl, ap, ◌∙◌, Bool, true, false, Option, some, List, [], ◌∷◌, append-nil,
  Text, or_else, if◌then◌else◌, arith,
}
use bright_cli.Repeater.Server.{ErrorCode}
use bright_cli.Scripts.{Store}
use bright_cli.RequestExecutor.Options.{Protocol, Request, Response}
use bright_cli.Repeater.Launcher.{
  RepeaterEvent, connected, error, reconnection_failed, request, limits, test_network,
  scripts_updated, update_available, reconnect_attempt, reconnection_succeeded, disconnect,
  log_critical, Launcher, new_launcher, close, run, is_critical_error, normalize_message,
  handle_error, handle_reconnection_failed, handle_event, emit, on_server, on_server_all, Call,
  run_call, close_call, server, perform, perform_all,
}

-- The handlers are registered once while the launcher runs, and not otherwise.
abbrev pub IsRegistered : Launcher → Type 0
IsRegistered s = s.listeners ≡ (if s.running then 1 else 0)

module _ (compiles : Text → Bool) (is_url : Text → Bool)
    (executors : Protocol → Option (Request → Response)) where
  handle_event-IsRegistered :
      (e : RepeaterEvent) (s : Launcher)
      → IsRegistered s
      → IsRegistered (handle_event compiles is_url executors e s).0
  unfolding handle_event handle_error handle_reconnection_failed close
  handle_event-IsRegistered connected s h = h
  handle_event-IsRegistered (error code message remediation) s h = ground arith
  handle_event-IsRegistered (reconnection_failed message) s h = refl
  handle_event-IsRegistered (request o) s h = h
  handle_event-IsRegistered (limits bytes) s h = h
  handle_event-IsRegistered (test_network result) s h = h
  handle_event-IsRegistered (scripts_updated sent) s h = h
  handle_event-IsRegistered (update_available version) s h = h
  handle_event-IsRegistered (reconnect_attempt attempt) s h = h
  handle_event-IsRegistered reconnection_succeeded s h = h

  emit-IsRegistered :
      (n : ℕ) (e : RepeaterEvent) (s : Launcher)
      → IsRegistered s
      → IsRegistered (emit compiles is_url executors n e s).0
  unfolding emit
  emit-IsRegistered zero e s h = h
  emit-IsRegistered (suc n) e s h =
      emit-IsRegistered n e (handle_event compiles is_url executors e s).0
        (handle_event-IsRegistered e s h)

  perform-IsRegistered :
      (c : Call) (s : Launcher)
      → IsRegistered s
      → IsRegistered (perform compiles is_url executors c s).0
  unfolding perform run close on_server
  perform-IsRegistered (run_call id) s h = ground arith
  perform-IsRegistered close_call s h = refl
  perform-IsRegistered (server e) s h = emit-IsRegistered s.listeners e s h

  perform_all-IsRegistered :
      (calls : List Call) (s : Launcher)
      → IsRegistered s
      → IsRegistered (perform_all compiles is_url executors calls s)
  unfolding perform_all
  perform_all-IsRegistered [] s h = h
  perform_all-IsRegistered (c ∷ calls) s h =
      perform_all-IsRegistered calls (perform compiles is_url executors c s).0
        (perform-IsRegistered c s h)

  on_server-closed :
      (e : RepeaterEvent) (s : Launcher)
      → s.listeners ≡ 0
      → on_server compiles is_url executors e s ≡ (s, [])
  unfolding on_server emit
  on_server-closed e s h = ap (λ n. emit compiles is_url executors n e s) h

  emit_once :
      (running : Bool) (e : RepeaterEvent) (s : Launcher)
      → emit compiles is_url executors (if running then 1 else 0) e s
        ≡ (if running then handle_event compiles is_url executors e s else (s, []))
  unfolding emit
  emit_once true e s =
      let r = handle_event compiles is_url executors e s in
      ap (λ actions. (r.0, actions)) (append-nil r.1)
  emit_once false e s = refl

  on_server-IsRegistered :
      (e : RepeaterEvent) (s : Launcher)
      → IsRegistered s
      → on_server compiles is_url executors e s
        ≡ (if s.running then handle_event compiles is_url executors e s else (s, []))
  unfolding on_server
  on_server-IsRegistered e s h =
      ap (λ n. emit compiles is_url executors n e s) h ∙ emit_once s.running e s

  on_server_all-closed :
      (later : List RepeaterEvent) (s : Launcher)
      → s.listeners ≡ 0
      → on_server_all compiles is_url executors later s ≡ (s, [])
  unfolding on_server_all
  on_server_all-closed [] s h = refl
  on_server_all-closed (e ∷ later) s h =
      rw (on_server-closed e s h, on_server_all-closed later s h) refl

  -- While it runs, the launcher handles an event of the server exactly once, whatever calls and
  -- events there were since it was made.
  pub handles_once :
      (scripts : Store) (calls : List Call) (e : RepeaterEvent)
      → let s = perform_all compiles is_url executors calls (new_launcher scripts) in
        on_server compiles is_url executors e s
        ≡ (if s.running then handle_event compiles is_url executors e s else (s, []))
  unfolding new_launcher
  handles_once scripts calls e =
      on_server-IsRegistered e _ (perform_all-IsRegistered calls (new_launcher scripts) refl)

  on_server-running :
      (e : RepeaterEvent) (s : Launcher)
      → IsRegistered s
      → s.running ≡ true
      → on_server compiles is_url executors e s ≡ handle_event compiles is_url executors e s
  on_server-running e s h r =
      on_server-IsRegistered e s h
      ∙ ap (λ b. if b then handle_event compiles is_url executors e s else (s, [])) r

  critical_lem :
      (s : Launcher) (code : ErrorCode) (message : Text) (remediation : Option Text)
      (later : List RepeaterEvent)
      → is_critical_error code ≡ true
      → let (t, actions) =
          handle_event compiles is_url executors (error code message remediation) s in
        (t.running ≡ false)
        × (t.exit_code ≡ some 1)
        × (actions
            ≡ log_critical (normalize_message message) (normalize_message (or_else remediation []))
              ∷ disconnect
              ∷ [])
        × (on_server_all compiles is_url executors later t ≡ (t, []))
  unfolding handle_event handle_error close
  critical_lem s code message remediation later critical =
      rw critical (refl, refl, refl, on_server_all-closed later _ refl)

  -- A critical error while the launcher runs, after any calls and events, is logged, disconnects the
  -- server and sets the exit code 1; until the next run, no event of the server has any effect.
  pub critical_error_closes :
      (scripts : Store) (calls : List Call) (code : ErrorCode) (message : Text)
      (remediation : Option Text) (later : List RepeaterEvent)
      → let s = perform_all compiles is_url executors calls (new_launcher scripts) in
        s.running ≡ true
        → is_critical_error code ≡ true
        → let (t, actions) =
            on_server compiles is_url executors (error code message remediation) s in
          (t.running ≡ false)
          × (t.exit_code ≡ some 1)
          × (actions
              ≡ log_critical
                  (normalize_message message)
                  (normalize_message (or_else remediation []))
                ∷ disconnect
                ∷ [])
          × (on_server_all compiles is_url executors later t ≡ (t, []))
  unfolding new_launcher
  critical_error_closes scripts calls code message remediation later running critical =
      let s = perform_all compiles is_url executors calls (new_launcher scripts) in
      let registered : IsRegistered s =
        perform_all-IsRegistered calls (new_launcher scripts) refl in
      rw (on_server-running (error code message remediation) s registered running)
        (critical_lem s code message remediation later critical)
