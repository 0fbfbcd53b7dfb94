-- ===== src/Mcp/RepeaterTools/Registered.antt =====
-- Every child that runs is the one registered under its id.
use bright_cli.Prelude.{
  ℕ, ◌≡◌, refl, sym, ap, subst, ◌∙◌, true, false, Option, none, some, List, [], ◌∷◌, Text, text_eq,
  text_eq_iff, lookup, insert, lookup-insert, lookup-insert_self, length, get_elem?, Bool-cases,
  inl, inr, is_empty, if◌then◌else◌,
}
use bright_cli.Mcp.Redaction.{RunInput, redact_with, build_args, args_with}
use bright_cli.Mcp.Redaction.Token.{build_args-args_with}
use bright_cli.Mcp.Processes.{
  RepeaterProcess, RepeaterTools, no_processes, is_running, to_status, ToolAction, returns, throws,
  failed, exited_early, already_running, id_required, set_entry, numbered, ToolError, entry_at,
  find_entry, is_running_entry,
}
use bright_cli.Mcp.RepeaterTools.{
  ToolEvent, run_called, child_failed, child_exited, startup_over, stop_called, stop_waited,
  stop_ended, status_called, stop_all_called, change_child, new_entry, spawn_entry, run_tool,
  forget, fail_child, exit_child, end_startup, handle_tool, handle_tools,
}
use bright_cli.Mcp.RepeaterTools.Entries.{
  IsRedacted, entry-IsRedacted, IsRegistered, no_processes-IsRegistered, get_elem?-set_entry,
  get_elem?-snoc, set_entry-IsRegistered, forget-IsRegistered, either-IsRegistered,
}

change_child-IsRegistered :
    (t : RepeaterTools) (n : ℕ) (entry entry' : RepeaterProcess) (error : ToolError)
    → IsRegistered t
    → get_elem? t.entries n ≡ some entry
    → entry'.id ≡ entry.id
    → IsRedacted entry'
    → (is_running entry' ≡ true → is_running entry ≡ true)
    → IsRegistered (change_child n entry entry' error t).0
change_child-IsRegistered t n entry entry' error sound here id redacted runs =
    let t' : RepeaterTools = record t { entries = set_entry n entry' t.entries } in
    let changed = set_entry-IsRegistered t n entry entry' sound here id redacted runs in
    either-IsRegistered entry.is_starting (forget n entry' t', throws error ∷ []) (t', [])
      (forget-IsRegistered t' n entry' (lookup entry'.id t'.processes) changed
        (get_elem?-set_entry n entry' entry t.entries here) refl)
      (λ b. changed)

fail_child-IsRegistered :
    (n : ℕ) (message : Text) (o : Option RepeaterProcess) (t : RepeaterTools)
    → IsRegistered t
    → get_elem? t.entries n ≡ o
    → IsRegistered (fail_child n message o t).0
fail_child-IsRegistered n message none t sound here = sound
fail_child-IsRegistered n message (some entry) t sound here =
    let error = redact_with entry.sensitive_values message in
    change_child-IsRegistered t n entry
      (record entry { last_error = some error; is_starting = false }) (failed error) sound here refl
      (entry-IsRedacted entry (record entry { last_error = some error; is_starting = false })
        message (sound n entry here).0 refl refl refl refl)
      (λ r. r)

exit_child-IsRegistered :
    (n now : ℕ) (code : Option ℕ) (o : Option RepeaterProcess) (t : RepeaterTools)
    → IsRegistered t
    → get_elem? t.entries n ≡ o
    → IsRegistered (exit_child n now code o t).0
exit_child-IsRegistered n now code none t sound here = sound
exit_child-IsRegistered n now code (some entry) t sound here =
    change_child-IsRegistered t n entry
      (record entry { exited_at = some now; exit_code = code; is_starting = false }) exited_early
      sound here refl (sound n entry here).0 (λ r. cc)

end_startup-IsRegistered :
    (n : ℕ) (o : Option RepeaterProcess) (t : RepeaterTools)
    → IsRegistered t
    → get_elem? t.entries n ≡ o
    → IsRegistered (end_startup n o t).0
end_startup-IsRegistered n none t sound here = sound
end_startup-IsRegistered n (some entry) t sound here =
    either-IsRegistered entry.is_starting
      (
        record t { entries = set_entry n (record entry { is_starting = false }) t.entries },
        returns (to_status n entry) ∷ [],
      )
      (t, [])
      (set_entry-IsRegistered t n entry (record entry { is_starting = false }) sound here refl
        (sound n entry here).0 (λ r. r))
      (λ b. sound)

-- No child runs for an id whose entry does not.
not_running :
    (id : Text) (t : RepeaterTools) (m : ℕ) (f : RepeaterProcess)
    → is_running_entry (find_entry id t) ≡ false
    → get_elem? t.entries m ≡ some f
    → lookup id t.processes ≡ some m
    → is_running f ≡ false
not_running id t m f stopped here found =
    let e : find_entry id t ≡ some (m, f) = ap (entry_at t.entries) found ∙ ap (numbered m) here in
    sym (ap is_running_entry e) ∙ stopped

-- The arguments, if there are any, are those of the input and of a token.
abbrev AreBuilt : RunInput → Option (List Text) → Type 0
AreBuilt input args = (l : List Text) → args ≡ some l → (token : Text) × (l ≡ args_with input token)

new_entry-IsRedacted :
    (now : ℕ) (input : RunInput) (args : List Text)
    → AreBuilt input (some args)
    → IsRedacted (new_entry now input args)
new_entry-IsRedacted now input args built =
    let (token, same) = built args refl in (input, token, same, refl, refl, λ error h. cc)

spawn_entry-IsRegistered :
    (now : ℕ) (input : RunInput) (args : Option (List Text)) (t : RepeaterTools)
    → AreBuilt input args
    → IsRegistered t
    → is_running_entry (find_entry input.id t) ≡ false
    → IsRegistered (spawn_entry now input args t).0
spawn_entry-IsRegistered now input none t built sound stopped = sound
spawn_entry-IsRegistered now input (some args) t built sound stopped = λ m f h.
    let n = length t.entries in
    let e = new_entry now input args in
    elim (get_elem?-snoc t.entries e f m h) [
      | inl (same, new) ↦
          subst
            (λ g.
              IsRedacted g
              × (is_running g ≡ true → lookup g.id (insert input.id n t.processes) ≡ some m))
            (sym new)
            (
              new_entry-IsRedacted now input args built,
              λ runs. lookup-insert_self input.id n t.processes ∙ ap (λ k. some k) (sym same),
            )
      | inr old ↦
          let (redacted, registered) = sound m f old in
          (
            redacted,
            λ runs. elim (Bool-cases (text_eq f.id input.id)) [
              | inl same ↦
                  let id = (text_eq_iff f.id input.id).0 same in
                  let found = ap (λ i. lookup i t.processes) (sym id) ∙ registered runs in
                  cc (not_running input.id t m f stopped old found, runs)
              | inr other ↦ lookup-insert input.id f.id n t.processes ∙ rw other (registered runs)
            ],
          )
    ]

run_tool-IsRegistered :
    (now : ℕ) (input : RunInput) (args : Option (List Text)) (t : RepeaterTools)
    → AreBuilt input args
    → IsRegistered t
    → IsRegistered (run_tool now input args t).0
unfolding run_tool
run_tool-IsRegistered now input args t built sound =
    let running = is_running_entry (find_entry input.id t) in
    let spawned = spawn_entry now input args t in
    let refused : RepeaterTools × List ToolAction = (t, throws (already_running input.id) ∷ []) in
    either-IsRegistered (is_empty input.id) (t, throws id_required ∷ [])
      (if running then refused else spawned) sound
      (λ named.
        either-IsRegistered running refused spawned sound
          (spawn_entry-IsRegistered now input args t built sound))

handle_tool-IsRegistered :
    (e : ToolEvent) (t : RepeaterTools) → IsRegistered t → IsRegistered (handle_tool e t).0
unfolding handle_tool
handle_tool-IsRegistered (run_called now input given env) t sound =
    run_tool-IsRegistered now input (build_args input given env) t
      (λ l h. build_args-args_with input given env l h) sound
handle_tool-IsRegistered (child_failed n message) t sound =
    fail_child-IsRegistered n message (get_elem? t.entries n) t sound refl
handle_tool-IsRegistered (child_exited n now code) t sound =
    exit_child-IsRegistered n now code (get_elem? t.entries n) t sound refl
handle_tool-IsRegistered (startup_over n) t sound =
    end_startup-IsRegistered n (get_elem? t.entries n) t sound refl
handle_tool-IsRegistered (stop_called id signal) t sound = sound
handle_tool-IsRegistered (stop_waited n) t sound = sound
handle_tool-IsRegistered (stop_ended n) t sound = sound
handle_tool-IsRegistered (status_called id) t sound = sound
handle_tool-IsRegistered stop_all_called t sound = sound

handle_tools-from :
    (events : List ToolEvent) (t : RepeaterTools)
    → IsRegistered t
    → IsRegistered (handle_tools events t)
unfolding handle_tools
handle_tools-from [] t sound = sound
handle_tools-from (e ∷ events) t sound =
    handle_tools-from events (handle_tool e t).0 (handle_tool-IsRegistered e t sound)

-- Whatever is called and whatever the children do: every child that runs is the one that is
-- registered under its id, so that it can be stopped and no two run for one id. Every child was spawned
-- with the command line of an input with its id and of a token, and the error that is kept of it does
-- not have that token, where the token has no bracket and is no part of the word `Filtered`.
pub handle_tools-IsRegistered :
    (events : List ToolEvent) → IsRegistered (handle_tools events no_processes)
handle_tools-IsRegistered events = handle_tools-from events no_processes no_processes-IsRegistered
