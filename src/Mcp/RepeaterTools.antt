-- ===== src/Mcp/RepeaterTools.antt =====
-- The processes of src/Mcp/DefaultRepeaterTools.ts: the calls of its tools, and the events of the
-- children and of the timers, as steps on its state. A child is the number of its entry. Times are
-- those of the clock at the event; the platform's `spawn` and `kill` are actions.
pub mod Entries
pub mod Registered
use bright_cli.Prelude.{
  distinct, ℕ, zero, suc, Bool, true, false, not, ◌&&◌, Option, none, some, List, [], ◌∷◌, ◌++◌,
  Text, codes, is_empty, lookup, insert, erase, Assoc, length, get_elem?, is_some, map, ◌==◌, ◌⊎◌,
  inl, inr, or_else, if◌then◌else◌,
}
use bright_cli.Mcp.Processes.{
  RepeaterProcess, RepeaterTools, is_running, ProcessStatus, to_status, ToolError, id_required,
  token_required, exited_early, already_running, not_found, failed, ToolAction, spawns, kills,
  returns, throws, set_entry, numbered, entry_at, find_entry, require_entry, is_running_entry,
  no_processes,
}
use bright_cli.Mcp.Redaction.{RunInput, build_args, collect_sensitive_values, redact_with}

-- A call of `run`, with the token of the environment; the events of a child and the end of its time to
-- start; a call of `stop`; the ends of its two waits; a call of `status`; and a call
-- of `stopAll`.
pub data ToolEvent : Type 0 where
  run_called : ℕ → RunInput → (given of_environment : Option Text) → ToolEvent
  child_failed : ℕ → Text → ToolEvent
  child_exited : ℕ → ℕ → Option ℕ → ToolEvent
  startup_over : ℕ → ToolEvent
  stop_called : Text → Option Text → ToolEvent
  stop_waited stop_ended : ℕ → ToolEvent
  status_called : Text → ToolEvent
  stop_all_called : ToolEvent

abbrev pub new_entry : ℕ → RunInput → List Text → RepeaterProcess
new_entry now input args = record {
  id = input.id;
  arguments = args;
  started_at = now;
  exited_at = none;
  exit_code = none;
  last_error = none;
  sensitive_values = distinct [] (collect_sensitive_values args);
  is_starting = true;
}

abbrev pub spawn_entry :
    ℕ → RunInput → Option (List Text) → RepeaterTools → RepeaterTools × List ToolAction
spawn_entry now input none tools = (tools, throws token_required ∷ [])
spawn_entry now input (some args) tools = (
  record {
    entries = tools.entries ++ new_entry now input args ∷ [];
    processes = insert input.id (length tools.entries) tools.processes;
  },
  spawns (length tools.entries) (codes "repeater" ∷ args) ∷ [],
)

-- `run`, up to the start of the child
unfoldable pub run_tool :
    ℕ → RunInput → Option (List Text) → RepeaterTools → RepeaterTools × List ToolAction
run_tool now input args tools =
    if is_empty input.id
    then (tools, throws id_required ∷ [])
    else if is_running_entry (find_entry input.id tools)
    then (tools, throws (already_running input.id) ∷ [])
    else spawn_entry now input args tools

-- The end of `run` where the child fails to start: the entry is forgotten, if it is still the one of its
-- id and is not running.
abbrev pub forget_at : ℕ → RepeaterProcess → Assoc ℕ → Option ℕ → Assoc ℕ
forget_at n entry processes none = processes
forget_at n entry processes (some m) =
    if m == n && not (is_running entry) then erase entry.id processes else processes

abbrev pub forget : ℕ → RepeaterProcess → RepeaterTools → RepeaterTools
forget n entry tools = record tools {
  processes = forget_at n entry tools.processes (lookup entry.id tools.processes);
}

-- An event of a child, whose `run` throws if the child was starting
abbrev pub change_child :
    ℕ
    → (entry entry' : RepeaterProcess) → ToolError
    → RepeaterTools
    → RepeaterTools × List ToolAction
change_child n entry entry' error tools =
    let tools' : RepeaterTools = record tools { entries = set_entry n entry' tools.entries } in
    if entry.is_starting then (forget n entry' tools', throws error ∷ []) else (tools', [])

-- The handlers of a child's `error`: that of `attachHandlers`, and that of `waitForImmediateFailure`
abbrev pub fail_child :
    ℕ → Text → Option RepeaterProcess → RepeaterTools → RepeaterTools × List ToolAction
fail_child n message none tools = (tools, [])
fail_child n message (some entry) tools =
    let error = redact_with entry.sensitive_values message in
    change_child n entry (record entry { last_error = some error; is_starting = false })
      (failed error) tools

-- The handlers of a child's `exit`
abbrev pub exit_child :
    ℕ → ℕ → Option ℕ → Option RepeaterProcess → RepeaterTools → RepeaterTools × List ToolAction
exit_child n now code none tools = (tools, [])
exit_child n now code (some entry) tools =
    change_child n entry
      (record entry { exited_at = some now; exit_code = code; is_starting = false }) exited_early
      tools

-- The end of the time to start
abbrev pub end_startup :
    ℕ → Option RepeaterProcess → RepeaterTools → RepeaterTools × List ToolAction
end_startup n none tools = (tools, [])
end_startup n (some entry) tools =
    if entry.is_starting
    then (
      record tools { entries = set_entry n (record entry { is_starting = false }) tools.entries },
      returns (to_status n entry) ∷ [],
    )
    else (tools, [])

-- `stop`: the first signal, where the child runs
abbrev pub stop_tool : Option Text → (ℕ × RepeaterProcess) ⊎ ToolError → List ToolAction
stop_tool signal (inr e) = throws e ∷ []
stop_tool signal (inl (n, entry)) =
    if is_running entry
    then kills n (or_else signal (codes "SIGTERM")) ∷ []
    else returns (to_status n entry) ∷ []

-- `stopAll`, for the ids of the map
unfoldable pub stop_ids : RepeaterTools → List Text → List ToolAction
stop_ids tools [] = []
stop_ids tools (id ∷ ids) = stop_tool none (require_entry id tools) ++ stop_ids tools ids

-- `stop`, after the first wait and after the second
abbrev pub stop_again : ℕ → Option RepeaterProcess → List ToolAction
stop_again n none = []
stop_again n (some entry) =
    if is_running entry then kills n (codes "SIGKILL") ∷ [] else returns (to_status n entry) ∷ []

abbrev pub status_of : ℕ → Option RepeaterProcess → List ToolAction
status_of n none = []
status_of n (some entry) = returns (to_status n entry) ∷ []

abbrev pub status_tool : (ℕ × RepeaterProcess) ⊎ ToolError → List ToolAction
status_tool (inr e) = throws e ∷ []
status_tool (inl (n, entry)) = returns (to_status n entry) ∷ []

unfoldable pub handle_tool : ToolEvent → RepeaterTools → RepeaterTools × List ToolAction
handle_tool (run_called now input given of_environment) t =
    run_tool now input (build_args input given of_environment) t
handle_tool (child_failed n message) t = fail_child n message (get_elem? t.entries n) t
handle_tool (child_exited n now code) t = exit_child n now code (get_elem? t.entries n) t
handle_tool (startup_over n) t = end_startup n (get_elem? t.entries n) t
handle_tool (stop_called id signal) t = (t, stop_tool signal (require_entry id t))
handle_tool (stop_waited n) t = (t, stop_again n (get_elem? t.entries n))
handle_tool (stop_ended n) t = (t, status_of n (get_elem? t.entries n))
handle_tool (status_called id) t = (t, status_tool (require_entry id t))
handle_tool stop_all_called t = (t, stop_ids t (map (λ kv. kv.0) t.processes))

unfoldable pub handle_tools : List ToolEvent → RepeaterTools → RepeaterTools
handle_tools [] t = t
handle_tools (e ∷ events) t = handle_tools events (handle_tool e t).0
