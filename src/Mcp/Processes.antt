-- ===== src/Mcp/Processes.antt =====
-- The processes that src/Mcp/DefaultRepeaterTools.ts keeps, and how they are looked up.
use bright_cli.Prelude.{
  ℕ, zero, suc, Bool, false, not, Option, none, some, List, [], ◌∷◌, Text, is_empty, lookup, Assoc,
  get_elem?, is_some, ◌⊎◌, inl, inr, if◌then◌else◌,
}

-- An entry; `arguments` are those that its child was spawned with, and `is_starting` is that its `waitForImmediateFailure` is not settled.
pub record RepeaterProcess : Type 0 where
  pub id : Text
  pub arguments : List Text
  pub started_at : ℕ
  pub exited_at : Option ℕ
  pub exit_code : Option ℕ
  pub last_error : Option Text
  pub sensitive_values : List Text
  pub is_starting : Bool

-- The entries of all children, also of those that the map has lost, and the map.
pub record RepeaterTools : Type 0 where
  pub entries : List RepeaterProcess
  pub processes : Assoc ℕ

abbrev pub no_processes : RepeaterTools
no_processes = record { entries = []; processes = [] }

abbrev pub is_running : RepeaterProcess → Bool
is_running entry = not (is_some entry.exited_at)

pub record ProcessStatus : Type 0 where
  pub id : Text
  pub running : Bool
  pub child : ℕ
  pub started_at : ℕ
  pub exited_at : Option ℕ
  pub exit_code : Option ℕ
  pub last_error : Option Text

unfoldable pub to_status : ℕ → RepeaterProcess → ProcessStatus
to_status n entry = record {
  id = entry.id;
  running = is_running entry;
  child = n;
  started_at = entry.started_at;
  exited_at = entry.exited_at;
  exit_code = entry.exit_code;
  last_error = entry.last_error;
}

pub data ToolError : Type 0 where
  id_required token_required exited_early : ToolError
  already_running not_found : Text → ToolError
  failed : Text → ToolError

-- A call returns or throws, for the child it is about if there is one, or the tool calls the platform.
pub data ToolAction : Type 0 where
  spawns : ℕ → List Text → ToolAction
  kills : ℕ → Text → ToolAction
  returns : ProcessStatus → ToolAction
  throws : ToolError → ToolAction

abbrev pub set_entry : ℕ → RepeaterProcess → List RepeaterProcess → List RepeaterProcess
set_entry n entry [] = []
set_entry zero entry (e ∷ entries) = entry ∷ entries
set_entry (suc n) entry (e ∷ entries) = e ∷ set_entry n entry entries

abbrev pub numbered : ℕ → Option RepeaterProcess → Option (ℕ × RepeaterProcess)
numbered n none = none
numbered n (some entry) = some (n, entry)

-- The entry of an id, with its number.
abbrev pub entry_at : List RepeaterProcess → Option ℕ → Option (ℕ × RepeaterProcess)
entry_at entries none = none
entry_at entries (some n) = numbered n (get_elem? entries n)

abbrev pub find_entry : Text → RepeaterTools → Option (ℕ × RepeaterProcess)
find_entry id tools = entry_at tools.entries (lookup id tools.processes)

-- `requireId` and `requireEntry`
abbrev pub require_entry : Text → RepeaterTools → (ℕ × RepeaterProcess) ⊎ ToolError
require_entry id tools =
    if is_empty id
    then inr id_required
    else elim (find_entry id tools) [ none ↦ inr (not_found id) | some found ↦ inl found ]

abbrev pub is_running_entry : Option (ℕ × RepeaterProcess) → Bool
is_running_entry none = false
is_running_entry (some (n, entry)) = is_running entry
