-- ===== src/Scripts.antt =====
-- src/Scripts/VirtualScript.ts, src/Scripts/DefaultVirtualScripts.ts, and `compileScripts` of
-- src/Repeater/DefaultRepeaterCommandHub.ts.
-- The compiler of node:vm is a parameter: whether it takes the code.
pub mod Store
pub mod Laws
pub mod Find
mod Tests
use bright_cli.Prelude.{
  ℕ, Bool, true, false, not, Option, none, some, List, [], ◌∷◌, map, Text, is_empty, Assoc, lookup,
  insert, erase, length, suc, ◌||◌, ◌⊎◌, inl, inr, filter_by, find_by, if◌then◌else◌, ◌==◌,
}
use bright_cli.Utils.Wildcard.{wildcard_test}

pub data ScriptType : Type 0 where
  local remote : ScriptType

abbrev pub type_eq : ScriptType → ScriptType → Bool
type_eq local local = true
type_eq remote remote = true
type_eq _ _ = false

pub record VirtualScript : Type 0 where
  pub id : Text
  pub type : ScriptType
  pub source : Text

pub data ScriptError : Type 0 where
  missing_id missing_code bad_syntax : ScriptError

abbrev pub Store : Type 0
Store = Assoc VirtualScript

-- `none` is a normal return.
abbrev pub Outcome : Type 0
Outcome = Store × Option ScriptError

-- `code.replace(/[\u200B-\u200D\uFEFF]/g, '')`
abbrev pub is_zero_width : ℕ → Bool
is_zero_width c = c == 0x200b || c == 0x200c || c == 0x200d || c == 0xfeff

unfoldable pub strip_zero_width : Text → Text
strip_zero_width code = filter_by (λ c. not (is_zero_width c)) code

abbrev count_if : Bool → ℕ → ℕ
count_if true n = suc n
count_if false n = n

-- `this.store.set(script.id, script)`, unless the constructor threw
abbrev put_script : VirtualScript ⊎ ScriptError → Store → Outcome
put_script (inl script) store = (insert script.id script store, none)
put_script (inr e) store = (store, some e)

-- What follows a call, unless it threw.
abbrev unless_thrown : Outcome → Outcome → Outcome
unless_thrown (store, none) later = later
unless_thrown (store, some e) later = (store, some e)

module _ (compiles : Text → Bool) where
  -- The constructor, up to the wrapper of Module.wrap around the code.
  unfoldable pub new_script : Text → ScriptType → Text → VirtualScript ⊎ ScriptError
  unfolding strip_zero_width
  new_script id type code =
      if is_empty id
      then inr missing_id
      else if is_empty code
      then inr missing_code
      else if compiles (strip_zero_width code)
      then inl (record { id = id; type = type; source = strip_zero_width code })
      else inr bad_syntax

  -- `set`; `compile` makes the script's context, and changes nothing of the store.
  unfoldable pub set : Text → ScriptType → Text → Store → Outcome
  set wildcard type code store = put_script (new_script wildcard type code) store

-- `size`
unfoldable pub size : Store → ℕ
size store = length store

-- The callback of `forEach` in `clear`, over the entries that the walk meets.
clear_each : ScriptType → List (Text × VirtualScript) → Store → Store
clear_each type [] store = store
clear_each type ((k, x) ∷ rest) store =
    clear_each type rest (if type_eq x.type type then erase x.id store else store)

-- `clear`
unfoldable pub clear : Option ScriptType → Store → Store
unfolding clear_each
clear none store = []
clear (some type) store = clear_each type store store

-- `find`
unfoldable pub find : Text → Store → Option VirtualScript
find host store = find_by (λ s. wildcard_test s.id host) (map (λ e. e.1) store)

-- `count`
unfoldable pub count : ScriptType → Store → ℕ
count type [] = 0
count type ((k, x) ∷ rest) = count_if (type_eq x.type type) (count type rest)

-- The argument of `compileScripts`: one script for all hosts, or one for each wildcard.
pub data Sent : Type 0 where
  one : Text → Sent
  many : Assoc Text → Sent

module _ (compiles : Text → Bool) where
  -- `Object.entries(script).map(…)`, which a throwing `set` leaves.
  unfoldable pub set_all : Assoc Text → Store → Outcome
  set_all [] store = (store, none)
  set_all ((wildcard, code) ∷ rest) store =
      let r = set compiles wildcard remote code store in unless_thrown r (set_all rest r.0)

  -- The rest of `compileScripts` after `clear`.
  unfoldable pub accept : Sent → Store → Outcome
  unfolding size
  accept (one code) kept =
      if not (size kept == 0) then (kept, none) else set compiles (b'*' ∷ []) remote code kept
  accept (many scripts) kept = if not (size kept == 0) then (kept, none) else set_all scripts kept

  unfoldable pub compile_scripts : Sent → Store → Outcome
  compile_scripts sent store = accept sent (clear (some remote) store)
