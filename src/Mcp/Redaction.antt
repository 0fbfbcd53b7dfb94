-- ===== src/Mcp/Redaction.antt =====
-- `buildArgs`, `collectSensitiveValues` and `redact` of src/Mcp/DefaultRepeaterTools.ts: the command
-- line of a repeater, the secrets in it, and the messages without them.
pub mod Contains
pub mod Hides
pub mod Token
use bright_cli.Prelude.{
  ℕ, zero, suc, ◌-◌, ◌≡◌, refl, Bool, true, false, not, ◌&&◌, Option, none, some, List, [], ◌∷◌,
  ◌++◌, Text, codes, includes, is_empty, starts_with, split_at, join, length, filter_by, leb,
  either, if◌then◌else◌,
}

-- The input of the tool that runs a repeater.
pub record RunInput : Type 0 where
  pub id : Text
  pub hostname : Option Text

abbrev pub sensitive_options : List Text
sensitive_options = codes "--token" ∷ codes "-t" ∷ []

-- `addValue`
unfoldable pub add_value : List Text → Text → Option Text → List Text
add_value args option none = args
add_value args option (some value) = args ++ (option ∷ value ∷ [])

-- `resolveToken`, of the token of the context and that of the environment; `none` is that it throws
unfoldable pub resolve_token : Option Text → Option Text → Option Text
resolve_token given of_environment = elim (either given of_environment) [
  | none ↦ none
  | some token ↦ if is_empty token then none else some token
]

abbrev pub args_with : RunInput → Text → List Text
args_with input token =
    add_value
      (add_value (add_value [] (codes "--token") (some token)) (codes "--id") (some input.id))
      (codes "--hostname") input.hostname

abbrev pub args_for : RunInput → Option Text → Option (List Text)
args_for input none = none
args_for input (some token) = some (args_with input token)

-- `buildArgs`
unfoldable pub build_args : RunInput → Option Text → Option Text → Option (List Text)
build_args input given of_environment = args_for input (resolve_token given of_environment)

-- The second part of `arg.split('=', 2)`, for a first part that is a sensitive option
abbrev pub inline_value : List Text → List Text
inline_value [] = []
inline_value (option ∷ []) = []
inline_value (option ∷ value ∷ more) =
    if includes sensitive_options option && not (is_empty value) then value ∷ [] else []

-- The argument after a sensitive option
abbrev pub next_value : Text → List Text → List Text
next_value arg [] = []
next_value arg (next ∷ rest) =
    if includes sensitive_options arg && not (is_empty next) then next ∷ [] else []

-- `collectSensitiveValues`
unfoldable pub collect_sensitive_values : List Text → List Text
collect_sensitive_values [] = []
collect_sensitive_values (arg ∷ rest) =
    inline_value (split_at b'=' arg) ++ (next_value arg rest ++ collect_sensitive_values rest)

-- `sort((left, right) => right.length - left.length)`, which is stable
unfoldable pub insert_by_length : Text → List Text → List Text
insert_by_length v [] = v ∷ []
insert_by_length v (w ∷ values) =
    let later = insert_by_length v values in
    if leb (length w) (length v) then v ∷ w ∷ values else w ∷ later

unfoldable pub sort_by_length : List Text → List Text
sort_by_length [] = []
sort_by_length (v ∷ values) = insert_by_length v (sort_by_length values)

abbrev pub prepend_code : ℕ → List Text → List Text
prepend_code c [] = (c ∷ []) ∷ []
prepend_code c (t ∷ ts) = (c ∷ t) ∷ ts

-- `value.split(secret)` for a secret that is not empty, with `n` code units of a match still to skip
unfoldable pub split_from : Text → ℕ → Text → List Text
split_from secret n [] = [] ∷ []
split_from secret (suc n) (c ∷ s) = split_from secret n s
split_from secret zero (c ∷ s) =
    let matched = [] ∷ split_from secret (length secret - 1) s in
    let kept = prepend_code c (split_from secret zero s) in
    if starts_with (c ∷ s) secret then matched else kept

abbrev pub filtered : Text
filtered = codes "[Filtered]"

-- `value.split(secret).join('[Filtered]')`
unfoldable pub replace_secret : Text → Text → Text
replace_secret secret value = join filtered (split_from secret 0 value)

-- `reduce`
unfoldable pub replace_all : List Text → Text → Text
replace_all [] value = value
replace_all (secret ∷ secrets) value = replace_all secrets (replace_secret secret value)

-- `redactWith`
unfoldable pub redact_with : List Text → Text → Text
redact_with sensitive_values value = replace_all (sort_by_length sensitive_values) value
