-- ===== src/Utils/Arguments.antt =====
-- `getExecArgs` of src/Utils/Helpers.ts: how the program is started again. What it reads of the
-- process is a record, with the path of the program normalized.
use bright_cli.Prelude.{
  Bool, not, ◌&&◌, Option, none, some, List, [], ◌∷◌, ◌++◌, map, take, Text, includes, starts_with,
  filter_by, if◌then◌else◌,
}
use bright_cli.Utils.ShellArgument.{quote, escape_shell_argument}

pub record ProcessInfo : Type 0 where
  -- `process.argv` without its first
  pub script_args : List Text
  pub exec_argv : List Text
  pub exec_path : Text
  pub entrypoint : Option Text
  pub is_win : Bool

pub record ExecOptions : Type 0 where
  pub exclude : Option (List Text)
  pub include : Option (List Text)
  pub exclude_all : Bool
  pub escape : Bool
  pub spawn : Bool

pub record CommandArgs : Type 0 where
  pub command : Text
  pub args : List Text
  pub shell : Bool
  pub windows_verbatim_arguments : Bool

abbrev included : Option (List Text) → List Text → List Text
included none args = args
included (some include) args = args ++ include

abbrev not_excluded : Option (List Text) → List Text → List Text
not_excluded none args = args
not_excluded (some exclude) args = filter_by (λ x. not (includes exclude x)) args

abbrev outside_package : Option Text → Bool → List Text → List Text
outside_package none spawn args = args
outside_package (some entrypoint) spawn args =
    if spawn then args else filter_by (λ arg. not (starts_with arg entrypoint)) args

-- The arguments, before they are escaped
unfoldable pub plain_args : ProcessInfo → ExecOptions → List Text
plain_args p o = outside_package p.entrypoint o.spawn (
    p.exec_argv
    ++ not_excluded o.exclude
        (included o.include (if o.exclude_all then take 1 p.script_args else p.script_args)))

-- `getExecArgs`
unfoldable pub get_exec_args : ProcessInfo → ExecOptions → CommandArgs
get_exec_args p o =
    let args = plain_args p o in
    let verbatim = p.is_win && o.escape in
    record {
      command = if verbatim then quote ∷ (p.exec_path ++ quote ∷ []) else p.exec_path;
      args = if verbatim then map escape_shell_argument args else args;
      shell = p.is_win;
      windows_verbatim_arguments = verbatim;
    }
