-- ===== src/Utils/ShellArgument.antt =====
-- `escapeShellArgument` of src/Utils/Helpers.ts: how an argument is written on a command line of
-- Windows.
pub mod RoundTrip
use bright_cli.Prelude.{
  ℕ, zero, suc, ◌+◌, ◌*◌, Bool, true, false, ◌||◌, List, [], ◌∷◌, ◌++◌, Text, replicate, any, codes,
  ◌==◌, if◌then◌else◌,
}

abbrev pub backslash : ℕ
backslash = 92

abbrev pub quote : ℕ
quote = 34

abbrev pub caret : ℕ
caret = 94

-- `val.replace(/(\\*)"/g, '$1$1\\"')`, after a run of `n` backslashes
unfoldable pub escape_quotes : ℕ → Text → Text
escape_quotes n [] = replicate n backslash
escape_quotes n (c ∷ s) =
    let in_run = escape_quotes (suc n) s in
    let after = escape_quotes 0 s in
    if c == backslash
    then in_run
    else if c == quote
    then replicate (n + n) backslash ++ (backslash ∷ quote ∷ after)
    else replicate n backslash ++ (c ∷ after)

-- `val.replace(/(\\*)$/, '$1$1')`, after a run of `n` backslashes
unfoldable pub double_last_run : ℕ → Text → Text
double_last_run n [] = replicate (n + n) backslash
double_last_run n (c ∷ s) =
    let in_run = double_last_run (suc n) s in
    let after = double_last_run 0 s in
    if c == backslash then in_run else replicate n backslash ++ (c ∷ after)

-- `META_CHARS_REGEXP`
unfoldable pub is_meta : ℕ → Bool
is_meta c = any (λ m. c == m) (codes "()][%!^\"`<>&|;, *?")

-- `val.replace(this.META_CHARS_REGEXP, '^$1')`
unfoldable pub escape_meta : Text → Text
escape_meta [] = []
escape_meta (c ∷ s) = if is_meta c then caret ∷ c ∷ escape_meta s else c ∷ escape_meta s

unfoldable pub escape_shell_argument : Text → Text
escape_shell_argument val =
    escape_meta (quote ∷ (double_last_run 0 (escape_quotes 0 val) ++ quote ∷ []))
