-- ===== src/Utils/Wildcard.antt =====
-- `wildcardToRegExp` and `regExpEscape` of src/Utils/Helpers.ts, and as much of the language's
-- regular expressions as the patterns that they make can hold: an anchored sequence of characters,
-- escaped or plain, and of `.*`.
pub mod Globs
pub mod Laws
use bright_cli.Prelude.{
  ℕ, Bool, true, false, not, ◌&&◌, ◌||◌, Option, none, some, List, [], ◌∷◌, ◌++◌, map, Text, codes,
  join, if◌then◌else◌, ◌==◌,
}

abbrev pub star : ℕ
star = b'*'

-- The characters of `/[|\\{}()[\]^$+*?.]/`.
unfoldable pub is_syntax : ℕ → Bool
is_syntax c =
    c == b'|'
    || c == 92
    || c == b'{'
    || c == b'}'
    || c == b'('
    || c == b')'
    || c == b'['
    || c == b']'
    || c == b'^'
    || c == b'$'
    || c == b'+'
    || c == b'*'
    || c == b'?'
    || c == b'.'

unfoldable pub reg_exp_escape : Text → Text
reg_exp_escape [] = []
reg_exp_escape (c ∷ s) = if is_syntax c then 92 ∷ c ∷ reg_exp_escape s else c ∷ reg_exp_escape s

-- Put a code unit in front of the first piece.
abbrev extend : ℕ → List Text → List Text
extend c [] = (c ∷ []) ∷ []
extend c (t ∷ ts) = (c ∷ t) ∷ ts

-- `s.split(/\*+/)`; the flag says that the code unit before was a star.
unfoldable pub split_stars : Bool → Text → List Text
split_stars after [] = [] ∷ []
split_stars after (c ∷ s) =
    let run = split_stars true s in
    let word = extend c (split_stars false s) in
    if c == star then if after then run else [] ∷ run else word

-- The source of the expression, with its anchors.
unfoldable pub wildcard_to_reg_exp : Text → Text
unfolding split_stars reg_exp_escape is_syntax
wildcard_to_reg_exp s =
    b'^' ∷ (join (codes ".*") (map reg_exp_escape (split_stars false s)) ++ b'$' ∷ [])

pub data Node : Type 0 where
  lit : ℕ → Node
  any_run : Node

abbrev cons_node : Node → Option (List Node) → Option (List Node)
cons_node n none = none
cons_node n (some ns) = some (n ∷ ns)

-- Reads a pattern up to the `$` at its end; `none` is a pattern of another kind.
unfoldable pub parse_nodes : Text → Option (List Node)
parse_nodes [] = none
parse_nodes (c ∷ []) = if c == b'$' then some [] else none
parse_nodes (c ∷ d ∷ s) =
    let after_both = parse_nodes s in
    let after_one = parse_nodes (d ∷ s) in
    if c == 92
    then if is_syntax d then cons_node (lit d) after_both else none
    else if c == b'.' && d == b'*'
    then cons_node any_run after_both
    else if is_syntax c
    then none
    else cons_node (lit c) after_one

unfoldable pub parse_reg_exp : Text → Option (List Node)
unfolding parse_nodes
parse_reg_exp [] = none
parse_reg_exp (c ∷ s) = if c == b'^' then parse_nodes s else none

-- What `.` does not match.
unfoldable pub is_line_end : ℕ → Bool
is_line_end c = c == 10 || c == 13 || c == 0x2028 || c == 0x2029

-- A match of the whole text.
unfoldable pub matches : List Node → Text → Bool
unfolding is_line_end
matches [] [] = true
matches [] (c ∷ s) = false
matches (lit d ∷ ns) [] = false
matches (lit d ∷ ns) (c ∷ s) = c == d && matches ns s
matches (any_run ∷ ns) [] = matches ns []
matches (any_run ∷ ns) (c ∷ s) =
    matches ns (c ∷ s) || (not (is_line_end c) && matches (any_run ∷ ns) s)

abbrev test_nodes : Option (List Node) → Text → Bool
test_nodes none s = false
test_nodes (some ns) s = matches ns s

-- `new RegExp(source).test(s)`
unfoldable pub reg_exp_test : Text → Text → Bool
reg_exp_test source s = test_nodes (parse_reg_exp source) s

-- `Helpers.wildcardToRegExp(wildcard).test(s)`
unfoldable pub wildcard_test : Text → Text → Bool
wildcard_test wildcard s = reg_exp_test (wildcard_to_reg_exp wildcard) s
