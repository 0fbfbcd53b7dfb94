-- ===== src/Utils/ShellArgument/RoundTrip.antt =====
-- An escaped argument reaches a program of Windows unchanged.
use bright_cli.Prelude.{
  ℕ, zero, suc, ◌+◌, ◌/◌, ◌%◌, ◌≡◌, refl, sym, ap, ◌∙◌, Bool, true, false, Option, none, some, [],
  ◌∷◌, ◌++◌, append_assoc, append-nil, Text, replicate, ◌==◌, if◌then◌else◌, Bool-cases, inl, inr,
  ==_iff, arith, option_map,
}
use bright_cli.Utils.ShellArgument.{
  backslash, quote, caret, escape_quotes, double_last_run, is_meta, escape_meta,
  escape_shell_argument,
}

-- What cmd.exe makes of a line outside of quotes, after a caret or not: a caret stands for the code
-- unit after it. A meta character with no caret, and a caret at the end, are no text for one program.
-- A line feed is a code unit as any other here, and percent signs name no variable.
unfoldable pub read_carets : Bool → Text → Option Text
read_carets false [] = some []
read_carets true [] = none
read_carets true (c ∷ s) = option_map (λ t. c ∷ t) (read_carets false s)
read_carets false (c ∷ s) =
    let escaped = read_carets true s in
    let plain = option_map (λ t. c ∷ t) (read_carets false s) in
    if c == caret then escaped else if is_meta c then none else plain

-- What the C runtime makes of the rest of a quoted argument, after a run of `n` backslashes: before
-- a quote, each two of them are one, and an odd one makes the quote part of the argument; elsewhere
-- each stands for itself. The quote that closes the argument has to end the text.
unfoldable pub read_quoted : ℕ → Text → Option Text
read_quoted n [] = none
read_quoted n (c ∷ s) =
    let in_run = read_quoted (suc n) s in
    let after = read_quoted 0 s in
    if c == backslash
    then in_run
    else if c == quote
    then (if n % 2 == 0
        then elim s [ [] ↦ some (replicate (n / 2) backslash) | d ∷ t ↦ none ]
        else option_map (λ t. replicate (n / 2) backslash ++ (quote ∷ t)) after)
    else option_map (λ t. replicate n backslash ++ (c ∷ t)) after

-- The argument that a program gets from a text on its command line.
unfoldable pub read_argument : Text → Option Text
unfolding read_quoted
read_argument [] = none
read_argument (c ∷ s) = if c == quote then read_quoted 0 s else none

abbrev read_line : Option Text → Option Text
read_line none = none
read_line (some text) = read_argument text

abbrev pub read_command_line : Text → Option Text
read_command_line line = read_line (read_carets false line)

caret_escaped :
    (c : ℕ) (s : Text)
    → is_meta c ≡ false
    → read_carets false (c ∷ s) ≡ option_map (λ t. c ∷ t) (read_carets false s)
unfolding read_carets is_meta
caret_escaped c s h = ground arith

caret_escapes :
    (c : ℕ) (s : Text)
    → read_carets false (caret ∷ c ∷ s) ≡ option_map (λ t. c ∷ t) (read_carets false s)
unfolding read_carets
caret_escapes c s = refl

read_carets-escape_meta : (s : Text) → read_carets false (escape_meta s) ≡ some s
unfolding escape_meta
read_carets-escape_meta [] = unfold read_carets in refl
read_carets-escape_meta (c ∷ s) =
    let rest = ap (option_map (λ t. c ∷ t)) (read_carets-escape_meta s) in
    elim (Bool-cases (is_meta c)) [
      | inl meta ↦ rw meta (caret_escapes c (escape_meta s) ∙ rest)
      | inr plain ↦ rw plain (caret_escaped c (escape_meta s) plain ∙ rest)
    ]

-- A run of backslashes is read up to what follows it.
read_run : (k n : ℕ) (s : Text) → read_quoted n (replicate k backslash ++ s) ≡ read_quoted (k + n) s
unfolding read_quoted
read_run zero n s = let e : n ≡ 0 + n = omega arith in ap (λ m. read_quoted m s) e
read_run (suc k) n s =
    let e : k + suc n ≡ suc k + n = omega arith in
    read_run k (suc n) s ∙ ap (λ m. read_quoted m s) e

double_run :
    (k n : ℕ) (s : Text)
    → double_last_run n (replicate k backslash ++ s) ≡ double_last_run (k + n) s
unfolding double_last_run
double_run zero n s = let e : n ≡ 0 + n = omega arith in ap (λ m. double_last_run m s) e
double_run (suc k) n s =
    let e : k + suc n ≡ suc k + n = omega arith in
    double_run k (suc n) s ∙ ap (λ m. double_last_run m s) e

replicate-snoc :
    (k : ℕ) (s : Text) → replicate (suc k) backslash ++ s ≡ replicate k backslash ++ (backslash ∷ s)
replicate-snoc zero s = refl
replicate-snoc (suc k) s = ap (λ t. backslash ∷ t) (replicate-snoc k s)

-- Both replacements together, after a run of `k` backslashes.
abbrev escaped : ℕ → Text → Text
escaped k val = double_last_run 0 (escape_quotes k val)

escaped-nil : (k : ℕ) → escaped k [] ≡ replicate (k + k) backslash
unfolding escape_quotes double_last_run
escaped-nil k =
    let e : k + 0 ≡ k = omega arith in
    ap (double_last_run 0) (sym (append-nil (replicate k backslash)))
    ∙ double_run k 0 []
    ∙ ap (λ n. replicate (n + n) backslash) e

escaped-backslash : (k : ℕ) (s : Text) → escaped k (backslash ∷ s) ≡ escaped (suc k) s
unfolding escape_quotes
escaped-backslash k s = refl

double_quote :
    (n : ℕ) (s : Text)
    → double_last_run n (quote ∷ s) ≡ replicate n backslash ++ (quote ∷ double_last_run 0 s)
unfolding double_last_run
double_quote n s = refl

double_plain :
    (n c : ℕ) (s : Text)
    → (c == backslash) ≡ false
    → double_last_run n (c ∷ s) ≡ replicate n backslash ++ (c ∷ double_last_run 0 s)
unfolding double_last_run
double_plain n c s b = rw b refl

escaped-quote :
    (k : ℕ) (s : Text)
    → escaped k (quote ∷ s) ≡ replicate (suc (k + k)) backslash ++ (quote ∷ escaped 0 s)
unfolding escape_quotes
escaped-quote k s =
    let e : suc (k + k) + 0 ≡ suc (k + k) = omega arith in
    ap (double_last_run 0) (sym (replicate-snoc (k + k) (quote ∷ escape_quotes 0 s)))
    ∙ double_run (suc (k + k)) 0 (quote ∷ escape_quotes 0 s)
    ∙ ap (λ n. double_last_run n (quote ∷ escape_quotes 0 s)) e
    ∙ double_quote (suc (k + k)) (escape_quotes 0 s)

escape_quotes-plain :
    (k c : ℕ) (s : Text)
    → (c == backslash) ≡ false
    → (c == quote) ≡ false
    → escape_quotes k (c ∷ s) ≡ replicate k backslash ++ (c ∷ escape_quotes 0 s)
unfolding escape_quotes
escape_quotes-plain k c s b q = rw b (rw q refl)

escaped-plain :
    (k c : ℕ) (s : Text)
    → (c == backslash) ≡ false
    → (c == quote) ≡ false
    → escaped k (c ∷ s) ≡ replicate k backslash ++ (c ∷ escaped 0 s)
escaped-plain k c s b q =
    let e : k + 0 ≡ k = omega arith in
    ap (double_last_run 0) (escape_quotes-plain k c s b q)
    ∙ double_run k 0 (c ∷ escape_quotes 0 s)
    ∙ ap (λ n. double_last_run n (c ∷ escape_quotes 0 s)) e
    ∙ double_plain k c (escape_quotes 0 s) b

-- What is read of a run of backslashes and what follows it.
read_end : (k : ℕ) → read_quoted (k + k) (quote ∷ []) ≡ some (replicate k backslash)
unfolding read_quoted
read_end k =
    let even : (k + k) % 2 ≡ 0 = omega arith in
    let half : (k + k) / 2 ≡ k = omega arith in rw even (rw half refl)

read_escaped_quote :
    (k : ℕ) (s : Text)
    → read_quoted (suc (k + k)) (quote ∷ s)
      ≡ option_map (λ t. replicate k backslash ++ (quote ∷ t)) (read_quoted 0 s)
unfolding read_quoted
read_escaped_quote k s =
    let odd : (suc (k + k)) % 2 ≡ 1 = omega arith in
    let half : (suc (k + k)) / 2 ≡ k = omega arith in rw odd (rw half refl)

read_plain :
    (n c : ℕ) (s : Text)
    → (c == backslash) ≡ false
    → (c == quote) ≡ false
    → read_quoted n (c ∷ s) ≡ option_map (λ t. replicate n backslash ++ (c ∷ t)) (read_quoted 0 s)
unfolding read_quoted
read_plain n c s b q = rw b (rw q refl)

-- Reading a run of backslashes, a code unit and the rest of an argument.
read_parts :
    (n c : ℕ) (s t : Text)
    → s ≡ replicate n backslash ++ (c ∷ t)
    → read_quoted 0 (s ++ quote ∷ []) ≡ read_quoted n (c ∷ (t ++ quote ∷ []))
read_parts n c s t e =
    let n0 : n + 0 ≡ n = omega arith in
    ap (λ u. read_quoted 0 (u ++ quote ∷ [])) e
    ∙ ap (read_quoted 0) (append_assoc (replicate n backslash) (c ∷ t) (quote ∷ []))
    ∙ read_run n 0 (c ∷ (t ++ quote ∷ []))
    ∙ ap (λ m. read_quoted m (c ∷ (t ++ quote ∷ []))) n0

read_escaped :
    (val : Text) (k : ℕ)
    → read_quoted 0 (escaped k val ++ quote ∷ []) ≡ some (replicate k backslash ++ val)
read_escaped [] k =
    let n0 : (k + k) + 0 ≡ k + k = omega arith in
    ap (λ t. read_quoted 0 (t ++ quote ∷ [])) (escaped-nil k)
    ∙ read_run (k + k) 0 (quote ∷ [])
    ∙ ap (λ m. read_quoted m (quote ∷ [])) n0
    ∙ read_end k
    ∙ ap some (sym (append-nil (replicate k backslash)))
read_escaped (c ∷ s) k =
    let rest = read_escaped s 0 in
    let run = read_escaped s (suc k) in
    elim (Bool-cases (c == backslash)) [
      | inl b ↦
          let e : c ≡ backslash = (==_iff c backslash).0 b in
          rw e (
            ap (λ t. read_quoted 0 (t ++ quote ∷ [])) (escaped-backslash k s)
            ∙ run
            ∙ ap some (replicate-snoc k s))
      | inr b ↦ elim (Bool-cases (c == quote)) [
        | inl q ↦
            let e : c ≡ quote = (==_iff c quote).0 q in
            rw e (
              read_parts (suc (k + k)) quote (escaped k (quote ∷ s)) (escaped 0 s)
                (escaped-quote k s)
              ∙ read_escaped_quote k (escaped 0 s ++ quote ∷ [])
              ∙ ap (option_map (λ t. replicate k backslash ++ (quote ∷ t))) rest)
        | inr q ↦
            read_parts k c (escaped k (c ∷ s)) (escaped 0 s) (escaped-plain k c s b q)
            ∙ read_plain k c (escaped 0 s ++ quote ∷ []) b q
            ∙ ap (option_map (λ t. replicate k backslash ++ (c ∷ t))) rest
      ]
    ]

-- An argument that is escaped and put on a command line of Windows is read back as it was: cmd.exe,
-- which takes the carets away, leaves one argument of a program, and the C runtime reads the value
-- out of it, with all of its quotes, backslashes and meta characters, where cmd.exe takes a line feed
-- as text and expands no variable between percent signs.
pub read_command_line-escape_shell_argument :
    (val : Text) → read_command_line (escape_shell_argument val) ≡ some val
unfolding escape_shell_argument read_argument
read_command_line-escape_shell_argument val =
    ap read_line (read_carets-escape_meta (quote ∷ (escaped 0 val ++ quote ∷ [])))
    ∙ read_escaped val 0
