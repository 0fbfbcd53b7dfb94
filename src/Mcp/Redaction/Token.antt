-- ===== src/Mcp/Redaction/Token.antt =====
-- The token of a repeater is left in no message.
use bright_cli.Prelude.{
  distinct, ◌≡◌, refl, sym, ap, subst, ◌∙◌, true, false, ◌||◌, Option, none, some, List, [], ◌∷◌,
  Text, includes, is_empty, split_at, Bool-cases, inl, inr, text_eq, text_eq_iff, text_eq_refl,
  arith,
}
use bright_cli.Mcp.Redaction.{
  RunInput, args_with, args_for, resolve_token, build_args, collect_sensitive_values, add_value,
  redact_with,
}
use bright_cli.Mcp.Redaction.Contains.{contains, IsClean}
use bright_cli.Mcp.Redaction.Hides.{redact_with-hides}

some_injective : {A : Type 0} {a b : A} → some a ≡ some b → a ≡ b
some_injective h = cc

includes-distinct :
    (seen values : List Text) (p : Text)
    → includes values p ≡ true
    → (includes seen p || includes (distinct seen values) p) ≡ true
unfolding distinct includes
includes-distinct seen [] p h = cc
includes-distinct seen (v ∷ values) p h =
    let same = includes-distinct seen values p in
    let rest = includes-distinct (v ∷ seen) values p in
    elim (Bool-cases (text_eq v p)) [
      | inl e ↦
          let at_v : includes seen v ≡ includes seen p =
            ap (includes seen) ((text_eq_iff v p).0 e) in
          ground arith
      | inr n ↦ let same' = same (ground arith) in let rest' = rest (ground arith) in ground arith
    ]

includes-args_with :
    (input : RunInput) (hostname : Option Text) (token : Text)
    → is_empty token ≡ false
    → includes
        (collect_sensitive_values (args_with (record input { hostname = hostname }) token))
        token
      ≡ true
unfolding collect_sensitive_values add_value includes text_eq split_at
includes-args_with input none token full = rw full (rw (text_eq_refl token) refl)
includes-args_with input (some hostname) token full = rw full (rw (text_eq_refl token) refl)

-- The same, of the arguments that are made of an input and a token.
pub redact_with-args_with :
    (input : RunInput) (token message : Text)
    → IsClean token
    → contains
        (redact_with (distinct [] (collect_sensitive_values (args_with input token))) message)
        token
      ≡ false
unfolding includes
redact_with-args_with input token message clean =
    redact_with-hides (distinct [] (collect_sensitive_values (args_with input token))) message token
      clean
      (includes-distinct [] (collect_sensitive_values (args_with input token)) token
        (includes-args_with input input.hostname token clean.2))

-- The token of a repeater, where it has no bracket and is no part of the word `Filtered`, is in no
-- message that is redacted with the secrets of the repeater's command line, whatever its id and host
-- name are.
pub redact_with-token :
    (input : RunInput) (given of_environment : Option Text) (token message : Text)
    (args : List Text)
    → resolve_token given of_environment ≡ some token
    → build_args input given of_environment ≡ some args
    → IsClean token
    → contains (redact_with (distinct [] (collect_sensitive_values args)) message) token ≡ false
unfolding build_args includes
redact_with-token input given of_environment token message args t a clean =
    let same : args_with input token ≡ args = some_injective (sym (ap (args_for input) t) ∙ a) in
    subst
      (λ l. contains (redact_with (distinct [] (collect_sensitive_values l)) message) token ≡ false)
      same (redact_with-args_with input token message clean)

-- The arguments of a command line are those of the input with some token.
pub build_args-args_with :
    (input : RunInput) (given of_environment : Option Text) (args : List Text)
    → build_args input given of_environment ≡ some args
    → (token : Text) × (args ≡ args_with input token)
unfolding build_args
build_args-args_with input given of_environment args h =
    of_token (resolve_token given of_environment) h
  where
    of_token :
        (o : Option Text)
        → args_for input o ≡ some args
        → (token : Text) × (args ≡ args_with input token)
    of_token none h = cc
    of_token (some token) h = (token, some_injective (sym h))
