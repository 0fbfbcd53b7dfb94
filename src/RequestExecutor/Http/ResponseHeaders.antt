-- ===== src/RequestExecutor/Http/ResponseHeaders.antt =====
-- `parseCurlHeaders` of src/RequestExecutor/HttpRequestExecutor.ts, on the header blocks that curl
-- reports, each with an entry `result` for the status line.
use bright_cli.Prelude.{
  ◌≡◌, refl, Bool, true, false, not, ◌&&◌, Option, none, some, List, [], ◌∷◌, Text, codes, text_eq,
  to_lower, lookup, insert, lookup-insert, either, if◌then◌else◌, Bool-cases, inl, inr, ap, sym,
  ◌∙◌,
}
use bright_cli.RequestExecutor.Options.{Headers, HeaderValue}

-- The last block, or an empty one.
abbrev pub last_headers : List Headers → Headers
last_headers [] = []
last_headers (h ∷ []) = h
last_headers (h ∷ g ∷ rest) = last_headers (g ∷ rest)

-- The loop over the entries of the block.
unfoldable pub collect_headers : Headers → Headers → Headers
collect_headers result [] = result
collect_headers result ((key, val) ∷ rest) =
    collect_headers
      (if text_eq key (codes "result") then result else insert (to_lower key) val result) rest

unfoldable pub parse_curl_headers : List Headers → Headers
parse_curl_headers raw_headers = collect_headers [] (last_headers raw_headers)

-- The value of the last entry, but for `result`, that has the name up to the case of its letters.
abbrev pub last_value : Text → Headers → Option HeaderValue
last_value name [] = none
last_value name ((key, val) ∷ rest) =
    either (last_value name rest)
      (if not (text_eq key (codes "result")) && text_eq name (to_lower key) then some val else none)

either-none : {A : Type 0} (a : Option A) → either a none ≡ a
either-none none = refl
either-none (some a) = refl

either-if :
    {A : Type 0} (a : Option A) (test : Bool) (value : A) (b : Option A)
    → either a (if test then some value else b)
      ≡ either (either a (if test then some value else none)) b
either-if none true value b = refl
either-if none false value b = refl
either-if (some a) test value b = refl

lookup-collect_headers :
    (name : Text) (result entries : Headers)
    → lookup name (collect_headers result entries)
      ≡ either (last_value name entries) (lookup name result)
unfolding collect_headers
lookup-collect_headers name result [] = refl
lookup-collect_headers name result ((key, val) ∷ rest) =
    elim (Bool-cases (text_eq key (codes "result"))) [
      | inl status ↦ rw status (
          rw (lookup-collect_headers name result rest)
            (ap (λ o. either o (lookup name result)) (sym (either-none (last_value name rest)))))
      | inr field ↦ rw field (
          lookup-collect_headers name (insert (to_lower key) val result) rest
          ∙ rw (lookup-insert (to_lower key) name val result) (
              either-if (last_value name rest) (text_eq name (to_lower key)) val
                (lookup name result)))
    ]

-- The value of a name in lower case is that of the last entry of the last block that has the name
-- up to the case of its letters, but for the entry `result`.
pub lookup-parse_curl_headers :
    (name : Text) (raw_headers : List Headers)
    → lookup name (parse_curl_headers raw_headers) ≡ last_value name (last_headers raw_headers)
unfolding parse_curl_headers lookup
lookup-parse_curl_headers name raw_headers =
    lookup-collect_headers name [] (last_headers raw_headers)
    ∙ either-none (last_value name (last_headers raw_headers))
