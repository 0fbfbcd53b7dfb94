-- ===== src/RequestExecutor/Http/Curl/Fields.antt =====
-- The header lines that a configured handle sends, as a server reads them.
use bright_cli.Prelude.{
  ◌≡◌, ◌≢◌, refl, ap, Bool, true, false, not, ◌&&◌, ◌||◌, ◌==◌, ◌⊎◌, ◌↔◌, inl, inr, Bool-cases,
  List, [], ◌∷◌, ◌++◌, map, Text, codes, text_eq, text_eq_iff, lower_code, to_lower, any, All,
  arith, if◌then◌else◌,
}
use mathlib.Core.List.{map-append}
use bright_cli.RequestExecutor.Options.{HeaderValue, absent, one, several, Headers, Request}
use bright_cli.RequestExecutor.Http.{HttpRequestExecutor, should_apply_kerberos}
use bright_cli.RequestExecutor.Http.Curl.{
  Platform, has_header, header_line, build_curl_headers, extra_lines, hostname, shares_connection,
}

-- A field of a message: its name and its value.
abbrev pub HeaderField : Type 0
HeaderField = Text × Text

-- A line is cut at its first colon.
abbrev cut_colon : Text → HeaderField
cut_colon [] = ([], [])
cut_colon (c ∷ t) = let (n, v) = cut_colon t in if c == 58 then ([], t) else (c ∷ n, v)

abbrev without_space : Text → Text
without_space [] = []
without_space (c ∷ t) = if c == 32 then t else c ∷ t

abbrev pub read_field : Text → HeaderField
read_field line = let (name, value) = cut_colon line in (name, without_space value)

abbrev pub HasNoColon : Text → Type 0
HasNoColon name = any (λ c. c == 58) name ≡ false

-- The fields that headers stand for: those of each name that is not empty, one for each of its
-- values, and one without a value where there is none, in order.
pub data AreFields : Headers → List HeaderField → Type 0 where
  no_headers : AreFields [] []
  unnamed :
      (value : HeaderValue) (rest : Headers) (fields : List HeaderField)
      → AreFields rest fields
      → AreFields (([], value) ∷ rest) fields
  without_value :
      (name : Text) (rest : Headers) (fields : List HeaderField)
      → name ≢ []
      → AreFields rest fields
      → AreFields ((name, absent) ∷ rest) ((name, []) ∷ fields)
  with_value :
      (name value : Text) (rest : Headers) (fields : List HeaderField)
      → name ≢ []
      → AreFields rest fields
      → AreFields ((name, one value) ∷ rest) ((name, value) ∷ fields)
  no_values :
      (name : Text) (rest : Headers) (fields : List HeaderField)
      → AreFields rest fields
      → AreFields ((name, several []) ∷ rest) fields
  more_values :
      (name value : Text) (values : List Text) (rest : Headers) (fields : List HeaderField)
      → name ≢ []
      → AreFields ((name, several values) ∷ rest) fields
      → AreFields ((name, several (value ∷ values)) ∷ rest) ((name, value) ∷ fields)

-- A header has the name, in any case of its letters.
abbrev pub Names : Text → Headers → Type 0
Names name [] = ⊥
Names name (e ∷ rest) = (to_lower e.0 ≡ to_lower name) ⊎ Names name rest

-- A field is added where it is needed and no header has its name.
pub data IsAdded (headers : Headers) (name value : Text) : Bool → List HeaderField → Type 0 where
  added : ¬ Names name headers → IsAdded headers name value true ((name, value) ∷ [])
  given_by : (needed : Bool) → Names name headers → IsAdded headers name value needed []
  unneeded : IsAdded headers name value false []

cut_colon-line :
    (name value : Text) → HasNoColon name → cut_colon (name ++ 58 ∷ value) ≡ (name, value)
cut_colon-line [] value h = refl
cut_colon-line (c ∷ name) value h =
    let other : (c == 58) ≡ false = ground (arith, h) in
    let rest : HasNoColon name = ground (arith, h) in
    rw other (rw (cut_colon-line name value rest) refl)

read_field-header_line :
    (name value : Text) → HasNoColon name → read_field (header_line name value) ≡ (name, value)
read_field-header_line name value h = rw (cut_colon-line name (32 ∷ value) h) refl

-- The lines of the headers are read as the fields that the headers stand for.
pub read_field-build_curl_headers :
    (headers : Headers)
    → All (λ e. HasNoColon e.0) headers
    → AreFields headers (map read_field (build_curl_headers headers))
unfolding build_curl_headers
read_field-build_curl_headers [] h = no_headers
read_field-build_curl_headers (([], value) ∷ rest) (h, hs) =
    unnamed value rest _ (read_field-build_curl_headers rest hs)
read_field-build_curl_headers ((c ∷ name, absent) ∷ rest) (h, hs) =
    rw (read_field-header_line (c ∷ name) [] h)
      (without_value (c ∷ name) rest _ (λ e. cc) (read_field-build_curl_headers rest hs))
read_field-build_curl_headers ((c ∷ name, one value) ∷ rest) (h, hs) =
    rw (read_field-header_line (c ∷ name) value h)
      (with_value (c ∷ name) value rest _ (λ e. cc) (read_field-build_curl_headers rest hs))
read_field-build_curl_headers ((c ∷ name, several []) ∷ rest) (h, hs) =
    no_values (c ∷ name) rest _ (read_field-build_curl_headers rest hs)
read_field-build_curl_headers ((c ∷ name, several (value ∷ values)) ∷ rest) (h, hs) =
    rw (read_field-header_line (c ∷ name) value h) (
      more_values (c ∷ name) value values rest _ (λ e. cc)
        (read_field-build_curl_headers ((c ∷ name, several values) ∷ rest) (h, hs)))

has_header-Names :
    (headers : Headers) (name : Text) → (has_header headers name ≡ true) ↔ Names name headers
unfolding has_header
has_header-Names [] name = (λ h. cc, λ n. absurd n)
has_header-Names (e ∷ rest) name =
    let same = text_eq_iff (to_lower e.0) (to_lower name) in
    let later = has_header-Names rest name in
    elim (Bool-cases (text_eq (to_lower e.0) (to_lower name))) [
      | inl p ↦ (λ h. inl (same.0 p), λ n. rw p refl)
      | inr p ↦ (
        λ h. inr (later.0 (ground (arith, h, p))),
        λ n. elim n [ inl q ↦ absurd (ground (arith, p, same.1 q)) | inr m ↦ rw p (later.1 m) ],
      )
    ]

abbrev pub added_field : Headers → Text → Text → Bool → List HeaderField
added_field headers name value needed =
    if needed && not (has_header headers name) then (name, value) ∷ [] else []

pub added_field-IsAdded :
    (headers : Headers) (name value : Text) (needed : Bool)
    → IsAdded headers name value needed (added_field headers name value needed)
added_field-IsAdded headers name value false = unneeded
added_field-IsAdded headers name value true = elim (Bool-cases (has_header headers name)) [
  | inl h ↦ rw h (given_by true ((has_header-Names headers name).0 h))
  | inr h ↦ rw h (added (λ n. absurd (ground (arith, h, (has_header-Names headers name).1 n))))
]

module _ (platform : Platform) (x : HttpRequestExecutor) (request : Request) where
  -- The lines that are added are read as the fields that are added.
  pub extra_lines-fields :
      (before : List Text)
      → map read_field (before ++ extra_lines platform x request)
        ≡ map read_field before
          ++ (added_field request.headers
                (codes "Connection")
                (codes "close")
                (not (shares_connection platform x request))
              ++ added_field request.headers
                  (codes "Accept-Encoding")
                  (codes "identity")
                  (not request.decompress))
  unfolding extra_lines shares_connection has_header to_lower lower_code
  extra_lines-fields before = rw map-append (
      ap (λ l. map read_field before ++ l)
        (read_extra x.options.reuse_connection
          (should_apply_kerberos x (hostname platform x request))
          (has_header request.headers (codes "connection")) request.decompress
          (has_header request.headers (codes "accept-encoding"))))
    where
      read_extra :
          (reuse kerberos has_connection decompress has_encoding : Bool)
          → map read_field (
              (if not reuse && (not kerberos && not has_connection)
                then codes "Connection: close" ∷ []
                else [])
              ++ (if decompress
                  then []
                  else if not has_encoding
                  then codes "Accept-Encoding: identity" ∷ []
                  else []))
            ≡ (if not (reuse || kerberos) && not has_connection
                then (codes "Connection", codes "close") ∷ []
                else [])
              ++ (if not decompress && not has_encoding
                  then (codes "Accept-Encoding", codes "identity") ∷ []
                  else [])
      read_extra reuse kerberos has_connection decompress has_encoding = ground arith
