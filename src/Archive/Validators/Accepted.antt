-- ===== src/Archive/Validators/Accepted.antt =====
-- What an accepted document has.
use bright_cli.Prelude.{
  ℕ, ◌≡◌, refl, Bool, true, false, not, ◌==◌, ==_iff, Option, none, some, List, [], ◌∷◌, Text,
  includes, trim, ◌⊎◌, inl, inr, Bool-cases, arith, if◌then◌else◌, codes,
}
use bright_cli.Archive.Validators.{
  Document, Packages, Schema, SpecType, ValidationError, add_target, allowed_schemas, entries_error,
  get_version, har, har_empty, har_schema, is_target, openapi_spec, oas_error, major_error, no_info,
  postman, postman_error, postman_schema, schema_id, target_urls, targets_error, validate_har,
  validate_oas, validate_postman, validate_spec, version_error, version_schema, swagger_schema,
  openapi_schema,
}

pass_two :
    (a b : Bool) (e f : ValidationError)
    → (if not a then some e else if b then none else some f) ≡ none
    → b ≡ true
pass_two false b e f h = cc
pass_two true false e f h = cc
pass_two true true e f h = refl

pass_three :
    (a b c : Bool) (e f g : ValidationError)
    → (if not a then some e else if not b then some f else if c then none else some g) ≡ none
    → (a ≡ true) × (c ≡ true)
pass_three false b c e f g h = cc
pass_three true b c e f g h = (refl, pass_two b c f g h)

module _ (p : Packages) where
  -- One of the URLs is that of a target.
  abbrev pub HasTarget : List Text → Type 0
  HasTarget [] = ⊥
  HasTarget (url ∷ urls) =
      ((parts : Text × Text) × (p.parse_url url ≡ some parts) × (is_target parts ≡ true))
      ⊎ HasTarget urls

  abbrev pub IsAccepted : SpecType → Option Document → Type 0
  IsAccepted har doc =
      (p.schema_accepts har_schema doc ≡ true)
      × ((d : Document) × (urls : List Text) × (doc ≡ some d)
          × (d.entries ≡ some urls)
          × HasTarget urls)
  IsAccepted openapi_spec doc =
      (version : Text) × (major : ℕ) × (get_version p doc ≡ inr version)
      × (p.semver_major version ≡ some major)
      × (((major ≡ 2) × (p.schema_accepts swagger_schema doc ≡ true))
          ⊎ ((major ≡ 3) × (p.schema_accepts openapi_schema doc ≡ true)))
  IsAccepted postman doc =
      (d : Document) × (schema : Option Text) × (doc ≡ some d)
      × (d.info_schema ≡ some schema)
      × (includes allowed_schemas (trim (schema_id p schema)) ≡ true)
      × (p.schema_accepts (postman_schema (schema_id p schema)) doc ≡ true)

  add_target-HasTarget :
      (url : Text) (o : Option (Text × Text)) (t : Option (List Text)) (urls : List Text)
      → p.parse_url url ≡ o
      → targets_error (add_target url o t) ≡ none
      → (targets_error t ≡ none → HasTarget urls)
      → HasTarget (url ∷ urls)
  add_target-HasTarget url none t urls same h rest = cc
  add_target-HasTarget url (some parts) none urls same h rest = cc
  add_target-HasTarget url (some parts) (some ts) urls same h rest =
      elim (Bool-cases (is_target parts)) [
        | inl target ↦ inl (parts, same, target)
        | inr other ↦ inr (rest (ground (arith, other, h)))
      ]

  targets-HasTarget :
      (urls : List Text) → targets_error (target_urls p urls) ≡ none → HasTarget urls
  unfolding target_urls
  targets-HasTarget [] h = cc
  targets-HasTarget (url ∷ urls) h =
      add_target-HasTarget url (p.parse_url url) (target_urls p urls) urls refl h
        (targets-HasTarget urls)

  listed :
      (d : Document) (o : Option (List Text))
      → d.entries ≡ o
      → (elim o as (λ x. Option ValidationError) [
        | none ↦ some har_empty
        | some urls ↦ targets_error (target_urls p urls)
      ])
        ≡ none
      → (e : Document) × (urls : List Text) × (some d ≡ some e)
        × (e.entries ≡ some urls)
        × HasTarget urls
  listed d none same h = cc
  listed d (some urls) same h = (d, urls, refl, same, targets-HasTarget urls h)

  entries-accepted :
      (doc : Option Document)
      → entries_error p doc ≡ none
      → (d : Document) × (urls : List Text) × (doc ≡ some d)
        × (d.entries ≡ some urls)
        × HasTarget urls
  entries-accepted none h = cc
  entries-accepted (some doc) h = listed doc doc.entries refl h

  validate_har-IsAccepted : (doc : Option Document) → validate_har p doc ≡ none → IsAccepted har doc
  unfolding validate_har
  validate_har-IsAccepted doc h = elim (Bool-cases (p.schema_accepts har_schema doc)) [
    | inl accepts ↦ (accepts, entries-accepted doc (ground (arith, accepts, h)))
    | inr refuses ↦ let absurd : ⊥ = ground (arith, refuses, h) in elim absurd [ ]
  ]

  oas_error-accepts :
      (doc : Option Document) (version : Text) (schema : Schema)
      → oas_error p doc version (some schema) ≡ none
      → p.schema_accepts schema doc ≡ true
  oas_error-accepts doc version schema h =
      pass_two (p.semver_gte version (codes "2.0.0")) (p.schema_accepts schema doc) _ _ h

  oas-accepted_by :
      (doc : Option Document) (version : Text) (major : ℕ) (two three : Bool)
      → (major == 2) ≡ two
      → (major == 3) ≡ three
      → oas_error p doc version
          (if two then some swagger_schema else if three then some openapi_schema else none)
        ≡ none
      → ((major ≡ 2) × (p.schema_accepts swagger_schema doc ≡ true))
        ⊎ ((major ≡ 3) × (p.schema_accepts openapi_schema doc ≡ true))
  oas-accepted_by doc version major true three a b h =
      inl ((==_iff major 2).0 a, oas_error-accepts doc version swagger_schema h)
  oas-accepted_by doc version major false true a b h =
      inr ((==_iff major 3).0 b, oas_error-accepts doc version openapi_schema h)
  oas-accepted_by doc version major false false a b h = cc

  oas-accepted :
      (doc : Option Document) (version : Text) (major : ℕ)
      → oas_error p doc version (version_schema major) ≡ none
      → ((major ≡ 2) × (p.schema_accepts swagger_schema doc ≡ true))
        ⊎ ((major ≡ 3) × (p.schema_accepts openapi_schema doc ≡ true))
  oas-accepted doc version major h =
      oas-accepted_by doc version major (major == 2) (major == 3) refl refl h

  major-IsAccepted :
      (doc : Option Document) (version : Text) (o : Option ℕ)
      → p.semver_major version ≡ o
      → get_version p doc ≡ inr version
      → major_error p doc version o ≡ none
      → IsAccepted openapi_spec doc
  major-IsAccepted doc version none same v h = cc
  major-IsAccepted doc version (some major) same v h =
      (version, major, v, same, oas-accepted doc version major h)

  version-IsAccepted :
      (doc : Option Document) (o : ValidationError ⊎ Text)
      → get_version p doc ≡ o
      → version_error p doc o ≡ none
      → IsAccepted openapi_spec doc
  version-IsAccepted doc (inl e) same h = cc
  version-IsAccepted doc (inr version) same h =
      major-IsAccepted doc version (p.semver_major version) refl same h

  postman-accepted :
      (doc : Option Document) (id : Text)
      → postman_error p doc id ≡ none
      → (includes allowed_schemas (trim id) ≡ true)
        × (p.schema_accepts (postman_schema id) doc ≡ true)
  postman-accepted doc id h =
      pass_three (includes allowed_schemas (trim id)) (p.has_schema id)
        (p.schema_accepts (postman_schema id) doc) _ _ _ h

  informed :
      (d : Document) (o : Option (Option Text))
      → d.info_schema ≡ o
      → (elim o as (λ x. Option ValidationError) [
        | none ↦ some no_info
        | some schema ↦ postman_error p (some d) (schema_id p schema)
      ])
        ≡ none
      → IsAccepted postman (some d)
  informed d none same h = cc
  informed d (some schema) same h =
      let (allowed, accepts) = postman-accepted (some d) (schema_id p schema) h in
      (d, schema, refl, same, allowed, accepts)

  -- A document that a validator accepts is one that it is meant to accept.
  pub validate_spec-IsAccepted :
      (spec : SpecType) (doc : Option Document)
      → validate_spec p spec doc ≡ none
      → IsAccepted spec doc
  unfolding validate_spec validate_oas validate_postman
  validate_spec-IsAccepted har doc h = validate_har-IsAccepted doc h
  validate_spec-IsAccepted openapi_spec doc h = version-IsAccepted doc (get_version p doc) refl h
  validate_spec-IsAccepted postman none h = cc
  validate_spec-IsAccepted postman (some d) h = informed d d.info_schema refl h
