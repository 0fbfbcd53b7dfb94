-- ===== src/Archive/Validators.antt =====
-- src/Archive/Validators: what the validators of archives make of a document. The schemas of the package
-- ajv, the versions of the package semver, the parser of URLs and the directory of a path are parameters.
pub mod Accepted
use bright_cli.Prelude.{
  ℕ, Bool, true, false, not, ◌&&◌, ◌||◌, ◌==◌, Option, none, some, List, [], ◌∷◌, ◌++◌, Text, codes,
  is_empty, includes, starts_with, text_eq, trim, ◌⊎◌, inl, inr, if◌then◌else◌,
}

-- A field of a document that should be a text.
pub data Field : Type 0 where
  absent other : Field
  text : Text → Field

-- What the validators read of a document: the versions, the schema of the section `info`, if it is there,
-- and the URLs of the requests in `log.entries`. A document is `none` where it is null.
pub record Document : Type 0 where
  pub openapi : Field
  pub swagger : Field
  pub info_schema : Option (Option Text)
  pub entries : Option (List Text)

pub data Schema : Type 0 where
  har_schema swagger_schema openapi_schema : Schema
  postman_schema : Text → Schema

pub data SpecType : Type 0 where
  har openapi_spec postman : SpecType

pub data ValidationError : Type 0 where
  har_corrupted har_empty oas_corrupted postman_corrupted : ValidationError
  no_version no_schema unsupported_swagger unsupported_postman no_collection no_info :
      ValidationError
  -- an error of the platform: of a document that has no such field, or of an argument of a package
  type_error : ValidationError

abbrev min_allowed_version : Text
min_allowed_version = codes "2.0.0"

-- A field that is absent or empty is falsy.
abbrev field_or : Field → Field → Field
field_or absent b = b
field_or other b = other
field_or (text []) b = b
field_or (text (c ∷ s)) b = text (c ∷ s)

-- `VERSION_SCHEMA_MAP`
abbrev pub version_schema : ℕ → Option Schema
version_schema major =
    if major == 2 then some swagger_schema else if major == 3 then some openapi_schema else none

abbrev pub allowed_schemas : List Text
allowed_schemas =
    codes "https://schema.getpostman.com/json/draft-07/collection/v2.0.0/"
    ∷ codes "https://schema.getpostman.com/json/draft-07/collection/v2.1.0/"
    ∷ codes "https://schema.getpostman.com/json/collection/v2.0.0/"
    ∷ codes "https://schema.getpostman.com/json/collection/v2.1.0/"
    ∷ []

-- Functions of packages and of the platform; `none` is that they throw.
pub record Packages : Type 0 where
  pub schema_accepts : Schema → Option Document → Bool
  -- `ajv.getSchema` finds a schema of this id
  pub has_schema : Text → Bool
  pub semver_valid : Text → Bool
  pub semver_major : Text → Option ℕ
  pub semver_gte : Text → Text → Bool
  pub dir_of : Text → Text
  -- the host and the protocol
  pub parse_url : Text → Option (Text × Text)

-- `parseEntry`, of the host and the protocol
unfoldable pub is_target : Text × Text → Bool
is_target (host, protocol) =
    not (is_empty host || is_empty protocol) && not (text_eq protocol (codes "chrome-extension:"))

abbrev pub add_target : Text → Option (Text × Text) → Option (List Text) → Option (List Text)
add_target url none targets = none
add_target url (some parts) none = none
add_target url (some parts) (some urls) =
    if is_target parts && not (is_empty url) then some (url ∷ urls) else some urls

abbrev pub targets_error : Option (List Text) → Option ValidationError
targets_error none = some type_error
targets_error (some []) = some har_empty
targets_error (some (url ∷ urls)) = none

module _ (p : Packages) where
  -- The URLs of `entriesAreValid`; whether there are any is the same for the set of them.
  unfoldable pub target_urls : List Text → Option (List Text)
  target_urls [] = some []
  target_urls (url ∷ urls) = add_target url (p.parse_url url) (target_urls urls)

  abbrev pub entries_error : Option Document → Option ValidationError
  entries_error none = some type_error
  entries_error (some doc) = elim doc.entries [
    | none ↦ some har_empty
    | some urls ↦ targets_error (target_urls urls)
  ]

  -- `HarValidator.validate`; `none` is that it accepts.
  unfoldable pub validate_har : Option Document → Option ValidationError
  validate_har doc =
      if p.schema_accepts har_schema doc then entries_error doc else some har_corrupted

  abbrev pub version_of_text : Text → ValidationError ⊎ Text
  version_of_text version =
      if is_empty version
      then inl no_version
      else if not (p.semver_valid version) && starts_with min_allowed_version version
      then inr min_allowed_version
      else inr version

  abbrev pub version_of_field : Field → ValidationError ⊎ Text
  version_of_field absent = inl no_version
  version_of_field other = inl type_error
  version_of_field (text version) = version_of_text (trim version)

  -- `getVersion`
  unfoldable pub get_version : Option Document → ValidationError ⊎ Text
  get_version none = inl type_error
  get_version (some doc) = version_of_field (field_or doc.openapi doc.swagger)

  -- The end of `OasValidator.validate`, with `validateVersion`, for the schema of the version
  abbrev pub oas_error : Option Document → Text → Option Schema → Option ValidationError
  oas_error doc version none = some no_schema
  oas_error doc version (some schema) =
      if not (p.semver_gte version min_allowed_version)
      then some unsupported_swagger
      else if p.schema_accepts schema doc
      then none
      else some oas_corrupted

  abbrev pub major_error : Option Document → Text → Option ℕ → Option ValidationError
  major_error doc version none = some type_error
  major_error doc version (some major) = oas_error doc version (version_schema major)

  abbrev pub version_error : Option Document → ValidationError ⊎ Text → Option ValidationError
  version_error doc (inl e) = some e
  version_error doc (inr version) = major_error doc version (p.semver_major version)

  -- `OasValidator.validate`
  unfoldable pub validate_oas : Option Document → Option ValidationError
  validate_oas doc = version_error doc (get_version doc)

  abbrev pub schema_id : Option Text → Text
  schema_id none = []
  schema_id (some []) = []
  schema_id (some (c ∷ schema)) = p.dir_of (c ∷ schema) ++ b'/' ∷ []

  abbrev pub postman_error : Option Document → Text → Option ValidationError
  postman_error doc id =
      if not (includes allowed_schemas (trim id))
      then some unsupported_postman
      else if not (p.has_schema id)
      then some no_schema
      else if p.schema_accepts (postman_schema id) doc
      then none
      else some postman_corrupted

  -- `PostmanValidator.validate`
  unfoldable pub validate_postman : Option Document → Option ValidationError
  validate_postman none = some no_collection
  validate_postman (some doc) = elim doc.info_schema [
    | none ↦ some no_info
    | some schema ↦ postman_error (some doc) (schema_id schema)
  ]

  -- The validator that `DefaultParserFactory.create` gives a parser
  unfoldable pub validate_spec : SpecType → Option Document → Option ValidationError
  validate_spec har doc = validate_har doc
  validate_spec openapi_spec doc = validate_oas doc
  validate_spec postman doc = validate_postman doc
