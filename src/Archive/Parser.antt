-- ===== src/Archive/Parser.antt =====
-- `BaseParser` and `OasParser` of src/Archive/Parsers, with the validators. The file system, the readers of
-- JSON and YAML and the functions on paths are parameters.
pub mod Sound
use bright_cli.Prelude.{
  ℕ, Bool, true, false, not, ◌*◌, ◌^◌, ◌||◌, Option, none, some, Text, codes, is_empty, text_eq,
  ltb, ◌⊎◌, inl, inr, if◌then◌else◌,
}
use bright_cli.Archive.Validators.{
  Document, Packages, SpecType, ValidationError, har, openapi_spec, postman, validate_spec,
}

pub record File : Type 0 where
  pub content : Text
  pub filename : Text
  pub content_type : Text

pub data ParseError : Type 0 where
  path_is_invalid no_storage : ParseError
  not_found : Text → ParseError
  file_is_invalid : Text → ParseError
  not_valid : ValidationError → ParseError
  platform_error : Text → ParseError

-- The platform: `access`, the size of `stat`, `readFile`, the readers of documents, with the messages of
-- their errors, and `basename` and `extname`.
pub record Platform : Type 0 where
  pub accessible : Text → Bool
  pub stat_size : Text → Text ⊎ ℕ
  pub read_file : Text → Text ⊎ Text
  pub parse_json : Text → Text ⊎ Option Document
  pub load_yaml : Text → Text ⊎ Option Document
  pub basename : Text → Text
  pub extname : Text → Text

abbrev pub file_size_limit : ℕ
file_size_limit = 500 * 1024 ^ 2

abbrev is_yaml : Text → Bool
is_yaml ext = text_eq ext (codes ".yml") || text_eq ext (codes ".yaml")

-- `contentType`
unfoldable pub content_type_of : Text → Text
content_type_of ext = if is_yaml ext then codes "application/yaml" else codes "application/json"

module _ (f : Platform) where
  -- `deserialize`, that of `OasParser` for a specification
  unfoldable pub deserialize : SpecType → Text → Text → Text ⊎ Option Document
  deserialize openapi_spec content ext =
      if is_yaml ext then f.load_yaml content else f.parse_json content
  deserialize har content ext = f.parse_json content
  deserialize postman content ext = f.parse_json content

  -- The file that is returned, for what the validator says
  abbrev pub file_if : Text → Text → Option ValidationError → ParseError ⊎ File
  file_if path content (some e) = inl (not_valid e)
  file_if path content none = inr (record {
    content = content;
    filename = f.basename path;
    content_type = content_type_of (f.extname path);
  })

  abbrev pub validate_document :
      Packages → SpecType → Text → Text → Text ⊎ Option Document → ParseError ⊎ File
  validate_document p spec path content (inl message) = inl (file_is_invalid message)
  validate_document p spec path content (inr doc) = file_if path content (validate_spec p spec doc)

  abbrev pub read_document : Packages → SpecType → Text → Text ⊎ Text → ParseError ⊎ File
  read_document p spec path (inl message) = inl (platform_error message)
  read_document p spec path (inr content) =
      validate_document p spec path content (deserialize spec content (f.extname path))

  abbrev pub read_if_small : Packages → SpecType → Text → Text ⊎ ℕ → ParseError ⊎ File
  read_if_small p spec path (inl message) = inl (platform_error message)
  read_if_small p spec path (inr size) =
      if ltb file_size_limit size
      then inl no_storage
      else read_document p spec path (f.read_file path)

  -- `parse` of the parser that the factory creates for a type, with `access`
  unfoldable pub parse_archive : Packages → SpecType → Text → ParseError ⊎ File
  parse_archive p spec path =
      if is_empty path
      then inl path_is_invalid
      else if f.accessible path
      then read_if_small p spec path (f.stat_size path)
      else inl (not_found (f.basename path))
