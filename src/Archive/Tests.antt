-- ===== src/Archive/Tests.antt =====
-- The theorem of the parsers of archives at a concrete input, and tests of the validators.
use bright_cli.Prelude.{
  ◌≡◌, refl, true, none, some, [], ◌∷◌, codes, trim, text_eq, starts_with, inl, inr, is_space,
  if◌then◌else◌,
}
use bright_cli.Archive.Validators.{
  Document, Packages, absent, get_version, har, is_target, other, target_urls, text, type_error,
  validate_har, validate_oas, validate_spec,
}
use bright_cli.Archive.Parser.{File, Platform, content_type_of, deserialize, parse_archive}
use bright_cli.Archive.Parser.Sound.{IsParsed, parse_archive-IsParsed}

abbrev empty_document : Document
empty_document = record { openapi = absent; swagger = absent; info_schema = none; entries = none }

abbrev har_document : Document
har_document = record empty_document {
  entries = some (codes "chrome-extension://x" ∷ codes "http://a" ∷ []);
}

abbrev swagger_document : Document
swagger_document = record empty_document { swagger = text (codes "2.0") }

abbrev packages : Packages
packages = record {
  schema_accepts = λ schema doc. true;
  has_schema = λ id. true;
  semver_valid = λ version. text_eq version (codes "2.0.0");
  semver_major = λ version. if text_eq version (codes "2.0.0") then some 2 else none;
  semver_gte = λ a b. true;
  dir_of = λ path. path;
  parse_url = λ url. some (
    codes "a",
    if starts_with url (codes "chrome") then codes "chrome-extension:" else codes "http:",
  );
}

abbrev platform : Platform
platform = record {
  accessible = λ path. true;
  stat_size = λ path. inr 40;
  read_file = λ path. inr (codes "{}");
  parse_json = λ content. inr (some har_document);
  load_yaml = λ content. inl (codes "not used");
  basename = λ path. path;
  extname = λ path. codes ".har";
}

abbrev parsed : File
parsed = record {
  content = codes "{}";
  filename = codes "a.har";
  content_type = codes "application/json";
}

parse_archive-IsParsed_example : IsParsed platform packages har (codes "a.har") parsed
unfolding parse_archive validate_spec validate_har target_urls is_target text_eq starts_with
    deserialize content_type_of
parse_archive-IsParsed_example =
    parse_archive-IsParsed platform packages har (codes "a.har") parsed refl

short_version : validate_oas packages (some swagger_document) ≡ none
unfolding validate_oas get_version trim is_space starts_with text_eq
short_version = refl

-- A version that YAML reads as a number is no text.
number_version :
    validate_oas packages (some (record empty_document { swagger = other })) ≡ some type_error
unfolding validate_oas get_version
number_version = refl
