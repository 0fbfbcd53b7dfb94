-- ===== src/Archive/Parser/Sound.antt =====
-- What a parsed archive is.
use bright_cli.Prelude.{
  ℕ, ◌≡◌, ◌≤◌, refl, sym, ap, ◌∙◌, Bool, true, false, Option, none, some, Text, is_empty, ltb, ◌⊎◌,
  inl, inr, arith, if◌then◌else◌,
}
use bright_cli.Archive.Validators.{Document, Packages, SpecType, ValidationError, validate_spec}
use bright_cli.Archive.Validators.Accepted.{IsAccepted, validate_spec-IsAccepted}
use bright_cli.Archive.Parser.{
  File, ParseError, Platform, deserialize, file_if, file_size_limit, parse_archive, read_document,
  read_if_small, validate_document,
}

module _ (f : Platform) (p : Packages) (spec : SpecType) (path : Text) (file : File) where
  -- The file has the content at the path, of a size within the limit, and reads as a document that the
  -- type of archive accepts.
  abbrev pub IsParsed : Type 0
  IsParsed =
      (size : ℕ) × (doc : Option Document) × (f.accessible path ≡ true)
      × (f.stat_size path ≡ inr size)
      × (size ≤ file_size_limit)
      × (f.read_file path ≡ inr file.content)
      × (deserialize f spec file.content (f.extname path) ≡ inr doc)
      × IsAccepted p spec doc

  abbrev IsRead : Type 0
  IsRead =
      (doc : Option Document) × (f.read_file path ≡ inr file.content)
      × (deserialize f spec file.content (f.extname path) ≡ inr doc)
      × IsAccepted p spec doc

  file_if-accepted :
      (content : Text) (o : Option ValidationError)
      → file_if f path content o ≡ inr file
      → (o ≡ none) × (content ≡ file.content)
  file_if-accepted content (some e) h = cc
  file_if-accepted content none h = (refl, cc)

  validated :
      (content : Text) (o : Text ⊎ Option Document)
      → f.read_file path ≡ inr content
      → deserialize f spec content (f.extname path) ≡ o
      → validate_document f p spec path content o ≡ inr file
      → IsRead
  validated content (inl message) r d h = cc
  validated content (inr doc) r d h =
      let (accepted, same) = file_if-accepted content (validate_spec p spec doc) h in
      (
        doc,
        r ∙ ap (λ c. inr c) same,
        sym (ap (λ c. deserialize f spec c (f.extname path)) same) ∙ d,
        validate_spec-IsAccepted p spec doc accepted,
      )

  document_read :
      (o : Text ⊎ Text) → f.read_file path ≡ o → read_document f p spec path o ≡ inr file → IsRead
  document_read (inl message) r h = cc
  document_read (inr content) r h =
      validated content (deserialize f spec content (f.extname path)) r refl h

  if-small :
      (b : Bool) (e : ParseError) (r : ParseError ⊎ File)
      → (if b then inl e else r) ≡ inr file
      → (b ≡ false) × (r ≡ inr file)
  if-small true e r h = cc
  if-small false e r h = (refl, h)

  small :
      (o : Text ⊎ ℕ)
      → f.accessible path ≡ true
      → f.stat_size path ≡ o
      → read_if_small f p spec path o ≡ inr file
      → IsParsed
  small (inl message) found s h = cc
  small (inr size) found s h =
      let (within, rest) = if-small (ltb file_size_limit size) _ _ h in
      let (doc, content, d, accepted) = document_read (f.read_file path) refl rest in
      (size, doc, found, s, ground (arith, within), content, d, accepted)

  if-found :
      (b : Bool) (e : ParseError) (r : ParseError ⊎ File)
      → (if b then r else inl e) ≡ inr file
      → (b ≡ true) × (r ≡ inr file)
  if-found true e r h = (refl, h)
  if-found false e r h = cc

  -- A file that the parser of a type of archive returns has the whole content at the path, which is
  -- there and has at most 500 MB, and reads as a document of the type: for HAR, one of the schema with a
  -- request to a target; for a specification, one of version 2 or 3 and of the schema of its version; for
  -- Postman, one whose schema is among the allowed ones and takes it.
  pub parse_archive-IsParsed : parse_archive f p spec path ≡ inr file → IsParsed
  unfolding parse_archive
  parse_archive-IsParsed h =
      let named = if-small (is_empty path) _ _ h in
      let (found, rest) = if-found (f.accessible path) _ _ named.1 in
      small (f.stat_size path) found refl rest
