-- ===== src/Utils/Cluster.antt =====
-- `getClusterUrls`, `parseHeaders`, `omit` and `selectEnumValue` of src/Utils/Helpers.ts. The parser
-- of URLs, which gives the `host` of one, and the decoder of URI components are parameters.
use bright_cli.Prelude.{
  ℕ, ◌≡◌, refl, Option, none, some, List, [], ◌∷◌, ◌++◌, Text, codes, text_eq, includes, is_empty,
  to_lower, trim, split_at, join, is_space, find_by, Assoc, insert, either, or_else, option_map,
  if◌then◌else◌,
}

pub record ClusterUrls : Type 0 where
  pub api : Text
  pub repeater_server : Text

abbrev cluster_of : Text → ClusterUrls
cluster_of host =
    if includes (codes "localhost" ∷ codes "127.0.0.1" ∷ []) host
    then record {
      api = codes "http://" ++ (host ++ codes ":8000");
      repeater_server = codes "ws://" ++ (host ++ codes ":8000/workstations");
    }
    else record {
      api = codes "https://" ++ host;
      repeater_server = codes "wss://" ++ (host ++ codes "/workstations");
    }

abbrev default_urls : ClusterUrls
default_urls = record {
  api = codes "https://app.brightsec.com";
  repeater_server = codes "wss://app.brightsec.com/workstations";
}

abbrev urls_of : (Text → Option Text) → Option Text → ClusterUrls
urls_of host_of none = default_urls
urls_of host_of (some hostname) =
    if is_empty hostname then default_urls else cluster_of (or_else (host_of hostname) hostname)

unfoldable pub get_cluster_urls : (Text → Option Text) → Option Text → Option Text → ClusterUrls
get_cluster_urls host_of cluster hostname = urls_of host_of (either cluster hostname)

abbrev key_and_value : (Text → Option Text) → List Text → Option (Text × Text)
key_and_value decode [] = none
key_and_value decode (key ∷ values) = elim (decode (trim key)) [
  | none ↦ none
  | some k ↦ option_map (λ v. (k, v)) (decode (trim (join (codes ":") values)))
]

-- `parseHeader`, where `none` is that the use of its result throws: for an empty header, or one that
-- the decoder refuses
unfoldable pub parse_header : (Text → Option Text) → Text → Option (Text × Text)
parse_header decode header =
    if is_empty header then none else key_and_value decode (split_at b':' header)

abbrev with_header : Assoc Text → Option (Text × Text) → Option (Assoc Text)
with_header acc none = none
with_header acc (some (key, value)) = some (insert key value acc)

unfoldable pub parse_headers_from :
    (Text → Option Text) → Assoc Text → List Text → Option (Assoc Text)
parse_headers_from decode acc [] = some acc
parse_headers_from decode acc (header ∷ headers) =
    elim (with_header acc (parse_header decode header)) [
      | none ↦ none
      | some acc' ↦ parse_headers_from decode acc' headers
    ]

-- `parseHeaders`
unfoldable pub parse_headers : (Text → Option Text) → List Text → Option (Assoc Text)
parse_headers decode headers = parse_headers_from decode [] headers

-- `omit`, on the entries of an object
unfoldable pub omit : {V : Type 0} → Assoc (Option V) → Assoc V
omit [] = []
omit ((k, none) ∷ rest) = omit rest
omit ((k, some v) ∷ rest) = (k, v) ∷ omit rest

-- `selectEnumValue`, on the values of the enum
unfoldable pub select_enum_value : List Text → Text → Option Text
select_enum_value values case_agnostic_value =
    find_by (λ x. text_eq (trim (to_lower x)) (trim (to_lower case_agnostic_value))) values

local_cluster : get_cluster_urls (λ t. none) (some (codes "localhost")) none ≡ record {
  api = codes "http://localhost:8000";
  repeater_server = codes "ws://localhost:8000/workstations";
}
unfolding get_cluster_urls includes text_eq
local_cluster = refl

value_with_colon :
    parse_headers some (codes "Host: a:80" ∷ codes "X:1" ∷ [])
    ≡ some ((codes "Host", codes "a:80") ∷ (codes "X", codes "1") ∷ [])
unfolding parse_headers parse_headers_from parse_header split_at join trim is_space insert text_eq
value_with_colon = refl

absent_omitted : omit {V = ℕ} ((codes "a", none) ∷ (codes "b", some 1) ∷ []) ≡ (codes "b", 1) ∷ []
unfolding omit
absent_omitted = refl
