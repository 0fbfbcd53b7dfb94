-- ===== src/RequestExecutor/Request.antt =====
-- The constructor, `setHeaders`, `loadCert` and `toJSON` of src/RequestExecutor/Request.ts.
use bright_cli.Prelude.{
  ◌⊎◌, inl, inr, ℕ, ◌≡◌, refl, Bool, true, ◌&&◌, Option, none, some, List, [], ◌∷◌, map, Text,
  codes, text_eq, includes, to_lower, trim, join, lookup, keys_unique, lookup-merge, merge, either,
  option_map, arith, if◌then◌else◌, leb, ◌-◌, text_eq_iff,
}
use bright_cli.RequestExecutor.Options.{
  Bytes, HeaderValue, absent, one, several, Headers, Protocol, Request,
}
use bright_cli.RequestExecutor.Certificates.{Cert}

abbrev pub single_value_headers : List Text
single_value_headers =
    codes "authorization"
    ∷ codes "content-disposition"
    ∷ codes "content-length"
    ∷ codes "content-type"
    ∷ codes "from"
    ∷ codes "host"
    ∷ codes "if-modified-since"
    ∷ codes "if-unmodified-since"
    ∷ codes "location"
    ∷ codes "max-forwards"
    ∷ codes "proxy-authorization"
    ∷ codes "referer"
    ∷ codes "user-agent"
    ∷ []

-- The value that `setHeaders` keeps for a field.
unfoldable pub normalize_value : Text → HeaderValue → HeaderValue
normalize_value field (several values) =
    if includes single_value_headers (to_lower field)
    then one (join (codes ", ") values)
    else several values
normalize_value field value = value

abbrev normalize_all : Headers → Headers
normalize_all [] = []
normalize_all ((field, value) ∷ rest) = (field, normalize_value field value) ∷ normalize_all rest

-- `setHeaders`: the headers of the request, with those given put over them.
unfoldable pub set_headers : Headers → Request → Request
set_headers headers r = record r { headers = normalize_all (merge r.headers headers) }

pub data RequestError : Type 0 where
  invalid_url : RequestError

pub record RequestOptions : Type 0 where
  pub protocol : Protocol
  pub url : Text
  pub headers : Option Headers
  pub method : Option Text
  pub pfx : Option Bytes
  pub ca : Option Bytes
  pub body : Option Text
  pub passphrase : Option Text
  pub encoding : Option Text
  pub max_content_size : Option ℕ
  pub timeout : Option ℕ
  pub decompress : Option Bool

-- `toUpperCase` on the letters a to z
unfoldable pub upper_code : ℕ → ℕ
upper_code c = if leb 97 c && leb c 122 then c - 32 else c

abbrev method_or_get : Option Text → Text
method_or_get none = codes "GET"
method_or_get (some m) = map upper_code m

abbrev given_or {ℓ} : {A : Type ℓ} → Option A → A → A
given_or none d = d
given_or (some a) d = a

-- The constructor, with `ca` and `pfx` as buffers; whether the platform's parser takes a URL is a
-- parameter. The types rule out a body that is no text; the regular expression of the correlation id
-- is left out.
unfoldable pub new_request : (Text → Bool) → RequestOptions → Request ⊎ RequestError
new_request is_url o =
    if is_url o.url
    then inl (
        set_headers (given_or o.headers []) (record {
          protocol = o.protocol;
          url = trim o.url;
          method = method_or_get o.method;
          headers = [];
          body = o.body;
          encoding = o.encoding;
          max_content_size = o.max_content_size;
          timeout = o.timeout;
          decompress = given_or o.decompress true;
          ca = o.ca;
          pfx = o.pfx;
          passphrase = o.passphrase;
        }))
    else inr invalid_url

-- `loadCert`: the file is read to `content`, absent if it cannot be, and `extension` is that of its
-- path.
unfoldable pub load_cert : Text → Option Bytes → Cert → Request → Request
load_cert extension content cert r =
    if includes (codes ".pem" ∷ codes ".crt" ∷ codes ".ca" ∷ []) extension
    then record r { ca = content }
    else if text_eq extension (codes ".pfx")
    then record r { pfx = content; passphrase = cert.passphrase }
    else r

-- `toJSON`, with `as_text` for a buffer turned to text of UTF-8 and back
unfoldable pub to_json : (Bytes → Bytes) → Request → RequestOptions
to_json as_text r = record {
  protocol = r.protocol;
  url = r.url;
  headers = some r.headers;
  method = some r.method;
  pfx = option_map as_text r.pfx;
  ca = option_map as_text r.ca;
  body = r.body;
  passphrase = r.passphrase;
  encoding = none;
  max_content_size = none;
  timeout = none;
  decompress = none;
}

normalize_value-absent : (field : Text) → normalize_value field absent ≡ absent
unfolding normalize_value
normalize_value-absent field = refl

lookup-normalize_all :
    (k : Text) (m : Headers)
    → lookup k (normalize_all m) ≡ option_map (normalize_value k) (lookup k m)
unfolding lookup
lookup-normalize_all k [] = refl
lookup-normalize_all k ((j, v) ∷ m) = ground (arith, text_eq_iff k j, lookup-normalize_all k m)

-- After `setHeaders`, the value of a field is the one given, or else the one the request had, with
-- several values of a field that takes one joined by commas; the field names given are distinct.
pub lookup-set_headers :
    (k : Text) (headers : Headers) (r : Request)
    → keys_unique headers ≡ true
    → lookup k (set_headers headers r).headers
      ≡ option_map (normalize_value k) (either (lookup k headers) (lookup k r.headers))
unfolding set_headers
lookup-set_headers k headers r u =
    rw (lookup-normalize_all k (merge r.headers headers), lookup-merge k r.headers headers u)
