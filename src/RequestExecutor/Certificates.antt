-- ===== src/RequestExecutor/Certificates.antt =====
-- src/RequestExecutor/DefaultCertificatesCache.ts and
-- src/RequestExecutor/DefaultCertificatesResolver.ts. A request enters by its parsed URL.
pub mod Laws
use bright_cli.Prelude.{
  Bool, true, false, ◌||◌, Option, none, some, List, [], ◌∷◌, ◌++◌, Text, text_eq, is_empty, Assoc,
  lookup, insert, is_some, filter_by, if◌then◌else◌,
}
use bright_cli.Utils.Wildcard.{wildcard_test}
use bright_cli.RequestExecutor.Url.{Url, port_from_url}

-- An absent `port` is `none`.
pub record Cert : Type 0 where
  pub path : Text
  pub hostname : Text
  pub passphrase : Option Text
  pub port : Option Text

abbrev pub Cache : Type 0
Cache = Assoc Cert

-- `${hostname}_${port}`
unfoldable pub cache_key : Url → Text
cache_key url = url.hostname ++ (b'_' ∷ port_from_url url)

unfoldable pub add : Url → Cert → Cache → Cache
add url cert cache =
    if is_some (lookup (cache_key url) cache) then cache else insert (cache_key url) cert cache

unfoldable pub get : Url → Cache → Option Cert
get url cache = lookup (cache_key url) cache

abbrev port_matches : Option Text → Text → Bool
port_matches none port = true
port_matches (some p) port = is_empty p || text_eq p port

unfoldable pub match_hostname_and_port : Text → Text → Cert → Bool
match_hostname_and_port hostname port cert =
    if text_eq cert.hostname hostname || wildcard_test cert.hostname hostname
    then port_matches cert.port port
    else false

abbrev cached_or : Option Cert → List Cert → List Cert
cached_or (some cert) certs = cert ∷ []
cached_or none certs = certs

unfoldable pub resolve : Url → List Cert → Cache → List Cert
resolve url registered cache =
    cached_or (get url cache)
      (filter_by (match_hostname_and_port url.hostname (port_from_url url)) registered)
