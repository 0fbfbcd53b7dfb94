-- ===== src/RequestExecutor/Http/Curl.antt =====
-- `configureCurl` of src/RequestExecutor/HttpRequestExecutor.ts: the options that a request sets on
-- a curl handle, in the order of the calls. The parser and the encoders of the platform are
-- parameters.
pub mod Fields
pub mod Kinds
pub mod Laws
use bright_cli.Prelude.{
  ℕ, Bool, true, false, not, ◌&&◌, ◌||◌, Option, none, some, List, [], ◌∷◌, ◌++◌, map, Text, codes,
  text_eq, to_lower, is_empty, any, length, or_else, if◌then◌else◌,
}
use bright_cli.RequestExecutor.Options.{
  Bytes, HeaderValue, absent, one, several, Headers, Request, KerberosOptions,
}
use bright_cli.RequestExecutor.Http.{HttpRequestExecutor, resolve_proxy, should_apply_kerberos}
use bright_cli.RequestExecutor.Http.RawPath.{build_raw_path}

-- The parts of `parse(url)` of node:url.
pub record ParsedUrl : Type 0 where
  pub protocol : Text
  pub host : Text
  pub hostname : Text
  pub auth : Option Text

pub record Platform : Type 0 where
  pub parse_url : Text → ParsedUrl
  -- `iconv.encode(body, encoding)` takes the encoding first here.
  pub encode : Text → Text → Bytes
  pub utf8 : Text → Bytes
  pub to_text : Bytes → Text

pub data Setting : Type 0 where
  no_data_parsing path_as_is shared_multi http_auth_negotiate gssapi_delegation : Setting
  url userpwd request_target postfields sslcerttype keypasswd useragent accept_encoding proxy :
      Text → Setting
  custom_request : Text → Setting
  ssl_verifypeer follow_location : Bool → Setting
  ssl_verifyhost postfieldsize timeout_ms tcp_keepalive tcp_keepidle fresh_connect forbid_reuse :
      ℕ → Setting
  cainfo_blob sslcert_blob : Bytes → Setting
  http_header : List Text → Setting

-- A value that is present and not the empty text.
abbrev if_text : Option Text → (Text → List Setting) → List Setting
if_text none f = []
if_text (some t) f = if is_empty t then [] else f t

abbrev if_some : {A : Type 0} → Option A → (A → List Setting) → List Setting
if_some none f = []
if_some (some a) f = f a

-- `hasHeader`
unfoldable pub has_header : Headers → Text → Bool
unfolding to_lower
has_header headers name = any (λ e. text_eq (to_lower e.0) (to_lower name)) headers

abbrev pub header_line : Text → Text → Text
header_line key value = key ++ (codes ": " ++ value)

abbrev header_lines : Text → HeaderValue → List Text
header_lines key absent = header_line key [] ∷ []
header_lines key (one v) = header_line key v ∷ []
header_lines key (several vs) = map (header_line key) vs

-- `buildCurlHeaders`
unfoldable pub build_curl_headers : Headers → List Text
build_curl_headers [] = []
build_curl_headers ((key, value) ∷ rest) =
    (if is_empty key then [] else header_lines key value) ++ build_curl_headers rest

abbrev encode_body : Platform → Option Text → Text → Bytes
encode_body platform none body = platform.utf8 body
encode_body platform (some encoding) body =
    if is_empty encoding then platform.utf8 body else platform.encode encoding body

module _ (platform : Platform) (x : HttpRequestExecutor) (request : Request) where
  -- `applyCurlBody`
  unfoldable pub apply_curl_body : List Setting
  apply_curl_body = if_text request.body (λ body.
      let bytes = encode_body platform request.encoding body in
      postfields (platform.to_text bytes) ∷ postfieldsize (length bytes) ∷ [])

  -- `applyCurlTls`
  unfoldable pub apply_curl_tls : List Setting
  apply_curl_tls =
      if_some request.ca (λ ca. cainfo_blob ca ∷ [])
      ++ if_some request.pfx (λ pfx.
        sslcert_blob pfx
        ∷ sslcerttype (codes "P12")
        ∷ if_text request.passphrase (λ passphrase. keypasswd passphrase ∷ []))

  abbrev first_some : Option ℕ → Option ℕ → Option ℕ
  first_some none b = b
  first_some (some a) b = some a

  -- `applyCurlTimeout`
  unfoldable pub apply_curl_timeout : List Setting
  apply_curl_timeout =
      if_some (first_some request.timeout x.options.timeout) (λ ms. timeout_ms ms ∷ [])

  abbrev pub hostname : Text
  hostname = (platform.parse_url request.url).hostname

  -- Whether the handle goes to the connections that requests share.
  unfoldable pub shares_connection : Bool
  shares_connection = x.options.reuse_connection || should_apply_kerberos x hostname

  -- The lines that `applyCurlHeaders` adds to those of the request.
  unfoldable pub extra_lines : List Text
  extra_lines =
      (if not x.options.reuse_connection
          && (not (should_apply_kerberos x hostname)
              && not (has_header request.headers (codes "connection")))
        then codes "Connection: close" ∷ []
        else [])
      ++ (if request.decompress
          then []
          else if not (has_header request.headers (codes "accept-encoding"))
          then codes "Accept-Encoding: identity" ∷ []
          else [])

  abbrev header_setting : List Text → List Setting
  header_setting [] = []
  header_setting (l ∷ ls) = http_header (l ∷ ls) ∷ []

  -- `applyCurlHeaders`
  unfoldable pub apply_curl_headers : List Setting
  apply_curl_headers =
      useragent []
      ∷ ((if request.decompress then accept_encoding [] ∷ [] else [])
          ++ header_setting (build_curl_headers request.headers ++ extra_lines))

  -- The choice between kept and closed connections in `configureCurl`.
  unfoldable pub apply_curl_connection : List Setting
  apply_curl_connection =
      if shares_connection
      then tcp_keepalive 1 ∷ tcp_keepidle 60 ∷ shared_multi ∷ []
      else fresh_connect 1 ∷ forbid_reuse 1 ∷ []

  abbrev non_empty_or : Option Text → Text → Text
  non_empty_or none d = d
  non_empty_or (some t) d = if is_empty t then d else t

  abbrev kerberos_settings : Option KerberosOptions → List Setting
  kerberos_settings none = []
  kerberos_settings (some k) =
      http_auth_negotiate
      ∷ userpwd (non_empty_or k.credentials (codes ":"))
      ∷ (if k.delegation then gssapi_delegation ∷ [] else [])

  -- `applyCurlKerberos`
  unfoldable pub apply_curl_kerberos : List Setting
  apply_curl_kerberos =
      if should_apply_kerberos x hostname then kerberos_settings x.options.kerberos else []

  -- The options that `configureCurl` sets before those of the body.
  unfoldable pub apply_curl_url : List Setting
  apply_curl_url =
      let parsed = platform.parse_url request.url in
      no_data_parsing
      ∷ url (parsed.protocol ++ (codes "//" ++ parsed.host))
      ∷ (if_text parsed.auth (λ auth. userpwd auth ∷ [])
          ++ (request_target (build_raw_path request.url)
              ∷ path_as_is
              ∷ ssl_verifypeer false
              ∷ ssl_verifyhost 0
              ∷ follow_location false
              ∷ []))

  -- `configureCurl`
  unfoldable pub configure_curl : List Setting
  configure_curl =
      apply_curl_url
      ++ (apply_curl_body
          ++ (apply_curl_tls
              ++ (apply_curl_timeout
                  ++ (apply_curl_headers
                      ++ (apply_curl_connection
                          ++ (apply_curl_kerberos
                              ++ (if_text (resolve_proxy x hostname)
                                    (λ proxy_url. proxy proxy_url ∷ [])
                                  ++ (custom_request request.method ∷ []))))))))
