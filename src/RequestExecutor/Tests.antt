-- ===== src/RequestExecutor/Tests.antt =====
-- The theorems on the request executor at concrete inputs.
use bright_cli.Prelude.{
  ◌≡◌, refl, ◌↔◌, inl, true, false, not, ◌++◌, none, some, List, [], ◌∷◌, Text, codes, lookup, any,
  map, join, ◌||◌, length, ◌≤◌, arith,
}
use bright_cli.Utils.Wildcard.{wildcard_to_reg_exp, reg_exp_test, parse_reg_exp, matches}
use bright_cli.RequestExecutor.Url.{Url}
use bright_cli.RequestExecutor.Certificates.{Cert, get, resolve}
use bright_cli.RequestExecutor.Certificates.Laws.{IsMeantFor, Keeps, resolve_registered}
use bright_cli.RequestExecutor.Options.{
  one, several, Headers, http, Request, KerberosOptions, RequestExecutorOptions,
}
use bright_cli.RequestExecutor.Http.{
  HttpRequestExecutor, new_executor, resolve_proxy, should_apply_kerberos,
}
use bright_cli.RequestExecutor.Http.Domains.{IsAdmitted, IsBarred, resolve_proxy_iff}
use bright_cli.RequestExecutor.Http.RawPath.{HasNoColon, build_raw_path, build_raw_path_lem}
use bright_cli.RequestExecutor.Http.Curl.{Platform, configure_curl}
use bright_cli.RequestExecutor.Http.Curl.Fields.{HeaderField, AreFields, IsAdded, read_field}
use bright_cli.RequestExecutor.Http.Curl.Kinds.{is_shared, is_closing, sent_lines, credential_of}
use bright_cli.RequestExecutor.Http.Curl.Laws.{configure_curl_lem, configure_curl-kerberos}
use bright_cli.RequestExecutor.Http.Truncation.{
  max_size, truncate_response, to_fixed, truncate_response_bounds,
}

abbrev url : Text → Url
url hostname = record { protocol = codes "https:"; hostname = hostname; port = [] }

abbrev cert : Text → Cert
cert hostname = record { path = codes "c"; hostname = hostname; passphrase = none; port = none }

abbrev certs : List Cert
certs = cert (codes "*.a") ∷ cert (codes "b") ∷ []

resolve_registered_example :
    Keeps (IsMeantFor (url (codes "x.a"))) certs (resolve (url (codes "x.a")) certs [])
unfolding get lookup
resolve_registered_example = resolve_registered (url (codes "x.a")) certs [] refl

abbrev kerberos_options : KerberosOptions
kerberos_options = record {
  enabled = true;
  domains = some (codes "*.a" ∷ []);
  credentials = none;
  delegation = false;
}

abbrev options : RequestExecutorOptions
options = record {
  timeout = none;
  proxy_url = some (codes "http://p");
  headers = none;
  certs = none;
  whitelist_mimes = none;
  max_body_size = none;
  max_content_length = none;
  reuse_connection = false;
  proxy_domains = some (codes "*.a" ∷ []);
  proxy_domains_bypass = none;
  kerberos = some kerberos_options;
}

abbrev executor : HttpRequestExecutor
executor = record {
  options = options;
  proxy_domains = some (wildcard_to_reg_exp (codes "*.a") ∷ []);
  proxy_domains_bypass = none;
  kerberos_domains = some (wildcard_to_reg_exp (codes "*.a") ∷ []);
  shared_multi_limit = some 100;
}

executor_lem : new_executor options ≡ inl executor
unfolding new_executor
executor_lem = refl

resolve_proxy_iff_example : (resolve_proxy executor (codes "x.a") ≡ some (codes "http://p")) ↔ (
    IsAdmitted options.proxy_domains (codes "x.a")
    × ¬ IsBarred options.proxy_domains_bypass (codes "x.a"))
resolve_proxy_iff_example =
    resolve_proxy_iff options executor (codes "http://p") (codes "x.a") executor_lem refl

scheme-HasNoColon : HasNoColon (codes "http")
scheme-HasNoColon =
    ((λ e. ground arith), ((λ e. ground arith), ((λ e. ground arith), ((λ e. ground arith), tt))))

build_raw_path_lem_example : build_raw_path (codes "http://a?b") ≡ codes "/?b"
build_raw_path_lem_example =
    build_raw_path_lem (codes "http") (codes "a") (codes "?b") scheme-HasNoColon (refl, tt) refl

abbrev request : Request
request = record {
  protocol = http;
  url = codes "http://a?b";
  method = codes "GET";
  headers = (codes "Host", one (codes "a")) ∷ [];
  body = none;
  encoding = none;
  max_content_size = some 0;
  timeout = none;
  decompress = false;
  ca = none;
  pfx = none;
  passphrase = none;
}

abbrev given : Headers
given = (codes "X", one (codes "1")) ∷ (codes "Host", several (codes "b" ∷ codes "c" ∷ [])) ∷ []

abbrev platform : Platform
platform = record {
  parse_url = λ t. record {
    protocol = codes "http:";
    host = codes "x.a";
    hostname = codes "x.a";
    auth = none;
  };
  encode = λ e t. t;
  utf8 = λ t. t;
  to_text = λ b. b;
}

configure_curl_lem_example :
    let settings = configure_curl platform executor request in
    let shared = options.reuse_connection || should_apply_kerberos executor (codes "x.a") in
    (any is_shared settings ≡ shared)
    × (any is_closing settings ≡ not shared)
    × (fields : List HeaderField) × (closing : List HeaderField) × (encoding : List HeaderField)
    × AreFields request.headers fields
    × IsAdded request.headers (codes "Connection") (codes "close") (not shared) closing
    × IsAdded request.headers
        (codes "Accept-Encoding")
        (codes "identity")
        (not request.decompress)
        encoding
    × (map read_field (sent_lines settings) ≡ fields ++ (closing ++ encoding))
configure_curl_lem_example = configure_curl_lem platform executor request (refl, tt)

applied : should_apply_kerberos executor (codes "x.a") ≡ true
unfolding should_apply_kerberos reg_exp_test wildcard_to_reg_exp parse_reg_exp join matches
applied = refl

configure_curl-kerberos_example :
    credential_of none (configure_curl platform executor request) ≡ some (codes ":")
configure_curl-kerberos_example =
    configure_curl-kerberos platform executor request kerberos_options refl applied

truncate_response_bounds_example :
    let (kept, transform, headers) = truncate_response options request [] (codes "abc") [] in
    (length kept ≤ 0)
    × (kept ≡ [])
    × (lookup (codes "content-length") headers ≡ some (one (to_fixed (length kept))))
unfolding max_size
truncate_response_bounds_example =
    truncate_response_bounds options request [] (codes "abc") [] 0 refl
