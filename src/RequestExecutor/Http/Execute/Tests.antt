-- ===== src/RequestExecutor/Http/Execute/Tests.antt =====
-- The theorems on the execution of requests at concrete inputs.
use bright_cli.Prelude.{true, false, none, some, List, [], ◌∷◌, Text, codes, inl, inr}
use bright_cli.RequestExecutor.Url.{Url}
use bright_cli.RequestExecutor.Certificates.{Cert}
use bright_cli.RequestExecutor.Options.{http, Request, Response, RequestExecutorOptions}
use bright_cli.RequestExecutor.Http.{HttpRequestExecutor}
use bright_cli.RequestExecutor.Http.Curl.{Platform}
use bright_cli.RequestExecutor.Http.Runtime.{HttpRuntime, Received, Result, error_named}
use bright_cli.RequestExecutor.Http.Attempts.{Event, file_read, transfer_ended, response_ready}

abbrev cert : Text → Cert
cert path = record { path = path; hostname = codes "a"; passphrase = none; port = none }

abbrev options : RequestExecutorOptions
options = record {
  timeout = none;
  proxy_url = none;
  headers = none;
  certs = some (cert (codes "1.pem") ∷ cert (codes "2.pem") ∷ []);
  whitelist_mimes = none;
  max_body_size = none;
  max_content_length = none;
  reuse_connection = false;
  proxy_domains = none;
  proxy_domains_bypass = none;
  kerberos = none;
}

abbrev executor : HttpRequestExecutor
executor = record {
  options = options;
  proxy_domains = none;
  proxy_domains_bypass = none;
  kerberos_domains = none;
  shared_multi_limit = none;
}

abbrev url : Url
url = record { protocol = codes "http:"; hostname = codes "a"; port = [] }

abbrev platform : Platform
platform = record {
  parse_url =
      λ t. record { protocol = codes "http:"; host = codes "a"; hostname = codes "a"; auth = none };
  encode = λ e t. t;
  utf8 = λ t. t;
  to_text = λ b. b;
}

abbrev runtime : HttpRuntime
runtime = record {
  platform = platform;
  parse = λ t. some url;
  run_script = λ vm. inr (error_named [] []);
  content_type = λ headers. (codes "text/plain", codes "utf-8");
  decode = λ bytes encoding. bytes;
  as_text = λ bytes. bytes;
}

abbrev request : Request
request = record {
  protocol = http;
  url = codes "http://a";
  method = codes "GET";
  headers = [];
  body = none;
  encoding = none;
  max_content_size = none;
  timeout = none;
  decompress = true;
  ca = none;
  pfx = none;
  passphrase = none;
}

abbrev received : Received
received = record { status_code = 204; raw_body = []; raw_headers = []; starttransfer_time = 1500 }

abbrev response : Response
response = record {
  protocol = http;
  status_code = some 204;
  headers = some [];
  body = some [];
  message = none;
  error_code = none;
  encoding = none;
  ttfb = some 2;
}

-- The second certificate serves the request: the transfer of the first ends earlier, and its script
-- settles later.
abbrev events : List (Event (Result Received))
events =
    file_read 1 (codes ".pem") (some (2 ∷ []))
    ∷ file_read 0 (codes ".pem") (some (1 ∷ []))
    ∷ transfer_ended 0 (inl received)
    ∷ transfer_ended 1 (inl received)
    ∷ response_ready 1
    ∷ response_ready 0
    ∷ []

abbrev both : List Cert
both = cert (codes "1.pem") ∷ cert (codes "2.pem") ∷ []
