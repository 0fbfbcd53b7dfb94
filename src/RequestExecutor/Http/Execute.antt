-- ===== src/RequestExecutor/Http/Execute.antt =====
-- `execute`, `executeRequest` and the scripts of src/RequestExecutor/HttpRequestExecutor.ts.
-- The parsers, the decoders and the runtime of the scripts are parameters, and so is the transfer:
-- from the settings of the curl handle to what curl reports.
pub mod Answers
mod Tests
use bright_cli.Prelude.{
  ℕ, ◌+◌, ◌/◌, Bool, true, false, Option, none, some, List, [], ◌∷◌, ◌++◌, Text, codes, either,
  or_else, is_some, option_map, ◌⊎◌, inl, inr, if◌then◌else◌,
}
use bright_cli.Scripts.{VirtualScript, Store, find}
use bright_cli.RequestExecutor.Url.{Url}
use bright_cli.RequestExecutor.Certificates.{Cert, Cache, resolve}
use bright_cli.RequestExecutor.Options.{
  Bytes, Headers, Protocol, http, Request, Response, RequestExecutorOptions,
}
use bright_cli.RequestExecutor.Request.{to_json, new_request, set_headers}
use bright_cli.RequestExecutor.Http.{HttpRequestExecutor}
use bright_cli.RequestExecutor.Http.Runtime.{
  Failure, error_named, Result, bind, ResponseView, Exports, HttpRuntime, Received,
}
use bright_cli.RequestExecutor.Http.Curl.{Platform, Setting, configure_curl}
use bright_cli.RequestExecutor.Http.Truncation.{truncate_response, response_has_no_body}
use bright_cli.RequestExecutor.Http.ResponseHeaders.{parse_curl_headers}

-- The end of `execute`: an answer, or attempts with each of the certificates.
pub data Started : Type 0 where
  answered : Response → Started
  trying : Request → List Cert → Started

-- The handler of errors of `execute`
unfoldable pub error_response : Failure → Response
error_response err =
    let e = or_else err.cause err.own in
    record {
      protocol = http;
      status_code = none;
      headers = none;
      body = none;
      message = e.message;
      error_code = either e.code (either e.syscall e.name);
      encoding = none;
      ttfb = none;
    }

abbrev pub settle : Result Response → Response
settle (inl response) = response
settle (inr err) = error_response err

abbrev missing_handle : VirtualScript → Text
missing_handle vm =
    codes "Error Loading Script: Script "
    ++ (vm.id ++ codes " does not match expected format, missing function handle.")

abbrev exported : {A : Type 0} → VirtualScript → Option A → Result A
exported vm none = inr (error_named (missing_handle vm) (codes "Error"))
exported vm (some f) = inl f

abbrev constructed : {A E : Type 0} → A ⊎ E → Result A
constructed (inl a) = inl a
constructed (inr e) = inr (error_named (codes "Invalid URL.") (codes "Error"))

abbrev pub patched : Response → Option ResponseView → Response
patched response none = response
patched response (some result) = record {
  protocol = response.protocol;
  status_code = either result.status_code response.status_code;
  headers = either result.headers response.headers;
  body = either result.body response.body;
  message = none;
  error_code = none;
  encoding = response.encoding;
  ttfb = response.ttfb;
}

abbrev pub respond_with :
    Response → Option (ResponseView → Result (Option ResponseView)) → Result Response
respond_with response none = inl response
respond_with response (some on_response) =
    bind
      (on_response (record {
        protocol = response.protocol;
        status_code = response.status_code;
        headers = response.headers;
        body = response.body;
      }))
      (λ result. inl (patched response result))

abbrev pub settle_started : Result Started → Started
settle_started (inl s) = s
settle_started (inr err) = answered (error_response err)

abbrev pub with_headers : Option Headers → Request → Request
with_headers none r = r
with_headers (some headers) r = set_headers headers r

module _ (env : HttpRuntime) (x : HttpRequestExecutor) (store : Store) where
  -- `new URL(url)`
  unfoldable pub new_url : Text → Result Url
  new_url url = elim (env.parse url) [
    | none ↦ inr (record {
      own = record {
        message = some (codes "Invalid URL");
        code = some (codes "ERR_INVALID_URL");
        syscall = none;
        name = some (codes "TypeError");
      };
      cause = none;
    })
    | some u ↦ inl u
  ]

  abbrev script_body : Request → Option Text
  script_body r = elim r.encoding [
    | none ↦ r.body
    | some encoding ↦ some (env.platform.to_text (env.platform.encode encoding (or_else r.body [])))
  ]

  abbrev transform_by : Request → Option VirtualScript → Result Request
  transform_by r none = inl r
  transform_by r (some vm) = bind (env.run_script vm) (λ exports.
      bind (exported vm exports.handle_function) (λ handle.
        bind (handle (record (to_json env.as_text r) { body = script_body r }))
          (λ result. constructed (new_request (λ u. is_some (env.parse u)) result))))

  -- `transformScript`
  unfoldable pub transform_script : Request → Result Request
  transform_script r = bind (new_url r.url) (λ u. transform_by r (find u.hostname store))

  abbrev respond_by : Response → Option VirtualScript → Result Response
  respond_by response none = inl response
  respond_by response (some vm) =
      bind (env.run_script vm) (λ exports. respond_with response exports.on_response)

  -- `handleResponseScript`
  unfoldable pub handle_response_script : Request → Response → Result Response
  handle_response_script r response =
      bind (new_url r.url) (λ u. respond_by response (find u.hostname store))

  abbrev response_of : Request → Received → Response
  response_of r received =
      let headers = parse_curl_headers received.raw_headers in
      let ttfb = (received.starttransfer_time + 500) / 1000 in
      if response_has_no_body r.method received.status_code
      then record {
        protocol = http;
        status_code = some received.status_code;
        headers = some headers;
        body = some [];
        message = none;
        error_code = none;
        encoding = none;
        ttfb = some ttfb;
      }
      else let (type, encoding) = env.content_type headers in
        let (body, transform, final_headers) =
          truncate_response x.options r type received.raw_body headers in
        record {
          protocol = http;
          status_code = some received.status_code;
          headers = some final_headers;
          body = some (env.decode body (or_else r.encoding encoding));
          message = none;
          error_code = none;
          encoding = r.encoding;
          ttfb = some ttfb;
        }

  -- `executeRequest`, from what the transfer gives: what it settles with, once the script has resolved
  unfoldable pub finish_request : Request → Result Received → Result Response
  finish_request r outcome =
      bind outcome (λ received. handle_response_script r (response_of r received))

  -- `request` and `executeRequest`
  unfoldable pub execute_request : (List Setting → Result Received) → Request → Result Response
  execute_request transfer r = finish_request r (transfer (configure_curl env.platform x r))

  abbrev start_request : (List Setting → Result Received) → Request → List Cert → Started
  start_request transfer r [] = answered (settle (execute_request transfer r))
  start_request transfer r (cert ∷ certs) = trying r (cert ∷ certs)

  abbrev start_with :
      (List Setting → Result Received) → Cache → Request → Option (List Cert) → Result Started
  start_with transfer cache r none = inl (start_request transfer r [])
  start_with transfer cache r (some certs) =
      bind (new_url r.url) (λ u. inl (start_request transfer r (resolve u certs cache)))

  -- `execute`, up to the attempts of `tryRequestWithCertificates`
  unfoldable pub execute : (List Setting → Result Received) → Cache → Request → Started
  execute transfer cache r = settle_started (
      bind (transform_script (with_headers x.options.headers r))
        (λ sent. start_with transfer cache sent x.options.certs))
