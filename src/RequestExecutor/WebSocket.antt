-- ===== src/RequestExecutor/WebSocket.antt =====
-- src/RequestExecutor/WsRequestExecutor.ts: how a request opens a client of the package ws, and
-- `executeRequest` as a machine over the events of that client. The proxy agents, whether the client
-- is made, and the expression of the correlation id are parameters. Events after the end are left
-- out.
pub mod Stages
pub mod Ends
mod Tests
use bright_cli.Prelude.{
  ℕ, Bool, true, false, not, Option, none, some, List, [], ◌∷◌, Text, codes, includes, to_lower,
  trim, starts_with, insert, either, or_else, inl, inr, if◌then◌else◌,
}
use bright_cli.RequestExecutor.Url.{Url}
use bright_cli.RequestExecutor.Certificates.{Cert, Cache, resolve}
use bright_cli.RequestExecutor.Options.{
  Bytes, Headers, HeaderValue, ws, Request, Response, RequestExecutorOptions,
}

-- The data of an error, with the `info` that some have.
pub record WsFailure : Type 0 where
  pub info : Option Text
  pub message : Option Text
  pub code : Option Text
  pub syscall : Option Text

abbrev pub forbidden_headers : List Text
forbidden_headers = codes "sec-websocket-version" ∷ codes "sec-websocket-key" ∷ []

-- The loop of `normalizeHeaders`.
unfoldable pub normalize_headers_from : Headers → Headers → Headers
normalize_headers_from result [] = result
normalize_headers_from result ((key, value) ∷ rest) =
    normalize_headers_from
      (if includes forbidden_headers (to_lower (trim key)) then result else insert key value result)
      rest

unfoldable pub normalize_headers : Headers → Headers
normalize_headers headers = normalize_headers_from [] headers

-- `secureEndpoint` of src/RequestExecutor/Request.ts
unfoldable pub secure_endpoint : Request → Bool
secure_endpoint r = starts_with r.url (codes "https")

-- The options of the client, for a type of agents.
pub record ClientOptions (Agent : Type 0) : Type 0 where
  pub agent : Option Agent
  pub reject_unauthorized : Bool
  pub handshake_timeout : Option ℕ
  pub headers : Headers
  pub ca : Option Bytes
  pub pfx : Option Bytes
  pub passphrase : Option Text
  pub max_header_size : ℕ

unfoldable pub client_options :
    {Agent : Type 0}
    → Option Agent
    → Option Agent
    → RequestExecutorOptions
    → Request
    → ClientOptions Agent
client_options http_proxy_agent https_proxy_agent o r = record {
  agent = if secure_endpoint r then https_proxy_agent else http_proxy_agent;
  reject_unauthorized = false;
  handshake_timeout = o.timeout;
  headers = normalize_headers r.headers;
  ca = r.ca;
  pfx = r.pfx;
  passphrase = r.passphrase;
  max_header_size = 32768;
}

-- The response to the upgrade of a connection.
pub record Upgrade : Type 0 where
  pub status_code : Option ℕ
  pub headers : Option Headers

pub data ReadyState : Type 0 where
  connecting is_open_state closing closed : ReadyState

-- Where `executeRequest` stands: in `connect`, with what has come of it, in `send`, in `consume`, or
-- ended. An error that comes while nothing listens for it ends the process.
pub data Stage : Type 0 where
  connects : Bool → Option Upgrade → Stage
  sends : Upgrade → Stage
  consumes : Upgrade → Stage
  returned : Response → Stage
  thrown : WsFailure → Stage
  crashed : Stage

-- The state of the client that it tells, whether the timer runs, and the stage.
pub record Exchange : Type 0 where
  pub ready_state : ReadyState
  pub has_timeout : Bool
  pub stage : Stage

-- What the client emits, with its state read by the code afterwards, the end of `send`, and the timer.
pub data ClientEvent : Type 0 where
  opened : ClientEvent
  upgraded : Upgrade → ClientEvent
  received : Text → ClientEvent
  client_closed : ℕ → Text → ClientEvent
  client_failed : WsFailure → ReadyState → ClientEvent
  sent : Option WsFailure → ClientEvent
  timed_out : ClientEvent

-- The `finally` of `executeRequest`
unfoldable pub finish : Stage → Exchange → Exchange
finish stage x = record {
  ready_state = elim x.ready_state [ is_open_state ↦ closing | state ↦ state ];
  has_timeout = false;
  stage = stage;
}

-- The response that `executeRequest` builds
unfoldable pub ws_response : Upgrade → Option ℕ → Option Text → Response
ws_response upgrade code body = record {
  protocol = ws;
  status_code = either code upgrade.status_code;
  headers = upgrade.headers;
  body = body;
  message = none;
  error_code = none;
  encoding = none;
  ttfb = none;
}

abbrev timeout_error : WsFailure
timeout_error = record {
  info = none;
  message = some (codes "Waiting frame has timed out");
  code = some (codes "ETIMEDOUT");
  syscall = none;
}

-- The handler of errors of `execute`
unfoldable pub ws_error_response : WsFailure → Response
ws_error_response e = record {
  protocol = ws;
  status_code = none;
  headers = none;
  body = none;
  message = either e.info e.message;
  error_code = either e.code e.syscall;
  encoding = none;
  ttfb = none;
}

-- What `execute` does with the certificates that are resolved: one request, or one for each.
pub data WsStarted : Type 0 where
  executes : Request → WsStarted
  tries : Request → List Cert → WsStarted
  refuses : Response → WsStarted

abbrev ws_start : Request → List Cert → WsStarted
ws_start r [] = executes r
ws_start r (cert ∷ certs) = tries r (cert ∷ certs)

-- `execute`, given the parser of URLs and the error that it throws
unfoldable pub ws_execute :
    (Text → Option Url) → WsFailure → Option (List Cert) → Cache → Request → WsStarted
ws_execute parse invalid none cache r = executes r
ws_execute parse invalid (some certs) cache r = elim (parse r.url) [
  | none ↦ refuses (ws_error_response invalid)
  | some url ↦ ws_start r (resolve url certs cache)
]

-- Once the client is open and upgraded, `send` is called.
abbrev pub after_connect : Bool → Option Upgrade → Stage
after_connect true (some upgrade) = sends upgrade
after_connect is_open upgrade = connects is_open upgrade

-- An error of the client
abbrev pub fail : WsFailure → ReadyState → Stage → Exchange → Exchange
fail e state (connects is_open upgrade) x = finish (thrown e) (record x { ready_state = state })
fail e state (sends upgrade) x = record x { stage = crashed }
fail e state (consumes upgrade) x = finish (thrown e) (record x { ready_state = state })
fail e state stage x = x

module _ (matcher : Option (Text → Bool)) where
  abbrev pub matches_id : Text → Bool
  matches_id data_string = elim matcher [ none ↦ true | some test ↦ test data_string ]

  abbrev pub emit_client : ClientEvent → Stage → Exchange → Exchange
  emit_client opened (connects is_open upgrade) x = record x {
    ready_state = is_open_state;
    stage = after_connect true upgrade;
  }
  emit_client (upgraded upgrade) (connects is_open earlier) x = record x {
    stage = after_connect is_open (some (or_else earlier upgrade));
  }
  emit_client (sent none) (sends upgrade) x = record x {
    has_timeout = true;
    stage = consumes upgrade;
  }
  emit_client (sent (some e)) (sends upgrade) x = finish (thrown e) x
  emit_client (received text) (consumes upgrade) x =
      if matches_id text then finish (returned (ws_response upgrade none (some text))) x else x
  emit_client (client_closed code reason) (consumes upgrade) x =
      finish (returned (ws_response upgrade (some code) (some reason)))
        (record x { ready_state = closed })
  emit_client (client_closed code reason) stage x = record x { ready_state = closed }
  emit_client (client_failed e state) stage x = fail e state stage x
  emit_client timed_out stage x =
      if x.has_timeout then fail timeout_error x.ready_state stage x else x
  emit_client e stage x = x

  unfoldable pub emit_all : List ClientEvent → Exchange → Exchange
  emit_all [] x = x
  emit_all (e ∷ events) x = emit_all events (emit_client e x.stage x)

-- A client that is made
abbrev pub new_exchange : Exchange
new_exchange = record { ready_state = connecting; has_timeout = false; stage = connects false none }
