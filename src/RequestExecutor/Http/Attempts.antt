-- ===== src/RequestExecutor/Http/Attempts.antt =====
-- `tryRequestWithCertificates` of src/RequestExecutor/HttpRequestExecutor.ts, and of
-- src/RequestExecutor/WsRequestExecutor.ts, which is the same: one attempt for each certificate, all at
-- the same time and on one shared request, as a machine over what the files, the transfers and the
-- scripts of responses report. An attempt goes on from its file to its transfer with no event between.
-- After its transfer it awaits `handleResponseScript`, whose script may be asynchronous, so that an
-- attempt can end before one whose transfer ended earlier. What it then ends with is a parameter,
-- `finish`: for HTTP it is `finish_request`, with what the script resolves to, and for WebSocket, where
-- there is no such script, the outcome is that of an exchange.
pub mod Kept
pub mod Winner
use bright_cli.Prelude.{
  ℕ, zero, suc, Bool, true, false, ◌&&◌, Option, none, some, List, [], ◌∷◌, map, Text, codes, all,
  get_elem?, either, ◌⊎◌, inl, inr, if◌then◌else◌,
}
use bright_cli.Scripts.{Store}
use bright_cli.RequestExecutor.Url.{Url}
use bright_cli.RequestExecutor.Certificates.{Cert, Cache, add}
use bright_cli.RequestExecutor.Options.{Bytes, Request, Response}
use bright_cli.RequestExecutor.Request.{load_cert}
use bright_cli.RequestExecutor.Http.{HttpRequestExecutor}
use bright_cli.RequestExecutor.Http.Runtime.{Failure, error_named, Result, HttpRuntime, Received}
use bright_cli.RequestExecutor.Http.Execute.{finish_request}

-- `loadCert` is awaited, then the request that was sent, with its settings as they were then, then the
-- script, with the outcome of the transfer.
pub data Phase (O : Type 0) : Type 0 where
  loading fulfilled rejected : Phase O
  sent : Request → Phase O
  responding : Request → O → Phase O

pub record Attempt (O : Type 0) : Type 0 where
  pub cert : Cert
  pub phase : Phase O

-- The shared request and cache, and what the promise of `Promise.any` has settled to.
pub record Attempts (O : Type 0) : Type 0 where
  pub request : Request
  pub cache : Cache
  pub attempts : List (Attempt O)
  pub answer : Option (Result Response)

-- The file of an attempt is read, with the extension of its path, or cannot be; its transfer
-- ends; or what it awaits after that has settled.
pub data Event (O : Type 0) : Type 0 where
  file_read : ℕ → Text → Option Bytes → Event O
  transfer_ended : ℕ → O → Event O
  response_ready : ℕ → Event O

abbrev pub set_phase : {O : Type 0} → ℕ → Phase O → List (Attempt O) → List (Attempt O)
set_phase i phase [] = []
set_phase zero phase (a ∷ rest) = record a { phase = phase } ∷ rest
set_phase (suc i) phase (a ∷ rest) = a ∷ set_phase i phase rest

abbrev pub is_rejected : {O : Type 0} → Attempt O → Bool
is_rejected a = elim a.phase [ rejected ↦ true | _ ↦ false ]

-- `certs.map(…)`, up to the first await of each attempt
unfoldable pub try_request_with_certificates :
    {O : Type 0} → Request → Cache → List Cert → Attempts O
try_request_with_certificates request cache certs = record {
  request = request;
  cache = cache;
  attempts = map (λ cert. record { cert = cert; phase = loading }) certs;
  answer = none;
}

abbrev pub aggregate_error : Failure
aggregate_error = error_named (codes "All promises were rejected") (codes "AggregateError")

abbrev pub all_rejected : {O : Type 0} → List (Attempt O) → Option (Result Response)
all_rejected attempts = if all is_rejected attempts then some (inr aggregate_error) else none

module _ {O : Type 0} (finish : Request → O → Result Response) (url : Url) where
  -- What an attempt does once its request is executed.
  abbrev pub conclude : ℕ → Cert → Result Response → Attempts O → Attempts O
  conclude i cert (inl response) s = record s {
    cache = add url cert s.cache;
    attempts = set_phase i fulfilled s.attempts;
    answer = either s.answer (some (inl response));
  }
  conclude i cert (inr err) s =
      let attempts = set_phase i rejected s.attempts in
      record s { attempts = attempts; answer = either s.answer (all_rejected attempts) }

  abbrev pub proceed_attempt : Event O → Attempt O → Attempts O → Attempts O
  proceed_attempt (file_read i extension content) a s = elim a.phase [
    | loading ↦
        let request = load_cert extension content a.cert s.request in
        record s { request = request; attempts = set_phase i (sent request) s.attempts }
    | _ ↦ s
  ]
  proceed_attempt (transfer_ended i outcome) a s = elim a.phase [
    | sent request ↦ record s { attempts = set_phase i (responding request outcome) s.attempts }
    | _ ↦ s
  ]
  proceed_attempt (response_ready i) a s = elim a.phase [
    | responding request outcome ↦ conclude i a.cert (finish request outcome) s
    | _ ↦ s
  ]

  abbrev pub index : Event O → ℕ
  index (file_read i extension content) = i
  index (transfer_ended i outcome) = i
  index (response_ready i) = i

  abbrev pub attempt_at : Event O → Attempts O → Option (Attempt O) → Attempts O
  attempt_at e s none = s
  attempt_at e s (some a) = proceed_attempt e a s

  unfoldable pub handle_attempt : Event O → Attempts O → Attempts O
  handle_attempt e s = attempt_at e s (get_elem? s.attempts (index e))

  unfoldable pub run_attempts : List (Event O) → Attempts O → Attempts O
  run_attempts [] s = s
  run_attempts (e ∷ events) s = run_attempts events (handle_attempt e s)
