-- ===== src/RequestExecutor/Http/Execute/Answers.antt =====
-- What `execute` answers, whatever the scripts and the transfer do.
use bright_cli.Prelude.{
  ◌≡◌, ◌≢◌, refl, true, Option, none, some, [], ◌⊎◌, inl, inr, is_some, either, arith,
}
use bright_cli.Scripts.{VirtualScript, Store, find}
use bright_cli.RequestExecutor.Options.{http, Request, Response}
use bright_cli.RequestExecutor.Http.{HttpRequestExecutor}
use bright_cli.RequestExecutor.Http.Runtime.{
  Failure, Result, bind, ResponseView, HttpRuntime, Received,
}
use bright_cli.RequestExecutor.Http.Execute.{
  Started, answered, trying, error_response, settle, new_url, patched, respond_with, respond_by,
  handle_response_script, response_of, finish_request,
}

-- A response of the target: it has a status code, and no error.
abbrev pub IsReply : Response → Type 0
IsReply r =
    (r.protocol ≡ http)
    × (is_some r.status_code ≡ true)
    × (r.message ≡ none)
    × (r.error_code ≡ none)

-- An error: it has nothing of a response of the target.
abbrev pub IsError : Response → Type 0
IsError r = (r.protocol ≡ http) × (r.status_code ≡ none) × (r.headers ≡ none) × (r.body ≡ none)

-- A property of the value, if there is one.
abbrev pub IfReturned : {A : Type 0} → (A → Type 0) → Result A → Type 0
IfReturned P (inl a) = P a
IfReturned P (inr e) = Unit

abbrev pub IsAnswered : Started → Type 0
IsAnswered (answered r) = IsReply r ⊎ IsError r
IsAnswered (trying r certs) = certs ≢ []

bind-IfReturned :
    {A B : Type 0} (P : B → Type 0) (r : Result A) (f : A → Result B)
    → ((a : A) → IfReturned P (f a))
    → IfReturned P (bind r f)
bind-IfReturned P (inl a) f h = h a
bind-IfReturned P (inr e) f h = tt

error_response-IsError : (e : Failure) → IsError (error_response e)
unfolding error_response
error_response-IsError e = (refl, refl, refl, refl)

pub settle-IsAnswer :
    (r : Result Response) → IfReturned IsReply r → IsReply (settle r) ⊎ IsError (settle r)
settle-IsAnswer (inl r) h = inl h
settle-IsAnswer (inr e) h = inr (error_response-IsError e)

is_some-either : {A : Type 0} (a b : Option A) → is_some b ≡ true → is_some (either a b) ≡ true
is_some-either none b h = h
is_some-either (some a) b h = refl

patched-IsReply :
    (r : Response) (result : Option ResponseView) → IsReply r → IsReply (patched r result)
patched-IsReply r none h = h
patched-IsReply r (some result) (p, s, m, e) =
    (p, is_some-either result.status_code r.status_code s, refl, refl)

respond_with-IsReply :
    (r : Response) (on_response : Option (ResponseView → Result (Option ResponseView)))
    → IsReply r
    → IfReturned IsReply (respond_with r on_response)
respond_with-IsReply r none h = h
respond_with-IsReply r (some on_response) h =
    bind-IfReturned IsReply
      (on_response (record {
        protocol = r.protocol;
        status_code = r.status_code;
        headers = r.headers;
        body = r.body;
      }))
      (λ result. inl (patched r result)) (λ result. patched-IsReply r result h)

module _ (env : HttpRuntime) (x : HttpRequestExecutor) (store : Store) where
  respond_by-IsReply :
      (r : Response) (vm : Option VirtualScript)
      → IsReply r
      → IfReturned IsReply (respond_by env x store r vm)
  respond_by-IsReply r none h = h
  respond_by-IsReply r (some vm) h =
      bind-IfReturned IsReply (env.run_script vm) (λ exports. respond_with r exports.on_response)
        (λ exports. respond_with-IsReply r exports.on_response h)

  response_of-IsReply :
      (request : Request) (received : Received) → IsReply (response_of env x store request received)
  response_of-IsReply request received = ground arith

  pub finish_request-IsReply :
      (request : Request) (outcome : Result Received)
      → IfReturned IsReply (finish_request env x store request outcome)
  unfolding finish_request handle_response_script
  finish_request-IsReply request outcome =
      bind-IfReturned IsReply outcome
        (λ received. bind (new_url env x store request.url) (λ u.
          respond_by env x store (response_of env x store request received)
            (find u.hostname store)))
        (λ received.
          bind-IfReturned IsReply (new_url env x store request.url)
            (λ u.
              respond_by env x store (response_of env x store request received)
                (find u.hostname store))
            (λ u.
              respond_by-IsReply (response_of env x store request received) (find u.hostname store)
                (response_of-IsReply request received)))
