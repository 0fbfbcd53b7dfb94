-- ===== src/RequestExecutor/Http/Attempts/Winner.antt =====
-- Which certificate is remembered for the answer of `tryRequestWithCertificates`.
use bright_cli.Prelude.{ℕ, ◌≡◌, none, some, List, ◌∷◌, ◌⊎◌, inl, inr, get_elem?}
use bright_cli.RequestExecutor.Url.{Url}
use bright_cli.RequestExecutor.Certificates.{Cert, get}
use bright_cli.RequestExecutor.Options.{Request, Response}
use bright_cli.RequestExecutor.Http.Runtime.{Failure, Result}
use bright_cli.RequestExecutor.Http.Attempts.{
  responding, Attempts, Event, response_ready, handle_attempt,
}

module _ {O : Type 0} (finish : Request → O → Result Response) (url : Url) where
  -- The attempt with the certificate is the first that gets a response: what it awaits after its
  -- transfer has settled while nothing is answered yet.
  pub data Wins : List (Event O) → Attempts O → Cert → Response → Type 0 where
    first :
        {i : ℕ} {outcome : O} {events : List (Event O)} {s : Attempts O} {cert : Cert}
        {request : Request} {response : Response}
        → s.answer ≡ none
        → get_elem? s.attempts i ≡ some (record { cert = cert; phase = responding request outcome })
        → finish request outcome ≡ inl response
        → Wins (response_ready i ∷ events) s cert response
    later :
        {e : Event O} {events : List (Event O)} {s : Attempts O} {cert : Cert} {response : Response}
        → s.answer ≡ none
        → (handle_attempt finish url e s).answer ≡ none
        → Wins events (handle_attempt finish url e s) cert response
        → Wins (e ∷ events) s cert response

  -- What one event makes of a state where nothing is answered or cached: the same, or no answer will
  -- come, or an attempt wins.
  abbrev IsNext : Event O → Attempts O → Attempts O → Type 0
  IsNext e s t =
      ((t.answer ≡ none) × (get url t.cache ≡ none))
      ⊎ (((err : Failure) × (t.answer ≡ some (inr err)))
          ⊎ ((cert : Cert) × (response : Response) × (t.answer ≡ some (inl response))
              × (get url t.cache ≡ some cert)
              × ((events : List (Event O)) → Wins (e ∷ events) s cert response)))
