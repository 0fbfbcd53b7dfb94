-- ===== src/RequestExecutor/Http/Attempts/Kept.antt =====
-- What the events of `tryRequestWithCertificates` keep: its answer, and what is cached.
use bright_cli.Prelude.{
  ℕ, ◌≡◌, ap, Option, none, some, List, [], ◌∷◌, inl, inr, get_elem?, either, lookup-insert_self,
}
use bright_cli.RequestExecutor.Url.{Url}
use bright_cli.RequestExecutor.Certificates.{Cert, Cache, add, get, cache_key}
use bright_cli.RequestExecutor.Options.{Request, Response}
use bright_cli.RequestExecutor.Http.Runtime.{Result}
use bright_cli.RequestExecutor.Http.Attempts.{
  Phase, loading, fulfilled, rejected, sent, responding, Attempt, Attempts, Event, file_read,
  transfer_ended, response_ready, conclude, proceed_attempt, index, attempt_at, handle_attempt,
  run_attempts,
}

pub get-add-none :
    (url : Url) (cert : Cert) (cache : Cache)
    → get url cache ≡ none
    → get url (add url cert cache) ≡ some cert
unfolding get add
get-add-none url cert cache h = rw h (lookup-insert_self (cache_key url) cert cache)

pub get-add-some :
    (url : Url) (cert c : Cert) (cache : Cache)
    → get url cache ≡ some c
    → get url (add url cert cache) ≡ some c
unfolding get add
get-add-some url cert c cache h = rw h h

either-some : {A : Type 0} (o b : Option A) (a : A) → o ≡ some a → either o b ≡ some a
either-some o b a h = ap (λ u. either u b) h

pub either-none : {A : Type 0} (o b : Option A) → o ≡ none → either o b ≡ b
either-none o b h = ap (λ u. either u b) h

module _ {O : Type 0} (finish : Request → O → Result Response) (url : Url) where
  -- An answer and what is cached for the URL stay.
  abbrev pub IsKept : Attempts O → Attempts O → Type 0
  IsKept s t =
      ((a : Result Response) → s.answer ≡ some a → t.answer ≡ some a)
      × ((c : Cert) → get url s.cache ≡ some c → get url t.cache ≡ some c)

  IsKept-refl : (s : Attempts O) → IsKept s s
  IsKept-refl s = (λ a h. h, λ c h. h)

  conclude-IsKept :
      (i : ℕ) (cert : Cert) (r : Result Response) (s : Attempts O)
      → IsKept s (conclude finish url i cert r s)
  conclude-IsKept i cert (inl response) s =
      (λ a h. either-some s.answer _ a h, λ c h. get-add-some url cert c s.cache h)
  conclude-IsKept i cert (inr err) s = (λ a h. either-some s.answer _ a h, λ c h. h)

  proceed_attempt-IsKept :
      (e : Event O) (cert : Cert) (phase : Phase O) (s : Attempts O)
      → IsKept s (proceed_attempt finish url e (record { cert = cert; phase = phase }) s)
  proceed_attempt-IsKept (file_read i extension content) cert loading s = (λ a h. h, λ c h. h)
  proceed_attempt-IsKept (file_read i extension content) cert fulfilled s = IsKept-refl s
  proceed_attempt-IsKept (file_read i extension content) cert rejected s = IsKept-refl s
  proceed_attempt-IsKept (file_read i extension content) cert (sent r) s = IsKept-refl s
  proceed_attempt-IsKept (file_read i extension content) cert (responding r o) s = IsKept-refl s
  proceed_attempt-IsKept (transfer_ended i outcome) cert loading s = IsKept-refl s
  proceed_attempt-IsKept (transfer_ended i outcome) cert fulfilled s = IsKept-refl s
  proceed_attempt-IsKept (transfer_ended i outcome) cert rejected s = IsKept-refl s
  proceed_attempt-IsKept (transfer_ended i outcome) cert (sent r) s = (λ a h. h, λ c h. h)
  proceed_attempt-IsKept (transfer_ended i outcome) cert (responding r o) s = IsKept-refl s
  proceed_attempt-IsKept (response_ready i) cert loading s = IsKept-refl s
  proceed_attempt-IsKept (response_ready i) cert fulfilled s = IsKept-refl s
  proceed_attempt-IsKept (response_ready i) cert rejected s = IsKept-refl s
  proceed_attempt-IsKept (response_ready i) cert (sent r) s = IsKept-refl s
  proceed_attempt-IsKept (response_ready i) cert (responding r o) s =
      conclude-IsKept i cert (finish r o) s

  attempt_at-IsKept :
      (e : Event O) (s : Attempts O) (o : Option (Attempt O))
      → IsKept s (attempt_at finish url e s o)
  attempt_at-IsKept e s none = IsKept-refl s
  attempt_at-IsKept e s (some a) = proceed_attempt-IsKept e a.cert a.phase s

  pub handle_attempt-IsKept :
      (e : Event O) (s : Attempts O) → IsKept s (handle_attempt finish url e s)
  unfolding handle_attempt
  handle_attempt-IsKept e s = attempt_at-IsKept e s (get_elem? s.attempts (index finish url e))

  pub run_attempts-IsKept :
      (events : List (Event O)) (s : Attempts O) → IsKept s (run_attempts finish url events s)
  unfolding run_attempts
  run_attempts-IsKept [] s = IsKept-refl s
  run_attempts-IsKept (e ∷ events) s =
      let (a1, c1) = handle_attempt-IsKept e s in
      let (a2, c2) = run_attempts-IsKept events (handle_attempt finish url e s) in
      (λ a h. a2 a (a1 a h), λ c h. c2 c (c1 c h))
