-- ===== src/Wizard/Readline.antt =====
-- src/Wizard/Readline/ReadlinePlatform.ts, as the list of what it asks, tests and reports, with
-- src/Wizard/Connectivity/DefaultConnectivityAnalyzer.ts. The answers of the user, the tests of the
-- connection and the parser of URLs are parameters; log texts are left out, and the tokens
-- are written without an error.
pub mod Reports
use bright_cli.Prelude.{
  ℕ, zero, suc, ◌+◌, ◌-◌, Bool, true, false, not, ◌&&◌, ◌||◌, ◌==◌, leb, Option, none, some, List,
  [], ◌∷◌, ◌++◌, Text, codes, is_empty, any, starts_with, split_at, trim, map, filter_by, length,
  take, drop, or_else, ◌⊎◌, inl, inr, if◌then◌else◌,
}

pub data TestType : Type 0 where
  http auth traceroute : TestType

-- What a test is given: the URL of its type, one that is parsed from a text, or a host.
pub data Target : Type 0 where
  of_type : Target
  url host : Text → Target

pub data Asked : Type 0 where
  repeater_id auth_token target_urls target_host : Asked

pub data WizardStep : Type 0 where
  asks : Asked → WizardStep
  tests : TestType → Target → Bool → WizardStep
  writes_tokens : Text → Text → WizardStep
  refuses_token refuses_id : WizardStep
  -- how many of how many URLs could not be reached
  reports : ℕ → ℕ → WizardStep
  reports_trace : Bool → WizardStep
  done_message : WizardStep

-- What the wizard reads and calls. A test gives its result or throws; `is_url` is that `new URL` takes it.
pub record Wizardry : Type 0 where
  pub answer : Asked → Text
  pub verify_access : TestType → Target → Text ⊎ Bool
  pub is_url : Text → Bool

abbrev is_token_code : ℕ → Bool
is_token_code c =
    (leb b'A' c && leb c b'Z')
    || (leb b'a' c && leb c b'z')
    || (leb b'0' c && leb c b'9')
    || c == b'+'
    || c == b'/'
    || c == b'='

abbrev are_token_codes : ℕ → Text → Bool
are_token_codes n s = length s == n && not (any (λ c. not (is_token_code c)) s)

-- `AUTH_TOKEN_VALIDATION_REGEXP.test`
unfoldable pub is_auth_token : Text → Bool
is_auth_token s =
    are_token_codes 7 (take 7 s)
    && (starts_with (drop 7 s) (codes ".nexa.") || starts_with (drop 7 s) (codes ".nexp."))
    && are_token_codes 32 (drop 13 s)

-- `getDelimitedInput`
unfoldable pub delimited_input : ℕ → Text → List Text
delimited_input delimiter value =
    if is_empty (trim value)
    then []
    else filter_by (λ x. not (is_empty x)) (map trim (split_at delimiter (trim value)))

-- `process`, of what the handler settles with
abbrev pub succeeded : Text ⊎ Bool → Bool
succeeded (inl message) = false
succeeded (inr result) = result

module _ (w : Wizardry) where
  -- `requestTokens`
  unfoldable pub request_tokens : List WizardStep
  request_tokens =
      asks repeater_id
      ∷ asks auth_token
      ∷ (if is_empty (w.answer auth_token) || not (is_auth_token (w.answer auth_token))
          then refuses_token ∷ []
          else if is_empty (w.answer repeater_id)
          then refuses_id ∷ []
          else writes_tokens (w.answer repeater_id) (w.answer auth_token) ∷ [])

  abbrev pub run_test : TestType → Target → WizardStep
  run_test type target = tests type target (succeeded (w.verify_access type target))

  -- `processExternalCommunication`, with `processConnectivity`
  unfoldable pub external_communication : List WizardStep
  external_communication = run_test http of_type ∷ run_test auth of_type ∷ []

  -- The call of the pool on a URL: whether it is reached
  abbrev pub reached : Text → Bool
  reached u = if w.is_url u then succeeded (w.verify_access http (url u)) else false

  -- `reachedCount`, where the calls end in the order of the list
  unfoldable pub reached_count : List Text → ℕ
  reached_count [] = 0
  reached_count (u ∷ urls) = (if reached u then 1 else 0) + reached_count urls

  -- `processPing`, where the calls of the pool end in the order of `finished`
  unfoldable pub process_ping : List Text → List WizardStep
  process_ping finished =
      let urls = delimited_input b',' (w.answer target_urls) in
      asks target_urls
      ∷ (map (λ u. tests http (url u) (reached u)) finished
          ++ reports (length urls - reached_count finished) (length urls) ∷ [])

  -- `processTraceroute`; a test that throws makes `start` reject, so nothing follows.
  unfoldable pub process_traceroute : List WizardStep
  process_traceroute =
      let target = host (w.answer target_host) in
      asks target_host ∷ elim (w.verify_access traceroute target) [
        | inl message ↦ []
        | inr result ↦ tests traceroute target result ∷ reports_trace result ∷ done_message ∷ []
      ]

  -- `configure`
  unfoldable pub configure : Bool → List Text → List WizardStep
  configure ping finished =
      (if ping then [] else request_tokens ++ external_communication) ++ process_ping finished

  -- `start`
  unfoldable pub start_wizard : (trace ping : Bool) → List Text → List WizardStep
  start_wizard trace ping finished =
      if trace then process_traceroute else configure ping finished ++ done_message ∷ []
