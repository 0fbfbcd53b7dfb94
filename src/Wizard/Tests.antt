-- ===== src/Wizard/Tests.antt =====
-- The theorem of the wizard's reports at a concrete input, and tests of the definitions.
use mathlib.Core.List.Perm
use bright_cli.Prelude.{
  ℕ, join, ◌≡◌, refl, true, inr, List, [], ◌∷◌, ◌++◌, Text, codes, length, trim, is_space, split_at,
  starts_with,
}
use bright_cli.Wizard.Readline.{
  Wizardry, WizardStep, delimited_input, is_auth_token, process_ping, reports, asks, target_urls,
}
use bright_cli.Wizard.Readline.Reports.{Shows, process_ping-reports}

abbrev first_url : Text
first_url = codes "http://a"

abbrev wizardry : Wizardry
wizardry = record {
  answer = λ asked. codes "http://a, b";
  verify_access = λ type target. inr true;
  is_url = λ u. starts_with u (codes "http");
}

two_urls : delimited_input b',' (codes "http://a, ,b") ≡ first_url ∷ codes "b" ∷ []
unfolding delimited_input trim is_space split_at
two_urls = refl

process_ping-reports_example :
    (steps : List WizardStep) × (n : ℕ) × Shows wizardry (codes "b" ∷ first_url ∷ []) steps n
    × (process_ping wizardry (codes "b" ∷ first_url ∷ [])
        ≡ asks target_urls ∷ (steps ++ reports n (length (first_url ∷ codes "b" ∷ [])) ∷ []))
unfolding is_space join
process_ping-reports_example =
    process_ping-reports wizardry first_url (codes "b" ∷ []) (codes "b" ∷ first_url ∷ [])
      (((refl, refl), refl), (((refl, refl), refl), tt)) refl (Perm.swap first_url (codes "b") [])

token : is_auth_token (codes "abcdef1.nexp.0123456789abcdefghijklmnopqrstuv") ≡ true
unfolding is_auth_token starts_with
token = refl
