-- ===== src/Utils/TlsErrors.antt =====
-- `isTlsCertError` of src/Utils/Helpers.ts, on the `code` of the error.
use bright_cli.Prelude.{
  ◌≡◌, refl, Bool, true, false, ◌||◌, Option, none, some, List, [], ◌∷◌, Text, codes, text_eq,
  starts_with, includes,
}

abbrev pub openssl_codes : List Text
openssl_codes =
    codes "CERT_HAS_EXPIRED"
    ∷ codes "CERT_NOT_YET_VALID"
    ∷ codes "DEPTH_ZERO_SELF_SIGNED_CERT"
    ∷ codes "SELF_SIGNED_CERT_IN_CHAIN"
    ∷ codes "UNABLE_TO_VERIFY_LEAF_SIGNATURE"
    ∷ codes "UNABLE_TO_GET_ISSUER_CERT_LOCALLY"
    ∷ codes "UNABLE_TO_GET_ISSUER_CERT"
    ∷ codes "HOSTNAME_MISMATCH"
    ∷ codes "CERT_REJECTED"
    ∷ codes "CERT_UNTRUSTED"
    ∷ []

unfoldable pub is_tls_cert_error : Option Text → Bool
is_tls_cert_error none = false
is_tls_cert_error (some code) =
    starts_with code (codes "ERR_TLS_")
    || text_eq code (codes "ECONNRESET")
    || includes openssl_codes code

reset_counts : is_tls_cert_error (some (codes "ECONNRESET")) ≡ true
unfolding is_tls_cert_error starts_with text_eq
reset_counts = refl
