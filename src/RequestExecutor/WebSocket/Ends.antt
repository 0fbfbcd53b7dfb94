-- ===== src/RequestExecutor/WebSocket/Ends.antt =====
-- How an exchange with a client ends.
use bright_cli.Prelude.{◌⊎◌, ◌≡◌, List, [], ◌∷◌}
use bright_cli.RequestExecutor.WebSocket.{ClientEvent}
use bright_cli.RequestExecutor.WebSocket.Stages.{Events}

-- The events of a list.
abbrev pub IsAmong : List ClientEvent → Events
IsAmong [] e = ⊥
IsAmong (x ∷ events) e = (e ≡ x) ⊎ IsAmong events e
