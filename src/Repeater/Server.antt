-- ===== src/Repeater/Server.antt =====
-- The connection of src/Repeater/DefaultRepeaterServer.ts: the handlers that `listenToReservedEvents`
-- registers, as steps on the fields of the server, with what each does. Timers are told apart by
-- numbers; a random part of a delay comes with the event that draws it.
pub mod Reconnection
use bright_cli.Prelude.{
  ℕ, ◌+◌, ◌*◌, ◌^◌, max, min, Bool, true, false, ◌||◌, not, Option, none, some, List, [], ◌∷◌, ◌++◌,
  Text, codes, text_eq, if◌then◌else◌,
}

-- `RepeaterErrorCodes`; of the `data` of a connection error, the code is read.
pub data ErrorCode : Type 0 where
  not_permitted already_started deactivated unauthorized : ErrorCode
  no_longer_supported unknown_error unexpected_error : ErrorCode

-- The events of the socket and of its manager, and the timer of a reconnection.
pub data SocketEvent : Type 0 where
  connect : SocketEvent
  connect_error : Option ErrorCode → Text → ℕ → SocketEvent
  disconnect : Text → SocketEvent
  reconnect reconnect_failed : SocketEvent
  reconnect_error : Text → SocketEvent
  reconnect_attempt : ℕ → SocketEvent
  timer_fires : ℕ → SocketEvent

-- What a handler does: it emits an event of the server, or calls the socket or the clock.
pub data Action : Type 0 where
  connected disconnected reconnection_succeeded : Action
  error_event : ErrorCode → Text → Action
  attempted : ℕ → Action
  reconnection_failed : Option Text → Action
  socket_connect : Action
  set_timeout : ℕ → ℕ → Action
  clear_timeout : ℕ → Action

pub record RepeaterServer : Type 0 where
  pub connection_attempts : ℕ
  pub latest_reconnection_error : Option Text
  pub connection_timer : Option ℕ
  -- the number that the next timer gets
  pub next_timer : ℕ

abbrev min_reconnection_delay : ℕ
min_reconnection_delay = 5000

abbrev max_reconnection_delay : ℕ
max_reconnection_delay = 1000

-- The delay of `scheduleReconnection`, where `random` stands for `delay * 0.3 * Math.random()`.
unfoldable pub reconnection_delay : ℕ → ℕ → ℕ
reconnection_delay attempts random =
    min (max (min_reconnection_delay * 2 ^ attempts) min_reconnection_delay + random)
      max_reconnection_delay

-- `scheduleReconnection`
unfoldable pub schedule_reconnection : ℕ → RepeaterServer → RepeaterServer × List Action
schedule_reconnection random s = (
  record s {
    connection_attempts = s.connection_attempts + 1;
    connection_timer = some s.next_timer;
    next_timer = s.next_timer + 1;
  },
  attempted (s.connection_attempts + 1)
      ∷ set_timeout s.next_timer (reconnection_delay s.connection_attempts random)
      ∷ [],
)

-- `suppressConnectionError`, which holds for the codes that are reported
unfoldable pub suppress_connection_error : ErrorCode → Bool
suppress_connection_error unauthorized = true
suppress_connection_error not_permitted = true
suppress_connection_error _ = false

abbrev report : Option ErrorCode → Text → List Action
report none message = []
report (some code) message =
    if suppress_connection_error code then error_event code message ∷ [] else []

-- `handleConnectionError`
unfoldable pub handle_connection_error :
    Option ErrorCode → Text → ℕ → RepeaterServer → RepeaterServer × List Action
handle_connection_error data_code message random s =
    let (s', actions) = schedule_reconnection random s in (s', report data_code message ++ actions)

-- `clearConnectionTimer`
abbrev clear_connection_timer : Option ℕ → List Action
clear_connection_timer none = []
clear_connection_timer (some timer) = clear_timeout timer ∷ []

-- `handleConnect`
unfoldable pub handle_connect : RepeaterServer → RepeaterServer × List Action
handle_connect s = (
  record s { connection_attempts = 0 },
  clear_connection_timer s.connection_timer ++ connected ∷ [],
)

-- `handleDisconnect`
unfoldable pub handle_disconnect : Text → List Action
handle_disconnect reason =
    (if not (text_eq reason (codes "io client disconnect")) then disconnected ∷ [] else [])
    ++ (if text_eq reason (codes "io server disconnect") then socket_connect ∷ [] else [])

-- The handler that an event runs.
unfoldable pub handle : SocketEvent → RepeaterServer → RepeaterServer × List Action
handle connect s = handle_connect s
handle (connect_error data_code message random) s =
    handle_connection_error data_code message random s
handle (disconnect reason) s = (s, handle_disconnect reason)
handle reconnect s = (record s { latest_reconnection_error = none }, reconnection_succeeded ∷ [])
handle reconnect_failed s = (s, reconnection_failed s.latest_reconnection_error ∷ [])
handle (reconnect_error message) s = (record s { latest_reconnection_error = some message }, [])
handle (reconnect_attempt attempt) s = (s, attempted attempt ∷ [])
handle (timer_fires timer) s = (s, socket_connect ∷ [])

-- Events in the order in which they happen.
unfoldable pub handle_all : List SocketEvent → RepeaterServer → RepeaterServer × List Action
handle_all [] s = (s, [])
handle_all (e ∷ es) s =
    let (s', actions) = handle e s in let (s'', later) = handle_all es s' in (s'', actions ++ later)

abbrev pub new_server : RepeaterServer
new_server = record {
  connection_attempts = 0;
  latest_reconnection_error = none;
  connection_timer = none;
  next_timer = 0;
}
