-- ===== src/Repeater/Server/Reconnection.antt =====
-- How the repeater reconnects.
use bright_cli.Prelude.{
  ℕ, ◌+◌, ◌≡◌, refl, Bool, true, false, not, Option, none, some, List, [], ◌∷◌, ◌++◌, Text, text_eq,
  codes, All, All-append, arith, if◌then◌else◌,
}
use bright_cli.Repeater.Server.{
  ErrorCode, SocketEvent, connect, connect_error, disconnect, reconnect, reconnect_failed,
  reconnect_error, reconnect_attempt, timer_fires, Action, connected, disconnected, error_event,
  socket_connect, set_timeout, RepeaterServer, reconnection_delay, schedule_reconnection,
  suppress_connection_error, handle_connection_error, handle_connect, handle_disconnect, handle,
  handle_all, report, clear_connection_timer,
}

-- The errors since the last connection, of which there were `before` at the start.
abbrev pub errors_since_connect : ℕ → List SocketEvent → ℕ
errors_since_connect before [] = before
errors_since_connect before (connect ∷ es) = errors_since_connect 0 es
errors_since_connect before (connect_error d m r ∷ es) = errors_since_connect (before + 1) es
errors_since_connect before (e ∷ es) = errors_since_connect before es

-- The server counts the connection errors since it was last connected, through any events.
pub handle_all-connection_attempts :
    (es : List SocketEvent) (s : RepeaterServer)
    → (handle_all es s).0.connection_attempts ≡ errors_since_connect s.connection_attempts es
unfolding handle_all handle handle_connection_error schedule_reconnection handle_connect
handle_all-connection_attempts [] s = refl
handle_all-connection_attempts (connect ∷ es) s = handle_all-connection_attempts es _
handle_all-connection_attempts (connect_error d m r ∷ es) s = handle_all-connection_attempts es _
handle_all-connection_attempts (disconnect reason ∷ es) s = handle_all-connection_attempts es _
handle_all-connection_attempts (reconnect ∷ es) s = handle_all-connection_attempts es _
handle_all-connection_attempts (reconnect_failed ∷ es) s = handle_all-connection_attempts es _
handle_all-connection_attempts (reconnect_error m ∷ es) s = handle_all-connection_attempts es _
handle_all-connection_attempts (reconnect_attempt n ∷ es) s = handle_all-connection_attempts es _
handle_all-connection_attempts (timer_fires t ∷ es) s = handle_all-connection_attempts es _

-- A timer is set for one second.
abbrev pub IsOneSecond : Action → Type 0
IsOneSecond (set_timeout timer delay) = delay ≡ 1000
IsOneSecond _ = Unit

reconnection_delay_lem : (attempts random : ℕ) → reconnection_delay attempts random ≡ 1000
unfolding reconnection_delay
reconnection_delay_lem attempts random = omega arith

report-IsOneSecond : (d : Option ErrorCode) (m : Text) → All IsOneSecond (report d m)
report-IsOneSecond none m = tt
report-IsOneSecond (some code) m = if_error (suppress_connection_error code)
  where
    if_error : (b : Bool) → All IsOneSecond (if b then error_event code m ∷ [] else [])
    if_error true = (tt, tt)
    if_error false = tt

handle_disconnect-IsOneSecond : (reason : Text) → All IsOneSecond (handle_disconnect reason)
unfolding handle_disconnect
handle_disconnect-IsOneSecond reason =
    both (text_eq reason (codes "io client disconnect"))
      (text_eq reason (codes "io server disconnect"))
  where
    both :
        (a b : Bool)
        → All IsOneSecond
            ((if not a then disconnected ∷ [] else []) ++ (if b then socket_connect ∷ [] else []))
    both true true = (tt, tt)
    both true false = tt
    both false true = (tt, (tt, tt))
    both false false = (tt, tt)

clear-IsOneSecond :
    (timer : Option ℕ) → All IsOneSecond (clear_connection_timer timer ++ connected ∷ [])
clear-IsOneSecond none = (tt, tt)
clear-IsOneSecond (some t) = (tt, (tt, tt))

handle-IsOneSecond : (e : SocketEvent) (s : RepeaterServer) → All IsOneSecond (handle e s).1
unfolding handle handle_connection_error schedule_reconnection handle_connect
handle-IsOneSecond connect s = clear-IsOneSecond s.connection_timer
handle-IsOneSecond (connect_error d m r) s =
    All-append IsOneSecond (report d m) _ (report-IsOneSecond d m)
      (tt, (reconnection_delay_lem s.connection_attempts r, tt))
handle-IsOneSecond (disconnect reason) s = handle_disconnect-IsOneSecond reason
handle-IsOneSecond reconnect s = (tt, tt)
handle-IsOneSecond reconnect_failed s = (tt, tt)
handle-IsOneSecond (reconnect_error m) s = tt
handle-IsOneSecond (reconnect_attempt n) s = (tt, tt)
handle-IsOneSecond (timer_fires t) s = (tt, tt)

-- Through any events, every timer of a reconnection is set for exactly one second, however many
-- attempts have failed and whatever the random part of the delay.
pub handle_all-IsOneSecond :
    (es : List SocketEvent) (s : RepeaterServer) → All IsOneSecond (handle_all es s).1
unfolding handle_all
handle_all-IsOneSecond [] s = tt
handle_all-IsOneSecond (e ∷ es) s =
    All-append IsOneSecond (handle e s).1 _ (handle-IsOneSecond e s)
      (handle_all-IsOneSecond es (handle e s).0)
