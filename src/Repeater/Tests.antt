-- ===== src/Repeater/Tests.antt =====
-- The theorems on reconnection and on listeners at concrete inputs, and tests of the definitions.
use bright_cli.Prelude.{ℕ, ◌≡◌, refl, inl, length, none, some, List, [], ◌∷◌, codes, text_eq, All}
use bright_cli.Repeater.Listeners.{
  ListenerCall, call_listener, call_listeners, delete_handler, ends_quietly, extract_last_argument,
  get_wrapper, handlers_for, off, off_called, on, on_called, remove_listener, wrap_event_listener,
}
use bright_cli.Repeater.Listeners.Removal.{off-on}
use bright_cli.Repeater.Server.{
  unauthorized, SocketEvent, connect, connect_error, timer_fires, handle_all, new_server,
}
use bright_cli.Repeater.Server.Reconnection.{IsOneSecond, handle_all-IsOneSecond}

abbrev events : List SocketEvent
events =
    connect_error none (codes "refused") 100
    ∷ timer_fires 0
    ∷ connect
    ∷ connect_error (some unauthorized) (codes "token") 1500
    ∷ timer_fires 1
    ∷ connect_error none (codes "refused") 0
    ∷ []

handle_all-IsOneSecond_example : All IsOneSecond (handle_all events new_server).1
handle_all-IsOneSecond_example = handle_all-IsOneSecond events new_server

abbrev earlier_calls : List ListenerCall
earlier_calls =
    on_called (codes "limits") 2 ∷ off_called (codes "limits") 1 ∷ on_called (codes "limits") 1 ∷ []

off-on_example :
    ((call_listeners
        (off_called (codes "error") 7 ∷ on_called (codes "error") 7 ∷ earlier_calls)).events
      ≡ (call_listeners earlier_calls).events)
    × ((call_listeners
          (off_called (codes "error") 7 ∷ on_called (codes "error") 7 ∷ earlier_calls)).handler_map
        ≡ (call_listeners earlier_calls).handler_map)
unfolding call_listeners call_listener on off get_wrapper delete_handler
off-on_example = off-on earlier_calls (codes "error") 7 refl

-- A handler that is registered for two events stays registered for the first, whatever is removed.
two_events :
    handlers_for
      (codes "limits")
      (call_listeners (
        off_called (codes "limits") 7
        ∷ off_called (codes "error") 7
        ∷ on_called (codes "error") 7
        ∷ on_called (codes "limits") 7
        ∷ [])).events
    ≡ 7 ∷ []
unfolding call_listeners call_listener on off get_wrapper delete_handler remove_listener
    handlers_for text_eq
two_events = refl

no_arguments : wrap_event_listener {Value = ℕ} (λ args. inl (length args)) [] ≡ ends_quietly
unfolding wrap_event_listener extract_last_argument
no_arguments = refl
