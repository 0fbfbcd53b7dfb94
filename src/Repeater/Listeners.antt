-- ===== src/Repeater/Listeners.antt =====
-- The listeners of src/Repeater/DefaultRepeaterServer.ts: `on`, `off`, `disconnect`, the listeners that
-- `listenToApplicationEvents` calls, and `deploy`. A handler is the number of its function; each wrapper
-- that `on` makes gets a number of its own.
pub mod Removal
use bright_cli.Prelude.{
  ℕ, ◌+◌, Bool, true, false, ◌&&◌, ◌==◌, Option, none, some, List, [], ◌∷◌, ◌++◌, Text, codes,
  text_eq, any, filter_by, map, not, ltb, if◌then◌else◌, ◌⊎◌, inl, inr,
}

pub record Listener : Type 0 where
  pub event : Text
  pub handler : ℕ
  pub wrapper : ℕ

-- `events` and `handlerMap`
pub record Listeners : Type 0 where
  pub events : List Listener
  pub handler_map : List (ℕ × ℕ)
  pub next_wrapper : ℕ

abbrev pub no_listeners : Listeners
no_listeners = record { events = []; handler_map = []; next_wrapper = 0 }

-- `handlerMap.get`
unfoldable pub get_wrapper : ℕ → List (ℕ × ℕ) → Option ℕ
get_wrapper handler [] = none
get_wrapper handler ((h, w) ∷ handlers) =
    let rest = get_wrapper handler handlers in if h == handler then some w else rest

-- `handlerMap.delete`
unfoldable pub delete_handler : ℕ → List (ℕ × ℕ) → List (ℕ × ℕ)
delete_handler handler handlers = filter_by (λ entry. not (entry.0 == handler)) handlers

abbrev pub is_listener : Text → ℕ → Listener → Bool
is_listener event wrapper l = text_eq l.event event && l.wrapper == wrapper

-- `events.off`, which removes the listener that was added last
unfoldable pub remove_listener : Text → ℕ → List Listener → List Listener
remove_listener event wrapper [] = []
remove_listener event wrapper (l ∷ ls) =
    let rest = remove_listener event wrapper ls in
    if any (is_listener event wrapper) ls
    then l ∷ rest
    else if is_listener event wrapper l
    then ls
    else l ∷ ls

-- `on`
unfoldable pub on : Text → ℕ → Listeners → Listeners
on event handler s = record {
  events = s.events ++ record { event = event; handler = handler; wrapper = s.next_wrapper } ∷ [];
  handler_map = (handler, s.next_wrapper) ∷ delete_handler handler s.handler_map;
  next_wrapper = s.next_wrapper + 1;
}

abbrev pub off_wrapper : Text → ℕ → Option ℕ → Listeners → Listeners
off_wrapper event handler none s = s
off_wrapper event handler (some wrapper) s = record s {
  events = remove_listener event wrapper s.events;
  handler_map = delete_handler handler s.handler_map;
}

-- `off`
unfoldable pub off : Text → ℕ → Listeners → Listeners
off event handler s = off_wrapper event handler (get_wrapper handler s.handler_map) s

-- `disconnect`, of the listeners
unfoldable pub disconnect_listeners : Listeners → Listeners
disconnect_listeners s = record s { events = [] }

pub data ListenerCall : Type 0 where
  on_called off_called : Text → ℕ → ListenerCall
  disconnect_called : ListenerCall

unfoldable pub call_listener : ListenerCall → Listeners → Listeners
call_listener (on_called event handler) s = on event handler s
call_listener (off_called event handler) s = off event handler s
call_listener disconnect_called s = disconnect_listeners s

-- Calls, the first of the list last
unfoldable pub call_listeners : List ListenerCall → Listeners
call_listeners [] = no_listeners
call_listeners (call ∷ calls) = call_listener call (call_listeners calls)

-- The handlers that `events.emit` runs for an event, in their order
unfoldable pub handlers_for : Text → List Listener → List ℕ
handlers_for event ls = map (λ l. l.handler) (filter_by (λ l. text_eq l.event event) ls)

-- An argument of an event: a value, a function, or `undefined`.
pub data EventArg {ℓ} (Value : Type ℓ) : Type ℓ where
  value : Value → EventArg Value
  callback missing : EventArg Value

module _ {ℓ} {Value : Type ℓ} where
  -- `extractLastArgument`: the arguments that the handler gets, and whether there is a callback. With no
  -- arguments, `pop` gives `undefined`, which is put there.
  unfoldable pub extract_last_argument : List (EventArg Value) → List (EventArg Value) × Bool
  extract_last_argument [] = (missing ∷ [], false)
  extract_last_argument (callback ∷ []) = ([], true)
  extract_last_argument (value v ∷ []) = (value v ∷ [], false)
  extract_last_argument (missing ∷ []) = (missing ∷ [], false)
  extract_last_argument (arg ∷ next ∷ args) =
      let (kept, called) = extract_last_argument (next ∷ args) in (arg ∷ kept, called)

-- `wrapEventListener`, of what the handler settles with: the response for the callback, or the error
pub data Wrapped {ℓ} (Response : Type ℓ) : Type ℓ where
  responds : Response → Wrapped Response
  ends_quietly : Wrapped Response
  event_error : Text → Wrapped Response

unfoldable pub wrap_event_listener {ℓ ℓ'} :
    {Value : Type ℓ}
    → {Response : Type ℓ'} → (List (EventArg Value) → Response ⊎ Text)
    → List (EventArg Value)
    → Wrapped Response
wrap_event_listener handler args =
    let (kept, called) = extract_last_argument args in
    elim (handler kept) [
      | inl response ↦ if called then responds response else ends_quietly
      | inr error ↦ event_error error
    ]

abbrev pub max_deployment_timeout : ℕ
max_deployment_timeout = 60000

-- `deploy`, of the time after which the event comes, if it does: `inr` is the error `No response.`
unfoldable pub deploy_result : Option (ℕ × Text) → Text ⊎ Text
deploy_result none = inr (codes "No response.")
deploy_result (some (ms, repeater_id)) =
    if ltb ms max_deployment_timeout then inl repeater_id else inr (codes "No response.")
