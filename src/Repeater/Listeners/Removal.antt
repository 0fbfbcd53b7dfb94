-- ===== src/Repeater/Listeners/Removal.antt =====
-- What `off` undoes.
use bright_cli.Prelude.{
  ℕ, ◌+◌, ◌<◌, ◌≡◌, refl, ap, ◌∙◌, Bool, true, false, ◌&&◌, ◌==◌, ==_iff, Option, none, some, List,
  [], ◌∷◌, ◌++◌, Text, text_eq, text_eq_refl, any, All, arith, if◌then◌else◌,
}
use bright_cli.Repeater.Listeners.{
  Listener, Listeners, ListenerCall, get_wrapper, delete_handler, is_listener, remove_listener, on,
  off, on_called, off_called, disconnect_called, call_listener, call_listeners,
  disconnect_listeners, off_wrapper,
}

-- The numbers of the wrappers are below `n`.
abbrev AreBelow : ℕ → List Listener → Type 0
AreBelow n ls = All (λ l. l.wrapper < n) ls

AreBelow-later : (n : ℕ) (ls : List Listener) → AreBelow n ls → AreBelow (n + 1) ls
AreBelow-later n [] below = tt
AreBelow-later n (l ∷ ls) below = (omega (arith, below.0), AreBelow-later n ls below.1)

AreBelow-add :
    (n : ℕ) (l : Listener) (ls : List Listener)
    → AreBelow n ls
    → l.wrapper < n
    → AreBelow n (ls ++ l ∷ [])
AreBelow-add n l [] below h = (h, tt)
AreBelow-add n l (k ∷ ls) below h = (below.0, AreBelow-add n l ls below.1 h)

if-AreBelow :
    (n : ℕ) (b : Bool) (ls ks : List Listener)
    → AreBelow n ls
    → AreBelow n ks
    → AreBelow n (if b then ls else ks)
if-AreBelow n true ls ks h k = h
if-AreBelow n false ls ks h k = k

AreBelow-remove :
    (n : ℕ) (event : Text) (w : ℕ) (ls : List Listener)
    → AreBelow n ls
    → AreBelow n (remove_listener event w ls)
unfolding remove_listener
AreBelow-remove n event w [] below = tt
AreBelow-remove n event w (l ∷ ls) below =
    let rest = AreBelow-remove n event w ls below.1 in
    if-AreBelow n (any (is_listener event w) ls) (l ∷ remove_listener event w ls) _ (below.0, rest)
      (if-AreBelow n (is_listener event w l) ls (l ∷ ls) below.1 below)

AreBelow-off_wrapper :
    (event : Text) (h : ℕ) (o : Option ℕ) (s : Listeners)
    → AreBelow s.next_wrapper s.events
    → AreBelow (off_wrapper event h o s).next_wrapper (off_wrapper event h o s).events
AreBelow-off_wrapper event h none s below = below
AreBelow-off_wrapper event h (some w) s below =
    AreBelow-remove s.next_wrapper event w s.events below

call_listeners-AreBelow :
    (calls : List ListenerCall)
    → AreBelow (call_listeners calls).next_wrapper (call_listeners calls).events
unfolding call_listeners call_listener on off disconnect_listeners
call_listeners-AreBelow [] = tt
call_listeners-AreBelow (on_called event h ∷ calls) =
    let s = call_listeners calls in
    AreBelow-add (s.next_wrapper + 1) _ s.events
      (AreBelow-later s.next_wrapper s.events (call_listeners-AreBelow calls)) (omega arith)
call_listeners-AreBelow (off_called event h ∷ calls) =
    let s = call_listeners calls in
    AreBelow-off_wrapper event h (get_wrapper h s.handler_map) s (call_listeners-AreBelow calls)
call_listeners-AreBelow (disconnect_called ∷ calls) = tt

is_listener_self : (event : Text) (w : ℕ) → (text_eq event event && w == w) ≡ true
is_listener_self event w = ground (arith, text_eq_refl event)

any-is_listener-add :
    (event : Text) (h w : ℕ) (ls : List Listener)
    → any (is_listener event w) (ls ++ record { event = event; handler = h; wrapper = w } ∷ [])
      ≡ true
any-is_listener-add event h w [] = ground (arith, is_listener_self event w)
any-is_listener-add event h w (l ∷ ls) = ground (arith, any-is_listener-add event h w ls)

remove_listener-add :
    (event : Text) (h w : ℕ) (ls : List Listener)
    → AreBelow w ls
    → remove_listener event w (ls ++ record { event = event; handler = h; wrapper = w } ∷ []) ≡ ls
unfolding remove_listener
remove_listener-add event h w [] below = rw (is_listener_self event w) refl
remove_listener-add event h w (l ∷ ls) below =
    rw (any-is_listener-add event h w ls)
      (ap (λ ks. l ∷ ks) (remove_listener-add event h w ls below.1))

delete_handler-none : (h : ℕ) (m : List (ℕ × ℕ)) → get_wrapper h m ≡ none → delete_handler h m ≡ m
unfolding delete_handler get_wrapper
delete_handler-none h [] missing = refl
delete_handler-none h ((k, w) ∷ m) missing =
    let other : (k == h) ≡ false = ground (arith, missing) in
    let rest : get_wrapper h m ≡ none = ground (arith, missing) in
    rw other (ap (λ l. (k, w) ∷ l) (delete_handler-none h m rest))

-- After any calls of `on`, `off` and `disconnect`: a handler that is not registered, then registered
-- for an event and removed for that event, leaves the listeners and the map as they were.
pub off-on :
    (calls : List ListenerCall) (event : Text) (handler : ℕ)
    → get_wrapper handler (call_listeners calls).handler_map ≡ none
    → ((call_listeners (off_called event handler ∷ on_called event handler ∷ calls)).events
        ≡ (call_listeners calls).events)
      × ((call_listeners (off_called event handler ∷ on_called event handler ∷ calls)).handler_map
          ≡ (call_listeners calls).handler_map)
unfolding call_listeners call_listener on off get_wrapper delete_handler
off-on calls event h missing =
    let s = call_listeners calls in
    let w = s.next_wrapper in
    let same : (h == h) ≡ true = (==_iff h h).1 refl in
    let found : get_wrapper h (on event h s).handler_map ≡ some w = rw same refl in
    let removed = ap (λ o. off_wrapper event h o (on event h s)) found in
    let cleared : delete_handler h (on event h s).handler_map ≡ s.handler_map = rw same (
      rw (delete_handler-none h s.handler_map missing)
        (delete_handler-none h s.handler_map missing)) in
    (
      ap (λ t. t.events) removed
          ∙ remove_listener-add event h w s.events (call_listeners-AreBelow calls),
      ap (λ t. t.handler_map) removed ∙ cleared,
    )
