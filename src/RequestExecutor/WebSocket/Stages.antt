-- ===== src/RequestExecutor/WebSocket/Stages.antt =====
-- What holds of an exchange with a client at each of its stages.
use bright_cli.Prelude.{
  ℕ, ◌≡◌, ◌≢◌, refl, sym, subst, Bool, true, false, Option, none, some, Text, if◌then◌else◌,
}
use bright_cli.RequestExecutor.Options.{Response}
use bright_cli.RequestExecutor.WebSocket.{
  WsFailure, Upgrade, ReadyState, connecting, is_open_state, closing, closed, Stage, connects,
  sends, consumes, returned, thrown, crashed, Exchange, finish, ws_response, after_connect, fail,
  matches_id, ClientEvent, upgraded, received, client_closed,
}

-- The timer is cleared, and the client is not left open.
abbrev pub IsReleased : Exchange → Type 0
IsReleased x = (x.has_timeout ≡ false) × (x.ready_state ≢ is_open_state)

-- The events of a client: those that are said to have come.
abbrev pub Events : Type 1
Events = ClientEvent → Type 0

-- The response has a frame that has come and matches, or the code and the reason of the end of the
-- connection that has come, and otherwise what has come of the upgrade.
pub data IsFrameOrClose (matcher : Option (Text → Bool)) (Came : Events) : Response → Type 0 where
  frame :
      (upgrade : Upgrade) (text : Text)
      → Came (upgraded upgrade)
      → Came (received text)
      → matches_id matcher text ≡ true
      → IsFrameOrClose matcher Came (ws_response upgrade none (some text))
  last_close :
      (upgrade : Upgrade) (code : ℕ) (reason : Text)
      → Came (upgraded upgrade)
      → Came (client_closed code reason)
      → IsFrameOrClose matcher Came (ws_response upgrade (some code) (some reason))

abbrev pub HasCome : Events → Option Upgrade → Type 0
HasCome Came none = Unit
HasCome Came (some upgrade) = Came (upgraded upgrade)

abbrev pub IsStage : Option (Text → Bool) → Events → Stage → Exchange → Type 0
IsStage matcher Came (connects is_open upgrade) x = (x.has_timeout ≡ false) × HasCome Came upgrade
IsStage matcher Came (sends upgrade) x = (x.has_timeout ≡ false) × Came (upgraded upgrade)
IsStage matcher Came (consumes upgrade) x = (x.has_timeout ≡ true) × Came (upgraded upgrade)
IsStage matcher Came (returned r) x = IsReleased x × IsFrameOrClose matcher Came r
IsStage matcher Came (thrown e) x = IsReleased x
IsStage matcher Came crashed x = Unit

-- While a frame is awaited, a timer runs, and before that none does; an exchange that returns or
-- throws has released its timer and its client.
abbrev pub IsSound : Option (Text → Bool) → Events → Exchange → Type 0
IsSound matcher Came x = IsStage matcher Came x.stage x

pub finish-IsReleased : (stage : Stage) (x : Exchange) → IsReleased (finish stage x)
unfolding finish
finish-IsReleased stage x = (refl, not_open x.ready_state)
  where
    not_open :
        (s : ReadyState) → (elim s [ is_open_state ↦ closing | state ↦ state ]) ≢ is_open_state
    not_open connecting e = cc
    not_open is_open_state e = cc
    not_open closing e = cc
    not_open closed e = cc

module _ (matcher : Option (Text → Bool)) (Came : Events) where
  pub unchanged :
      (stage : Stage) (x : Exchange)
      → x.stage ≡ stage
      → IsStage matcher Came stage x
      → IsSound matcher Came x
  unchanged stage x s h = subst (λ t. IsStage matcher Came t x) (sym s) h

  pub after_connect-IsStage :
      (is_open : Bool) (upgrade : Option Upgrade) (x : Exchange)
      → x.has_timeout ≡ false
      → HasCome Came upgrade
      → IsStage matcher Came (after_connect is_open upgrade) x
  after_connect-IsStage true none x h come = (h, come)
  after_connect-IsStage true (some u) x h come = (h, come)
  after_connect-IsStage false none x h come = (h, come)
  after_connect-IsStage false (some u) x h come = (h, come)

  pub closed-IsStage :
      (stage : Stage) (x : Exchange)
      → IsStage matcher Came stage x
      → IsStage matcher Came stage (record x { ready_state = closed })
  closed-IsStage (connects is_open upgrade) x h = h
  closed-IsStage (sends upgrade) x h = h
  closed-IsStage (consumes upgrade) x h = h
  closed-IsStage (returned r) x ((timer, ready), from) = ((timer, λ e. cc), from)
  closed-IsStage (thrown e) x (timer, ready) = (timer, λ e. cc)
  closed-IsStage crashed x h = tt

  pub fail-IsSound :
      (e : WsFailure) (state : ReadyState) (stage : Stage) (x : Exchange)
      → x.stage ≡ stage
      → IsStage matcher Came stage x
      → IsSound matcher Came (fail e state stage x)
  unfolding finish
  fail-IsSound e state (connects is_open upgrade) x s h =
      finish-IsReleased (thrown e) (record x { ready_state = state })
  fail-IsSound e state (sends upgrade) x s h = tt
  fail-IsSound e state (consumes upgrade) x s h =
      finish-IsReleased (thrown e) (record x { ready_state = state })
  fail-IsSound e state (returned r) x s h = unchanged (returned r) x s h
  fail-IsSound e state (thrown f) x s h = unchanged (thrown f) x s h
  fail-IsSound e state crashed x s h = unchanged crashed x s h

  pub if-IsSound :
      (b : Bool) (x y : Exchange)
      → (b ≡ true → IsSound matcher Came x)
      → IsSound matcher Came y
      → IsSound matcher Came (if b then x else y)
  if-IsSound true x y h k = h refl
  if-IsSound false x y h k = k
