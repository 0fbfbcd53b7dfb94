-- ===== src/Utils/Pool.antt =====
-- `pool` of src/Utils/Helpers.ts: calls of a function on the items of a list, at most so many at a
-- time, as a machine over the calls that settle. A call is known by the number of its item. What
-- `Promise.all` makes of their results is left out.
pub mod Promises
pub mod Bounds
use bright_cli.Prelude.{
  ℕ, zero, suc, ◌+◌, ◌≤◌, ◌<◌, ◌≡◌, refl, sym, ap, ◌∙◌, Bool, true, false, ◌&&◌, List, [], ◌∷◌,
  ◌++◌, append_assoc, append-nil, length, length-append, max, leb, ltb, Bool-cases, inl, inr, arith,
  if◌then◌else◌, ◌==◌, any, Option, none, some, option_map,
}

-- Where the loop over the items stands: in `Promise.race`, due to go on after it, at its end, or
-- ended by a call that failed.
pub data Loop : Type 0 where
  racing resuming ended failed : Loop

-- The items a call was made for, the calls that have not settled, the calls in `poolPromises`, the items
-- that are left, and whether a call has failed: its promise stays, and makes every race fail. The code
-- does not know which calls have not settled.
pub record Pool (A : Type 0) : Type 0 where
  pub started : List A
  pub in_progress : List ℕ
  pub pool_promises : List ℕ
  pub waiting : List A
  pub loop : Loop
  pub has_rejected : Bool

-- The call for an item succeeds or fails, or the loop goes on.
pub data PoolEvent : Type 0 where
  call_fulfilled : ℕ → PoolEvent
  call_rejected : ℕ → PoolEvent
  loop_resumes : PoolEvent

abbrev pub wake : Loop → Loop
wake racing = resuming
wake loop = loop

-- What a rejected promise makes of the loop.
abbrev pub break_off : Loop → Loop
break_off racing = failed
break_off loop = loop

-- `poolPromises.indexOf`; `none` is -1.
unfoldable pub index_of : ℕ → List ℕ → Option ℕ
index_of n [] = none
index_of n (p ∷ ps) = let later = option_map suc (index_of n ps) in if p == n then some 0 else later

-- `poolPromises.splice(i, 1)`
unfoldable pub splice_one : ℕ → List ℕ → List ℕ
splice_one i [] = []
splice_one zero (p ∷ ps) = ps
splice_one (suc i) (p ∷ ps) = p ∷ splice_one i ps

-- The same for the index of `indexOf`, where -1 is the last.
abbrev pub splice_at : Option ℕ → List ℕ → List ℕ
splice_at (some i) ps = splice_one i ps
splice_at none [] = []
splice_at none (p ∷ ps) = splice_one (length ps) (p ∷ ps)

-- A call that settles is in progress no more.
unfoldable pub settle_call : ℕ → List ℕ → List ℕ
settle_call n [] = []
settle_call n (p ∷ ps) = let later = p ∷ settle_call n ps in if p == n then ps else later

abbrev pub is_in_progress : ℕ → List ℕ → Bool
is_in_progress n ps = any (λ p. p == n) ps

module _ {A : Type 0} (pool_limit : ℕ) where
  -- The loop, until it awaits or ends.
  unfoldable pub launch : Bool → List A → (running promises : List ℕ) → List A → Pool A
  launch has_rejected started running promises [] = record {
    started = started;
    in_progress = running;
    pool_promises = promises;
    waiting = [];
    loop = ended;
    has_rejected = has_rejected;
  }
  launch has_rejected started running promises (item ∷ items) =
      let started' = started ++ item ∷ [] in
      let running' = running ++ length started ∷ [] in
      let promises' = promises ++ length started ∷ [] in
      let rest = launch has_rejected started' running' promises' items in
      if leb pool_limit (length promises')
      then record {
        started = started';
        in_progress = running';
        pool_promises = promises';
        waiting = items;
        loop = if has_rejected then failed else racing;
        has_rejected = has_rejected;
      }
      else rest

  abbrev pub resume : Loop → Pool A → Pool A
  resume resuming p = launch p.has_rejected p.started p.in_progress p.pool_promises p.waiting
  resume loop p = p

  unfoldable pub handle_pool : PoolEvent → Pool A → Pool A
  handle_pool (call_fulfilled n) p =
      if is_in_progress n p.in_progress
      then record p {
        in_progress = settle_call n p.in_progress;
        pool_promises = splice_at (index_of n p.pool_promises) p.pool_promises;
        loop = wake p.loop;
      }
      else p
  handle_pool (call_rejected n) p =
      if is_in_progress n p.in_progress
      then record p {
        in_progress = settle_call n p.in_progress;
        loop = break_off p.loop;
        has_rejected = true;
      }
      else p
  handle_pool loop_resumes p = resume p.loop p

  unfoldable pub handle_pool_all : List PoolEvent → Pool A → Pool A
  handle_pool_all [] p = p
  handle_pool_all (e ∷ events) p = handle_pool_all events (handle_pool e p)

  -- `pool`, after the events
  unfoldable pub pool : List A → List PoolEvent → Pool A
  pool items events = handle_pool_all events (launch false [] [] [] items)
