-- ===== src/Utils/Pool/Bounds.antt =====
-- How many calls of a pool have not settled, and which are made.
use bright_cli.Prelude.{
  ℕ, ◌≤◌, ◌<◌, ◌≡◌, ◌≢◌, refl, ◌∙◌, Bool, true, false, List, [], ◌∷◌, ◌++◌, append_assoc, length,
  length-append, max, leb, Bool-cases, inl, inr, arith, if◌then◌else◌,
}
use bright_cli.Utils.Pool.Promises.{
  IsPart, stop, IsPart-length, IsPart-add, settle_call-IsPart, splice_at-settle_call,
  settle_call-shrinks, is_in_progress-IsPart, settle_both-IsPart,
}
use bright_cli.Utils.Pool.{
  is_in_progress, Loop, racing, resuming, ended, failed, Pool, PoolEvent, call_fulfilled,
  call_rejected, loop_resumes, break_off, launch, resume, handle_pool, handle_pool_all, pool,
}

not_leb→lt : (a b : ℕ) → leb a b ≡ false → b < a
not_leb→lt a b h = ground arith

not_resuming : (b : Bool) → (if b then failed else racing) ≢ resuming
not_resuming true e = cc
not_resuming false e = cc

break_off-resuming : (l : Loop) → break_off l ≡ resuming → l ≡ resuming
break_off-resuming racing e = cc
break_off-resuming resuming e = refl
break_off-resuming ended e = cc
break_off-resuming failed e = cc

module _ {A : Type 0} (pool_limit : ℕ) where
  -- The calls that are made are on a prefix of the items, and those that have not settled are within the
  -- limit, or one call with a limit of 0.
  abbrev pub IsWithin : List A → Pool A → Type 0
  IsWithin items p = (p.started ++ p.waiting ≡ items) × (length p.in_progress ≤ max pool_limit 1)

  -- Each call that has not settled has its promise, the promises are within the limit, and there is room
  -- for one more where the loop is due to go on.
  abbrev IsSound : List A → Pool A → Type 0
  IsSound items p =
      (p.started ++ p.waiting ≡ items)
      × IsPart p.in_progress p.pool_promises
      × (length p.pool_promises ≤ max pool_limit 1)
      × ((p.loop ≡ resuming) → length p.pool_promises < max pool_limit 1)

  launch-IsSound :
      (has_rejected : Bool) (started : List A) (running promises : List ℕ) (left items : List A)
      → started ++ left ≡ items
      → IsPart running promises
      → length promises < max pool_limit 1
      → IsSound items (launch pool_limit has_rejected started running promises left)
  unfolding launch
  launch-IsSound has_rejected started running promises [] items e part h =
      (e, part, omega arith, λ r. cc)
  launch-IsSound has_rejected started running promises (item ∷ left) items e part h =
      let one_more = length-append promises (length started ∷ []) in
      let parts = append_assoc started (item ∷ []) left ∙ e in
      let part' = IsPart-add (length started) part in
      elim (Bool-cases (leb pool_limit (length (promises ++ length started ∷ [])))) [
        | inl full ↦
            rw full
              (parts, part', omega (arith, one_more), λ r. elim (not_resuming has_rejected r) [ ])
        | inr below ↦
            let room = not_leb→lt pool_limit (length (promises ++ length started ∷ [])) below in
            rw below (
              launch-IsSound has_rejected (started ++ item ∷ []) (running ++ length started ∷ [])
                (promises ++ length started ∷ []) left items parts part'
                (omega (arith, one_more, room)))
      ]

  resume-IsSound :
      (items : List A) (p : Pool A) (l : Loop)
      → p.loop ≡ l
      → IsSound items p
      → IsSound items (resume pool_limit l p)
  resume-IsSound items p racing e h = h
  resume-IsSound items p ended e h = h
  resume-IsSound items p failed e h = h
  resume-IsSound items p resuming e (parts, part, bound, room) =
      launch-IsSound p.has_rejected p.started p.in_progress p.pool_promises p.waiting items parts
        part (room e)

  handle_pool-IsSound :
      (items : List A) (e : PoolEvent) (p : Pool A)
      → IsSound items p
      → IsSound items (handle_pool pool_limit e p)
  unfolding handle_pool
  handle_pool-IsSound items (call_fulfilled n) p (parts, part, bound, room) =
      elim (Bool-cases (is_in_progress n p.in_progress)) [
        | inl found ↦
            let there = is_in_progress-IsPart n part found in
            let fewer = settle_call-shrinks n p.pool_promises there in
            rw (found, splice_at-settle_call n p.pool_promises there)
              (
                parts,
                settle_both-IsPart n part found,
                omega (arith, fewer),
                λ r. omega (arith, fewer),
              )
        | inr none_there ↦ rw none_there (parts, part, bound, room)
      ]
  handle_pool-IsSound items (call_rejected n) p (parts, part, bound, room) =
      elim (Bool-cases (is_in_progress n p.in_progress)) [
        | inl found ↦
            rw found
              (parts, settle_call-IsPart n part, bound, λ r. room (break_off-resuming p.loop r))
        | inr none_there ↦ rw none_there (parts, part, bound, room)
      ]
  handle_pool-IsSound items loop_resumes p h = resume-IsSound items p p.loop refl h

  handle_pool_all-IsSound :
      (items : List A) (events : List PoolEvent) (p : Pool A)
      → IsSound items p
      → IsSound items (handle_pool_all pool_limit events p)
  unfolding handle_pool_all
  handle_pool_all-IsSound items [] p h = h
  handle_pool_all-IsSound items (e ∷ events) p h =
      handle_pool_all-IsSound items events (handle_pool pool_limit e p)
        (handle_pool-IsSound items e p h)

  -- Whatever calls succeed and fail, and in whatever order, a pool calls its function on the items one
  -- after another, each once, and never has more calls that have not settled than its limit, or one
  -- where the limit is 0.
  pub pool-IsWithin :
      (items : List A) (events : List PoolEvent) → IsWithin items (pool pool_limit items events)
  unfolding pool
  pool-IsWithin items events =
      let (parts, part, bound, room) =
        handle_pool_all-IsSound items events (launch pool_limit false [] [] [] items)
          (launch-IsSound false [] [] [] items items refl stop (omega arith)) in
      (parts, omega (arith, IsPart-length part))
