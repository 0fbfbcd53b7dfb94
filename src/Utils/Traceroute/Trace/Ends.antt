-- ===== src/Utils/Traceroute/Trace/Ends.antt =====
-- A trace ends. Here each probe has one answer: its timer, or a message that names its port, with the
-- name of the host looked up before anything else happens.
use bright_cli.Prelude.{
  ℕ, ◌+◌, ◌*◌, ◌≤◌, ◌<◌, ◌≡◌, refl, ap, Bool, true, false, ◌&&◌, ◌||◌, ◌⊎◌, inl, inr, Option, none,
  some, List, [], ◌∷◌, ◌++◌, Text, length, length-append, arith, leb, ◌==◌, Bool-cases,
}
use bright_cli.Utils.Traceroute.Packet.{id}
use bright_cli.Utils.Traceroute.{
  Traceroute, UserOptions, make_options, hops_or_default, new_traceroute, Probe, Output,
  send_packet, after_send, handle_reply, from_destination,
}
use bright_cli.Utils.Traceroute.Trace.{
  End, finished, Trace, Event, immediate, timer_fires, message, looked_up, reply, step, steps,
  start,
}

pub data Answer : Type 0 where
  timeout : Answer
  answered : Text → Option Text → Answer

-- The events of one probe of a tracer.
abbrev pub probe_events : Traceroute → Answer → List Event
probe_events t timeout = immediate ∷ timer_fires ∷ []
probe_events t (answered ip name) = immediate ∷ message (id (t.port + 1)) ip ∷ looked_up name ∷ []

unfoldable pub probe_all : List Answer → Trace → Trace
probe_all [] s = s
probe_all (a ∷ answers) s = probe_all answers (steps (probe_events s.tracer a) s)

-- A trace whose next packet is due.
abbrev ready : Traceroute → List Probe → List Output → Trace
ready t sent printed = record {
  tracer = t;
  due = 1;
  lookups = [];
  sent = sent;
  printed = printed;
  ended = none;
}

abbrev answer_ip : Answer → Option Text
answer_ip timeout = none
answer_ip (answered ip name) = some ip

abbrev answer_name : Answer → Option Text
answer_name timeout = none
answer_name (answered ip name) = name

-- The trace after one probe and its answer.
after_probe : Traceroute → List Probe → List Output → Answer → Trace
after_probe t sent printed a =
    let (u, p) = send_packet t in
    reply (answer_ip a) (answer_name a) (record {
      tracer = after_send u;
      due = 0;
      lookups = [];
      sent = sent ++ p ∷ [];
      printed = printed;
      ended = none;
    })

eq_self : (n : ℕ) → (n == n) ≡ true
eq_self n = ground arith

probe_once :
    (t : Traceroute) (sent : List Probe) (printed : List Output) (a : Answer)
    → steps (probe_events t a) (ready t sent printed) ≡ after_probe t sent printed a
unfolding steps step after_send after_probe
probe_once t sent printed timeout = refl
probe_once t sent printed (answered ip name) =
    elim (Bool-cases (leb t.options.amount_probes t.probes)) [
      | inl full ↦ rw (full, eq_self (t.port + 1)) refl
      | inr room ↦ rw (room, eq_self (t.port + 1)) refl
    ]

step-ended : (e : Event) (s : Trace) (x : End) → s.ended ≡ some x → step e s ≡ s
unfolding step
step-ended e s x h = simp h

steps-ended : (es : List Event) (s : Trace) (x : End) → s.ended ≡ some x → steps es s ≡ s
unfolding steps
steps-ended [] s x h = refl
steps-ended (e ∷ es) s x h = rw (step-ended e s x h, steps-ended es s x h)

probe_all-ended :
    (answers : List Answer) (s : Trace) (x : End) → s.ended ≡ some x → probe_all answers s ≡ s
unfolding probe_all
probe_all-ended [] s x h = refl
probe_all-ended (a ∷ answers) s x h =
    rw (steps-ended (probe_events s.tracer a) s x h, probe_all-ended answers s x h)

-- The tracer has probes to send within its hops.
abbrev IsGoing : ℕ → ℕ → Traceroute → Type 0
IsGoing amount hops t =
    (t.options.amount_probes ≡ amount)
    × (t.options.maximum_hops ≡ hops)
    × (t.probes ≤ amount)
    × (t.ttl ≤ hops)
    × ((t.probes < amount) ⊎ (t.ttl < hops))

-- The trace has ended after whole hops, and without reaching its destination only after all.
abbrev pub IsComplete : ℕ → ℕ → Trace → Type 0
IsComplete amount hops s =
    (reached : Bool) × (s.ended ≡ some (finished reached))
    × (length s.sent ≡ s.tracer.ttl * amount)
    × (s.tracer.ttl ≤ hops)
    × (reached ≡ false → s.tracer.ttl ≡ hops)

send_packet-IsGoing :
    (amount hops : ℕ) (t : Traceroute)
    → 0 < amount
    → IsGoing amount hops t
    → let u = (send_packet t).0 in
      (u.options.amount_probes ≡ amount)
      × (u.options.maximum_hops ≡ hops)
      × (u.probes ≤ amount)
      × (u.ttl ≤ hops)
      × (u.probes + u.ttl * amount ≡ t.probes + t.ttl * amount + 1)
unfolding send_packet
send_packet-IsGoing amount hops t pos (a, b, c, d, e) =
    elim (Bool-cases (leb t.options.amount_probes t.probes)) [
      | inl full ↦ rw full (
        a,
        b,
        omega arith,
        ground arith,
        let all : t.probes ≡ amount = ground arith in grind arith,
      )
      | inr room ↦ rw room (a, b, ground arith, d, omega arith)
    ]

room_left :
    (p a h t : ℕ) (d : Bool)
    → (p == a) && (d || leb h t) ≡ false
    → p ≤ a
    → t ≤ h
    → (p < a) ⊎ (t < h)
room_left p a h t d going few low = elim (Bool-cases (leb a p)) [
  | inl full ↦ inr (ground arith)
  | inr room ↦ inl (ground arith)
]

last_probe :
    (p a h t : ℕ) (d : Bool)
    → (p == a) && (d || leb h t) ≡ true
    → t ≤ h
    → (p ≡ a) × (d ≡ false → t ≡ h)
last_probe p a h t d last low = (ground arith, λ unreached. ground arith)

-- What the answer to a probe comes to: the trace is complete, or its next packet is due.
after_probe-cases :
    (amount hops : ℕ) (t : Traceroute) (sent : List Probe) (printed : List Output) (a : Answer)
    → 0 < amount
    → IsGoing amount hops t
    → length sent + amount ≡ t.probes + t.ttl * amount
    → let s = after_probe t sent printed a in
      IsComplete amount hops s
      ⊎ ((u : Traceroute) × (more : List Probe) × (output : List Output) × (s ≡ ready u more output)
          × IsGoing amount hops u
          × (length more + amount ≡ u.probes + u.ttl * amount)
          × (length more ≡ length sent + 1))
unfolding after_probe reply handle_reply after_send
after_probe-cases amount hops t sent printed answer pos g filled =
    let (a, b, c, d, e) = send_packet-IsGoing amount hops t pos g in
    let u = (send_packet t).0 in
    let size : length (sent ++ (send_packet t).1 ∷ []) ≡ length sent + 1 =
      length-append sent ((send_packet t).1 ∷ []) in
    elim (Bool-cases (
      u.probes == u.options.amount_probes
      && (from_destination u (answer_ip answer) || leb u.options.maximum_hops u.ttl))) [
        | inl last ↦
            let (full, unreached) =
              last_probe u.probes amount hops u.ttl (from_destination u (answer_ip answer))
                (rw (← a, ← b) last) d in
            inl (rw last (from_destination u (answer_ip answer), refl, omega arith, d, unreached))
        | inr going ↦ inr (
            rw going (
              _,
              _,
              _,
              refl,
              (
                a,
                b,
                c,
                d,
                room_left u.probes amount hops u.ttl (from_destination u (answer_ip answer))
                    (rw (← a, ← b) going) c d,
              ),
              omega arith,
              size,
            ))
      ]

probe_all-ready :
    (answer : Answer) (answers : List Answer) (t : Traceroute) (sent : List Probe)
    (printed : List Output)
    → probe_all (answer ∷ answers) (ready t sent printed)
      ≡ probe_all answers (after_probe t sent printed answer)
unfolding probe_all
probe_all-ready answer answers t sent printed =
    ap (probe_all answers) (probe_once t sent printed answer)

probe_all-IsComplete :
    (amount hops : ℕ) (answers : List Answer) (t : Traceroute) (sent : List Probe)
    (printed : List Output)
    → 0 < amount
    → IsGoing amount hops t
    → length sent + amount ≡ t.probes + t.ttl * amount
    → hops * amount ≤ length sent + length answers
    → IsComplete amount hops (probe_all answers (ready t sent printed))
probe_all-IsComplete amount hops [] t sent printed pos (a, b, c, d, e) filled enough =
    absurd (short (hops) e)
  where
    short : (h : ℕ) → (t.probes < amount) ⊎ (t.ttl < hops) → ⊥
    short h (inl room) = let below : t.ttl * amount ≤ hops * amount = grind arith in omega arith
    short h (inr room) =
        let below : (t.ttl + 1) * amount ≤ hops * amount = grind arith in
        let split : (t.ttl + 1) * amount ≡ t.ttl * amount + amount = grind arith in omega arith
probe_all-IsComplete amount hops (answer ∷ answers) t sent printed pos g filled enough =
    rw (probe_all-ready answer answers t sent printed)
      (elim (after_probe-cases amount hops t sent printed answer pos g filled) [
        | inl (reached, ended, count, low, unreached) ↦
            rw
              (probe_all-ended answers (after_probe t sent printed answer) (finished reached) ended)
              (reached, ended, count, low, unreached)
        | inr (u, more, output, same, going, filled', size) ↦
            rw same (
              probe_all-IsComplete amount hops answers u more output pos going filled'
                (omega arith))
      ])

hops_bounds : (o : Option ℕ) → (1 ≤ hops_or_default o) × (hops_or_default o ≤ 255)
hops_bounds none = (omega arith, omega arith)
hops_bounds (some n) = ground arith

-- A trace ends, whatever its probes are answered with, if each has one answer: at latest after the
-- configured number of probes for every hop up to the greatest, which is between 1 and 255. It ends
-- after whole hops, and reports that the destination is not reached only after the greatest. At
-- least one probe a hop is configured.
pub probe_all_ends :
    (destination : Text) (u : UserOptions) (answers : List Answer)
    → let o = make_options u in
      0 < o.amount_probes
      → o.maximum_hops * o.amount_probes ≤ length answers
      → IsComplete o.amount_probes o.maximum_hops (probe_all answers (start destination u))
        × (1 ≤ o.maximum_hops)
        × (o.maximum_hops ≤ 255)
unfolding start new_traceroute make_options
probe_all_ends destination u answers pos enough =
    let (low, high) = hops_bounds u.maximum_hops in
    let o = make_options u in
    (
      probe_all-IsComplete o.amount_probes o.maximum_hops answers (new_traceroute destination u) []
          [] pos (refl, refl, omega arith, low, inl pos) (omega arith) (omega arith),
      low,
      high,
    )
