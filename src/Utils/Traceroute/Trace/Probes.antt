-- ===== src/Utils/Traceroute/Trace/Probes.antt =====
-- Which probes a trace sends.
use native.Mathlib.Nat.{add-mul-div_right, div-eq_of_lt}
use bright_cli.Prelude.{
  ℕ, zero, suc, ◌+◌, ◌*◌, ◌/◌, ◌≤◌, ◌<◌, ◌≡◌, refl, sym, ◌∙◌, ap, true, false, ◌&&◌, ◌||◌, Option,
  none, some, List, [], ◌∷◌, ◌++◌, Text, length, length-append, get_elem?, arith, leb, ◌==◌,
  if◌then◌else◌, Bool-cases, inl, inr,
}
use bright_cli.Utils.Traceroute.Packet.{out_of_range, no_id, id}
use bright_cli.Utils.Traceroute.{
  Traceroute, UserOptions, make_options, new_traceroute, Probe, send_packet, after_send,
  handle_reply, from_destination,
}
use bright_cli.Utils.Traceroute.Trace.{
  Trace, Event, immediate, timer_fires, socket_fails, message, looked_up, reply, take_lookup,
  send_due, on_event, step, steps, start, unless_ended,
}

-- The probe with this number, counted from 0.
abbrev probe_at : ℕ → ℕ → Probe
probe_at amount k = record { ttl = k / amount + 1; port = 33434 + k }

-- The probes with the numbers from this one on.
abbrev AreProbes : ℕ → ℕ → List Probe → Type 0
AreProbes amount k [] = Unit
AreProbes amount k (p ∷ ps) = (p ≡ probe_at amount k) × AreProbes amount (suc k) ps

AreProbes-append :
    (amount k n : ℕ) (ps : List Probe) (p : Probe)
    → k + length ps ≡ n
    → AreProbes amount k ps
    → p ≡ probe_at amount n
    → AreProbes amount k (ps ++ p ∷ [])
AreProbes-append amount k n [] p e h last =
    let same : n ≡ k = omega arith in (last ∙ ap (probe_at amount) same, tt)
AreProbes-append amount k n (q ∷ ps) p e (first, h) last =
    (first, AreProbes-append amount (suc k) n ps p (omega arith) h last)

AreProbes-get_elem? :
    (amount k i : ℕ) (ps : List Probe) (p : Probe)
    → AreProbes amount k ps
    → get_elem? ps i ≡ some p
    → p ≡ probe_at amount (k + i)
AreProbes-get_elem? amount k i [] p h g = cc
AreProbes-get_elem? amount k zero (q ∷ ps) p (first, h) g =
    let same : k ≡ k + 0 = omega arith in
    let found : q ≡ p = cc in sym found ∙ first ∙ ap (probe_at amount) same
AreProbes-get_elem? amount k (suc i) (q ∷ ps) p (first, h) g =
    let same : suc k + i ≡ k + suc i = omega arith in
    AreProbes-get_elem? amount (suc k) i ps p h g ∙ ap (probe_at amount) same

-- The counters of the tracer after the probes that it has sent; `hop` hops are complete.
abbrev IsCounted : ℕ → Traceroute → List Probe → Type 0
IsCounted amount t sent =
    (hop : ℕ) × (t.ttl ≡ suc hop)
    × (t.options.amount_probes ≡ amount)
    × (t.port ≡ 33433 + length sent)
    × (length sent ≡ t.probes + hop * amount)
    × (t.probes ≤ amount)
    × AreProbes amount 0 sent

division : (amount r hop : ℕ) → r < amount → (r + hop * amount) / amount ≡ hop
division amount r hop h =
    let small : r / amount ≡ 0 = div-eq_of_lt h in
    add-mul-div_right r hop (omega arith) ∙ omega arith

probe_eq :
    (amount hop r n ttl port : ℕ)
    → r < amount
    → n ≡ r + hop * amount
    → ttl ≡ suc hop
    → port ≡ 33434 + n
    → let p : Probe = record { ttl = ttl; port = port } in p ≡ probe_at amount n
probe_eq amount hop r n ttl port room count lives same =
    let whole : n / amount ≡ hop = ap (λ m. m / amount) count ∙ division amount r hop room in
    let hops : ttl ≡ n / amount + 1 = omega arith in cc (hops, same)

-- Hands on the counters after a send, from the hop and the number of the probe in it.
sent_one :
    (amount hop r : ℕ) (t : Traceroute) (sent : List Probe)
    → r < amount
    → length sent ≡ r + hop * amount
    → t.ttl ≡ suc hop
    → t.options.amount_probes ≡ amount
    → t.port ≡ 33433 + length sent
    → AreProbes amount 0 sent
    → let p : Probe = record { ttl = t.ttl; port = t.port + 1 } in
      IsCounted amount (record t { probes = r + 1; port = t.port + 1 }) (sent ++ p ∷ [])
sent_one amount hop r t sent room count lives options port h =
    let p : Probe = record { ttl = t.ttl; port = t.port + 1 } in
    let size : length (sent ++ p ∷ []) ≡ length sent + 1 = length-append sent (p ∷ []) in
    (
      hop,
      lives,
      options,
      omega arith,
      omega arith,
      omega arith,
      AreProbes-append amount 0 (length sent) sent p (omega arith) h
          (probe_eq amount hop r (length sent) t.ttl (t.port + 1) room count lives (omega arith)),
    )

send_packet-IsCounted :
    (amount : ℕ) (t : Traceroute) (sent : List Probe)
    → 0 < amount
    → IsCounted amount t sent
    → let (t', p) = send_packet t in IsCounted amount t' (sent ++ p ∷ [])
unfolding send_packet
send_packet-IsCounted amount t sent pos (hop, lives, options, port, count, few, h) =
    elim (Bool-cases (leb t.options.amount_probes t.probes)) [
      | inl full ↦
          let all : t.probes ≡ amount = ground arith in
          let more : length sent ≡ 0 + suc hop * amount = grind arith in
          rw full (
            sent_one amount (suc hop) 0 (record t { ttl = t.ttl + 1; probes = 0 }) sent pos more
              (omega arith) options port h)
      | inr room ↦
          rw room (sent_one amount hop t.probes t sent (ground arith) count lives options port h)
    ]

handle_reply-IsCounted :
    (amount : ℕ) (ip name : Option Text) (t : Traceroute) (sent : List Probe)
    → IsCounted amount t sent
    → IsCounted amount (handle_reply ip name t).0 sent
unfolding handle_reply
handle_reply-IsCounted amount ip name t sent c =
    elim (Bool-cases (
      t.probes == t.options.amount_probes
      && (from_destination t ip || leb t.options.maximum_hops t.ttl))) [
        | inl last ↦ rw last c
        | inr going ↦ rw going c
      ]

abbrev Counts : ℕ → Trace → Type 0
Counts amount s = IsCounted amount s.tracer s.sent

reply-Counts :
    (amount : ℕ) (ip name : Option Text) (s : Trace)
    → Counts amount s
    → Counts amount (reply ip name s)
unfolding reply
reply-Counts amount ip name s c = handle_reply-IsCounted amount ip name s.tracer s.sent c

on_event-Counts :
    (amount : ℕ) (e : Event) (s : Trace)
    → 0 < amount
    → Counts amount s
    → Counts amount (on_event e s)
unfolding after_send
on_event-Counts amount immediate s pos c = due_cases s.due
  where
    due_cases : (due : ℕ) → Counts amount (send_due due s)
    due_cases zero = c
    due_cases (suc due) = send_packet-IsCounted amount s.tracer s.sent pos c
on_event-Counts amount timer_fires s pos c =
    elim s.tracer.timer as (λ b. Counts amount (if b then reply none none s else s)) [
      | true ↦ reply-Counts amount none none s c
      | false ↦ c
    ]
on_event-Counts amount socket_fails s pos c = c
on_event-Counts amount (message (id port) ip) s pos c = elim (Bool-cases (port == s.tracer.port)) [
  | inl hit ↦ rw hit c
  | inr miss ↦ rw miss c
]
on_event-Counts amount (message out_of_range ip) s pos c = c
on_event-Counts amount (message no_id ip) s pos c = c
on_event-Counts amount (looked_up name) s pos c = lookup_cases s.lookups
  where
    lookup_cases : (ips : List Text) → Counts amount (take_lookup ips name s)
    lookup_cases [] = c
    lookup_cases (ip ∷ rest) = reply-Counts amount (some ip) name (record s { lookups = rest }) c

step-Counts :
    (amount : ℕ) (e : Event) (s : Trace) → 0 < amount → Counts amount s → Counts amount (step e s)
unfolding step
step-Counts amount e s pos c =
    elim s.ended as (λ o. Counts amount (unless_ended o s (on_event e s))) [
      | none ↦ on_event-Counts amount e s pos c
      | some x ↦ c
    ]

steps-Counts :
    (amount : ℕ) (es : List Event) (s : Trace)
    → 0 < amount
    → Counts amount s
    → Counts amount (steps es s)
unfolding steps
steps-Counts amount [] s pos c = c
steps-Counts amount (e ∷ es) s pos c =
    steps-Counts amount es (step e s) pos (step-Counts amount e s pos c)

-- Whatever reaches the trace, in any order, its probes are those of a plain count: the k-th, from 0,
-- has the k-th port after 33433, and each hop gets the configured number of probes before the next
-- hop begins. At least one probe a hop is configured.
pub sent_probes :
    (destination : Text) (options : UserOptions) (es : List Event) (k : ℕ) (p : Probe)
    → let amount = (make_options options).amount_probes in
      0 < amount
      → get_elem? (steps es (start destination options)).sent k ≡ some p
      → (p.port ≡ 33434 + k) × (p.ttl ≡ k / amount + 1)
unfolding start new_traceroute
sent_probes destination options es k p pos found =
    let amount = (make_options options).amount_probes in
    let (hop, a, b, c, d, e, h) =
      steps-Counts amount es (start destination options) pos
        (0, refl, refl, refl, omega arith, omega arith, tt) in
    let same : p ≡ probe_at amount (0 + k) =
      AreProbes-get_elem? amount 0 k (steps es (start destination options)).sent p h found in
    (ground arith, ground arith)
