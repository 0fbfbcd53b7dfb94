-- ===== src/Utils/Traceroute/Trace.antt =====
-- A whole trace of src/Utils/Traceroute.ts: the events that reach its sockets, its timer and its
-- lookups of names, in any order. Names are looked up in the order of the messages, and the callback
-- of a send runs with it.
pub mod Probes
pub mod Ends
use bright_cli.Prelude.{
  ℕ, zero, suc, ◌+◌, Bool, true, false, not, Option, none, some, List, [], ◌∷◌, ◌++◌, Text, ◌==◌,
  if◌then◌else◌,
}
use bright_cli.Utils.Traceroute.Packet.{Parsed, out_of_range, no_id, id}
use bright_cli.Utils.Traceroute.{
  Traceroute, UserOptions, new_traceroute, Probe, Output, Next, stop, send, send_packet, after_send,
  handle_reply,
}

-- How `execute` settles.
pub data End : Type 0 where
  finished : Bool → End
  failed : End

-- `due` counts the sends that `setImmediate` has put off, `lookups` holds the addresses whose names
-- are being looked up.
pub record Trace : Type 0 where
  pub tracer : Traceroute
  pub due : ℕ
  pub lookups : List Text
  pub sent : List Probe
  pub printed : List Output
  pub ended : Option End

-- A message comes with what `parseIdFromIcmpMessage` makes of it.
pub data Event : Type 0 where
  immediate timer_fires socket_fails : Event
  message : Parsed → Text → Event
  looked_up : Option Text → Event

abbrev proceed : Next → ℕ → ℕ
proceed send due = due + 1
proceed (stop reached) due = due

abbrev settle : Next → Option End
settle send = none
settle (stop reached) = some (finished reached)

-- `handleReply` within a trace
unfoldable pub reply : Option Text → Option Text → Trace → Trace
unfolding handle_reply
reply ip name s =
    let (t, output, next) = handle_reply ip name s.tracer in
    record s {
      tracer = t;
      due = proceed next s.due;
      printed = s.printed ++ output;
      ended = settle next;
    }

abbrev send_due : ℕ → Trace → Trace
send_due zero s = s
send_due (suc due) s =
    let (t, probe) = send_packet s.tracer in
    record s { tracer = after_send t; due = due; sent = s.sent ++ probe ∷ [] }

abbrev take_lookup : List Text → Option Text → Trace → Trace
take_lookup [] name s = s
take_lookup (ip ∷ rest) name s = reply (some ip) name (record s { lookups = rest })

abbrev ask : Parsed → Text → Trace → Trace
ask (id port) ip s =
    if port == s.tracer.port then record s { lookups = s.lookups ++ ip ∷ [] } else s
ask _ ip s = s

abbrev on_event : Event → Trace → Trace
on_event immediate s = send_due s.due s
on_event timer_fires s = if s.tracer.timer then reply none none s else s
on_event socket_fails s = record s { ended = some failed }
on_event (message parsed ip) s = ask parsed ip s
on_event (looked_up name) s = take_lookup s.lookups name s

-- A trace is followed until `execute` settles: one that was finished has closed its sockets then, and
-- one that has failed has settled, though its sockets stay open.
abbrev unless_ended : Option End → Trace → Trace → Trace
unless_ended none old new = new
unless_ended (some e) old new = old

unfoldable pub step : Event → Trace → Trace
unfolding reply send_packet after_send
step e s = unless_ended s.ended s (on_event e s)

unfoldable pub steps : List Event → Trace → Trace
steps [] s = s
steps (e ∷ es) s = steps es (step e s)

-- `execute`, up to its first packet
unfoldable pub start : Text → UserOptions → Trace
unfolding new_traceroute
start destination options = record {
  tracer = new_traceroute destination options;
  due = 1;
  lookups = [];
  sent = [];
  printed = [];
  ended = none;
}
