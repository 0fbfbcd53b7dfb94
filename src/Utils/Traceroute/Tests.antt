-- ===== src/Utils/Traceroute/Tests.antt =====
-- The theorems on traces at concrete inputs.
use bright_cli.Prelude.{
  ◌+◌, ◌/◌, ◌≤◌, ◌≡◌, refl, none, some, List, [], ◌∷◌, ◌++◌, codes, replicate, get_elem?, arith,
}
use bright_cli.Utils.Traceroute.Packet.{Bytes, create_ping_request, id, parse_id}
use bright_cli.Utils.Traceroute.Packet.RoundTrip.{
  WritesChecksum, Answers, error_message, parse_id-create_ping_request,
}
use bright_cli.Utils.Traceroute.{UserOptions, make_options, Probe}
use bright_cli.Utils.Traceroute.Trace.{Event, immediate, timer_fires, steps, step, start}
use bright_cli.Utils.Traceroute.Trace.Probes.{sent_probes}
use bright_cli.Utils.Traceroute.Trace.Ends.{
  Answer, timeout, answered, IsComplete, probe_all, probe_all_ends,
}

-- A checksum that writes two zeros.
abbrev zero_checksum : Bytes → Bytes
zero_checksum (a ∷ b ∷ c ∷ d ∷ rest) = a ∷ b ∷ 0 ∷ 0 ∷ rest
zero_checksum short = short

zero_checksum-WritesChecksum : WritesChecksum zero_checksum
zero_checksum-WritesChecksum a b c d rest = (0, 0, refl)

abbrev request : Bytes
request = create_ping_request zero_checksum 0 0 33434 4

abbrev exceeded : Bytes
exceeded =
    replicate 20 0 ++ (11 ∷ 0 ∷ 0 ∷ 0 ∷ 0 ∷ 0 ∷ 0 ∷ 0 ∷ (0x40 + 5) ∷ (replicate 19 0 ++ request))

exceeded-Answers : Answers request exceeded
exceeded-Answers =
    error_message (replicate 20 0) 11 0 0 0 0 0 0 0 5 (replicate 19 0) refl refl (omega arith)
      (omega arith) refl refl

parse_id-create_ping_request_example : parse_id exceeded ≡ id 33434
parse_id-create_ping_request_example =
    parse_id-create_ping_request zero_checksum zero_checksum-WritesChecksum 0 0 33434 4 exceeded
      exceeded-Answers

abbrev two_hops : UserOptions
two_hops = record {
  amount_probes = some 2;
  maximum_hops = some 2;
  timeout = none;
  reverse_lookup = none;
  protocol = none;
  packet_size = none;
}

abbrev waits : List Event
waits = immediate ∷ timer_fires ∷ immediate ∷ timer_fires ∷ immediate ∷ []

third_sent :
    get_elem? (steps waits (start (codes "10.0.0.1") two_hops)).sent 2
    ≡ some (record { ttl = 2; port = 33436 })
unfolding steps start step make_options
third_sent = refl

sent_probes_example :
    let p : Probe = record { ttl = 2; port = 33436 } in
    (p.port ≡ 33434 + 2) × (p.ttl ≡ 2 / (make_options two_hops).amount_probes + 1)
unfolding make_options
sent_probes_example =
    sent_probes (codes "10.0.0.1") two_hops waits 2 (record { ttl = 2; port = 33436 }) (omega arith)
      third_sent

abbrev answers : List Answer
answers =
    timeout
    ∷ answered (codes "10.0.0.9") none
    ∷ timeout
    ∷ answered (codes "10.0.0.1") (some (codes "target"))
    ∷ []

probe_all_ends_example :
    IsComplete
      (make_options two_hops).amount_probes
      (make_options two_hops).maximum_hops
      (probe_all answers (start (codes "10.0.0.1") two_hops))
    × (1 ≤ (make_options two_hops).maximum_hops)
    × ((make_options two_hops).maximum_hops ≤ 255)
unfolding make_options
probe_all_ends_example =
    probe_all_ends (codes "10.0.0.1") two_hops answers (omega arith) (omega arith)
