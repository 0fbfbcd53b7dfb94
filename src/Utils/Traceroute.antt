-- ===== src/Utils/Traceroute.antt =====
-- src/Utils/Traceroute.ts: the probes that a trace sends, and what it does with the answers. The
-- clock and the text of the times that it prints are left out.
pub mod Packet
pub mod Trace
mod Tests
use bright_cli.Prelude.{
  ℕ, suc, ◌+◌, Bool, true, false, ◌&&◌, ◌||◌, not, Option, none, some, List, [], ◌∷◌, ◌++◌, Text,
  text_eq, or_else, leb, ltb, ◌==◌, if◌then◌else◌,
}
use bright_cli.Utils.Traceroute.Packet.{Bytes, Parsed, out_of_range, no_id, id, parse_id}

pub data SocketProtocol : Type 0 where
  icmp udp : SocketProtocol

-- Times in milliseconds.
pub record Options : Type 0 where
  pub amount_probes : ℕ
  pub maximum_hops : ℕ
  pub timeout : ℕ
  pub reverse_lookup : Bool
  pub protocol : SocketProtocol
  pub packet_size : ℕ

pub record UserOptions : Type 0 where
  pub amount_probes : Option ℕ
  pub maximum_hops : Option ℕ
  pub timeout : Option ℕ
  pub reverse_lookup : Option Bool
  pub protocol : Option SocketProtocol
  pub packet_size : Option ℕ

abbrev pub default_hops : ℕ
default_hops = 64

abbrev hops_or_default : Option ℕ → ℕ
hops_or_default none = default_hops
hops_or_default (some hops) =
    if hops == 0 then default_hops else if ltb 255 hops || ltb hops 1 then default_hops else hops

-- The options of the constructor, over the default ones.
unfoldable pub make_options : UserOptions → Options
make_options u = record {
  amount_probes = or_else u.amount_probes 3;
  maximum_hops = hops_or_default u.maximum_hops;
  timeout = or_else u.timeout 3000;
  reverse_lookup = or_else u.reverse_lookup true;
  protocol = or_else u.protocol icmp;
  packet_size = or_else u.packet_size 52;
}

pub record Traceroute : Type 0 where
  pub options : Options
  pub destination_ip : Text
  pub port : ℕ
  pub ttl : ℕ
  pub probes : ℕ
  pub previous_ip : Option Text
  pub timer : Bool

unfoldable pub new_traceroute : Text → UserOptions → Traceroute
new_traceroute destination u = record {
  options = make_options u;
  destination_ip = destination;
  port = 33433;
  ttl = 1;
  probes = 0;
  previous_ip = none;
  timer = false;
}

-- A probe as it is sent: its time to live and its port, which is its sequence number.
pub record Probe : Type 0 where
  pub ttl : ℕ
  pub port : ℕ

-- What is printed, without times. A new line starts a hop, or an address that differs.
pub data Output : Type 0 where
  hop_address : ℕ → Text → Text → Output
  other_address : Text → Text → Output
  same_address : Output
  hop_star : ℕ → Output
  star line_end : Output

abbrev next_hop : Bool → Traceroute → Traceroute
next_hop done t = if done then record t { probes = 0; ttl = t.ttl + 1 } else t

-- `sendPacket`, up to the call of the socket
unfoldable pub send_packet : Traceroute → Traceroute × Probe
send_packet t =
    let u = next_hop (leb t.options.amount_probes t.probes) t in
    (
      record u { probes = u.probes + 1; port = u.port + 1 },
      record { ttl = u.ttl; port = u.port + 1 },
    )

abbrev from_destination : Traceroute → Option Text → Bool
from_destination t none = false
from_destination t (some ip) = text_eq ip t.destination_ip

abbrev same_ip : Option Text → Text → Bool
same_ip none ip = false
same_ip (some previous) ip = text_eq ip previous

abbrev print_address : Traceroute → Text → Option Text → Output
print_address t ip name =
    if same_ip t.previous_ip ip
    then same_address
    else if t.probes == 1
    then hop_address t.ttl (or_else name ip) ip
    else other_address (or_else name ip) ip

abbrev print_reply : Traceroute → Option Text → Option Text → Output
print_reply t none name = if t.probes == 1 then hop_star t.ttl else star
print_reply t (some ip) name = print_address t ip name

-- What `handleReply` does next: it stops the trace, or has the next packet sent.
pub data Next : Type 0 where
  stop : Bool → Next
  send : Next

-- `handleReply`; `none` for the address is the timer.
unfoldable pub handle_reply :
    Option Text → Option Text → Traceroute → Traceroute × List Output × Next
handle_reply ip name t =
    if t.probes == t.options.amount_probes
      && (from_destination t ip || leb t.options.maximum_hops t.ttl)
    then (
      record t { timer = false },
      print_reply t ip name ∷ line_end ∷ [],
      stop (from_destination t ip),
    )
    else (record t { timer = false; previous_ip = ip }, print_reply t ip name ∷ [], send)

-- `afterSend`, where the packet went out
unfoldable pub after_send : Traceroute → Traceroute
after_send t = record t { timer = true }
