-- ===== src/Utils/Traceroute/Packet.antt =====
-- `createPingRequest` and `parseIdFromIcmpMessage` of src/Utils/Traceroute.ts. The checksum of the
-- raw-socket package is a parameter: it rewrites two bytes of a buffer, from byte 2.
pub mod RoundTrip
use bright_cli.Prelude.{
  ℕ, ◌+◌, ◌*◌, ◌/◌, ◌%◌, Bool, true, false, ◌||◌, not, Option, none, some, List, [], ◌∷◌, ◌++◌,
  length, replicate, get_elem?, ltb, ◌==◌, if◌then◌else◌,
}

abbrev pub Bytes : Type 0
Bytes = List ℕ

-- `value & 0xff` and `(value & 0xff00) >> 8`
unfoldable pub first_byte : ℕ → ℕ
first_byte value = value % 256

unfoldable pub second_byte : ℕ → ℕ
second_byte value = value / 256 % 256

abbrev or_echo : ℕ → ℕ
or_echo type = if type == 0 then 8 else type

-- `createPingRequest`, before its checksum is written
unfoldable pub ping_bytes : ℕ → ℕ → ℕ → ℕ → Bytes
ping_bytes type identifier sequence packet_size =
    or_echo type
    ∷ 0
    ∷ 0
    ∷ 0
    ∷ second_byte identifier
    ∷ first_byte identifier
    ∷ second_byte sequence
    ∷ first_byte sequence
    ∷ replicate packet_size 255

-- `createPingRequest`
unfoldable pub create_ping_request : (Bytes → Bytes) → ℕ → ℕ → ℕ → ℕ → Bytes
create_ping_request write_checksum type identifier sequence packet_size =
    write_checksum (ping_bytes type identifier sequence packet_size)

-- What `parseIdFromIcmpMessage` returns; `out_of_range` is a read past the end, which throws.
pub data Parsed : Type 0 where
  out_of_range no_id : Parsed
  id : ℕ → Parsed

abbrev word : Option ℕ → Option ℕ → Parsed
word (some high) (some low) = id (high * 256 + low)
word _ _ = out_of_range

-- `msg.readUInt16BE(offset)`
abbrev read_uint16 : Bytes → ℕ → Parsed
read_uint16 msg offset = word (get_elem? msg offset) (get_elem? msg (offset + 1))

-- The ICMP types that carry the header of the packet they are about.
abbrev pub carries_header : ℕ → Bool
carries_header type = type == 3 || type == 4 || type == 5 || type == 11

-- From the first byte of the header at 28: its version is in the high half, its length in words in
-- the low one.
unfoldable pub parse_carried : Bytes → Option ℕ → Parsed
parse_carried msg none = out_of_range
parse_carried msg (some b) =
    if not (b / 16 % 16 * 16 == 0x40)
    then no_id
    else if ltb (length msg) (28 + b % 16 * 4 + 8)
    then no_id
    else read_uint16 msg (28 + b % 16 * 4 + 6)

abbrev parse_typed : Bytes → Option ℕ → Parsed
parse_typed msg none = out_of_range
parse_typed msg (some type) =
    if carries_header type
    then (if ltb (length msg) 48 then no_id else parse_carried msg (get_elem? msg 28))
    else read_uint16 msg 26

-- `parseIdFromIcmpMessage`
unfoldable pub parse_id : Bytes → Parsed
parse_id msg = parse_typed msg (get_elem? msg 20)
