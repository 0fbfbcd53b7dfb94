-- ===== src/Utils/Traceroute/Packet/RoundTrip.antt =====
-- The port of a probe comes back in the answers to it.
use bright_cli.Prelude.{
  ℕ, zero, suc, ◌+◌, ◌*◌, ◌/◌, ◌%◌, ◌≤◌, ◌<◌, ◌≡◌, refl, ◌∙◌, ap, true, false, some, List, [], ◌∷◌,
  ◌++◌, length, drop, get_elem?, length-append, arith, le→not_ltb,
}
use bright_cli.Utils.Traceroute.Packet.{
  Bytes, first_byte, second_byte, ping_bytes, create_ping_request, id, carries_header,
  parse_carried, parse_id,
}

get_elem?-append {ℓ} :
    {A : Type ℓ} (xs ys : List A) (n i : ℕ)
    → length xs + i ≡ n
    → get_elem? (xs ++ ys) n ≡ get_elem? ys i
get_elem?-append [] ys n i h = let e : n ≡ i = omega arith in ap (get_elem? ys) e
get_elem?-append (x ∷ xs) ys zero i h = absurd (omega arith)
get_elem?-append (x ∷ xs) ys (suc n) i h = get_elem?-append xs ys n i (omega arith)

-- A message without a carried header.
parse_plain :
    (msg : Bytes) (type high low : ℕ)
    → get_elem? msg 20 ≡ some type
    → carries_header type ≡ false
    → get_elem? msg 26 ≡ some high
    → get_elem? msg 27 ≡ some low
    → parse_id msg ≡ id (high * 256 + low)
unfolding parse_id
parse_plain msg type high low t c h l = rw (t, c, h, l) refl

-- A message with a carried header of 4 * words bytes.
parse_error :
    (msg : Bytes) (type words high low : ℕ)
    → get_elem? msg 20 ≡ some type
    → carries_header type ≡ true
    → words < 16
    → 48 ≤ length msg
    → 28 + words * 4 + 8 ≤ length msg
    → get_elem? msg 28 ≡ some (0x40 + words)
    → get_elem? msg (28 + words * 4 + 6) ≡ some high
    → get_elem? msg (28 + words * 4 + 6 + 1) ≡ some low
    → parse_id msg ≡ id (high * 256 + low)
unfolding parse_id parse_carried
parse_error msg type words high low t c w whole long v h l =
    let half : (0x40 + words) % 16 ≡ words = omega arith in
    let version : (0x40 + words) / 16 % 16 * 16 ≡ 0x40 = omega arith in
    rw
      (
        t,
        c,
        le→not_ltb (length msg) 48 whole,
        v,
        version,
        half,
        le→not_ltb (length msg) (28 + words * 4 + 8) long,
        h,
        l,
      )
      refl

-- Only the bytes 2 and 3 are rewritten.
abbrev pub WritesChecksum : (Bytes → Bytes) → Type 0
WritesChecksum write =
    (a b c d : ℕ) (rest : Bytes)
    → (c' : ℕ) × (d' : ℕ) × (write (a ∷ b ∷ c ∷ d ∷ rest) ≡ a ∷ b ∷ c' ∷ d' ∷ rest)

-- A message that answers a request, as RFC 792 lays it out behind an IP header of 20 bytes: an echo
-- reply has the request's bytes after the checksum, and an error message the header of the packet
-- it is about, of 4 * words bytes, and the packet.
pub data Answers (request : Bytes) : Bytes → Type 0 where
  echo_reply :
      {msg : Bytes} (header : Bytes) (c d : ℕ)
      → length header ≡ 20
      → msg ≡ header ++ (0 ∷ 0 ∷ c ∷ d ∷ drop 4 request)
      → Answers request msg
  error_message :
      {msg : Bytes} (header : Bytes) (type a b c d e f g words : ℕ) (carried : Bytes)
      → length header ≡ 20
      → carries_header type ≡ true
      → 5 ≤ words
      → words < 16
      → length carried + 1 ≡ words * 4
      → msg ≡ header ++ (type ∷ a ∷ b ∷ c ∷ d ∷ e ∷ f ∷ g ∷ (0x40 + words) ∷ (carried ++ request))
      → Answers request msg

-- The bytes 6 and 7 hold the number.
HasSequence : Bytes → ℕ → Type 0
HasSequence request n =
    (p : ℕ) × (q : ℕ) × (r : ℕ) × (s : ℕ) × (t : ℕ) × (u : ℕ) × (rest : Bytes) × (request
      ≡ p ∷ q ∷ r ∷ s ∷ t ∷ u ∷ (n / 256 % 256) ∷ (n % 256) ∷ rest)

create-HasSequence :
    (write : Bytes → Bytes)
    → WritesChecksum write
    → (type identifier n size : ℕ)
    → HasSequence (create_ping_request write type identifier n size) n
unfolding create_ping_request ping_bytes first_byte second_byte HasSequence
create-HasSequence write w type identifier n size =
    let (c, d, e) = w _ _ _ _ _ in (_, _, _, _, _, _, _, e)

word_lem : (n : ℕ) → n / 256 % 256 * 256 + n % 256 ≡ n % 65536
word_lem n = omega arith

-- The answers to a request with a sequence number, read by `parseIdFromIcmpMessage`, give the
-- number back, up to its low 16 bits: an echo reply, and an error message with an IPv4 header.
pub parse_id-create_ping_request :
    (write : Bytes → Bytes)
    → WritesChecksum write
    → (type identifier n size : ℕ) (msg : Bytes)
    → Answers (create_ping_request write type identifier n size) msg
    → parse_id msg ≡ id (n % 65536)
unfolding parse_id parse_carried HasSequence
parse_id-create_ping_request write w type identifier n size msg (echo_reply header c d l e) =
    let (p, q, r, s, t, u, rest, made) = create-HasSequence write w type identifier n size in
    let reply : Bytes = 0 ∷ 0 ∷ c ∷ d ∷ t ∷ u ∷ (n / 256 % 256) ∷ (n % 256) ∷ rest in
    rw (e, made)
      (parse_plain (header ++ reply) 0 (n / 256 % 256) (n % 256)
          (get_elem?-append header reply 20 0 (omega arith)) refl
          (get_elem?-append header reply 26 6 (omega arith))
          (get_elem?-append header reply 27 7 (omega arith))
        ∙ ap id (word_lem n))
parse_id-create_ping_request write w type identifier n size msg
      (error_message header ty a b c d e f g words carried l h lo hi k m) =
    let (p, q, r, s, t, u, rest, made) = create-HasSequence write w type identifier n size in
    let packet : Bytes = p ∷ q ∷ r ∷ s ∷ t ∷ u ∷ (n / 256 % 256) ∷ (n % 256) ∷ rest in
    let front : Bytes = ty ∷ a ∷ b ∷ c ∷ d ∷ e ∷ f ∷ g ∷ (0x40 + words) ∷ carried in
    let answer : Bytes = front ++ packet in
    let size_lem : length (header ++ answer) ≡ 28 + words * 4 + 8 + length rest =
      omega (arith, length-append header answer, length-append carried packet) in
    rw (m, made)
      (parse_error (header ++ answer) ty words (n / 256 % 256) (n % 256)
          (get_elem?-append header answer 20 0 (omega arith)) h hi (omega arith) (omega arith)
          (get_elem?-append header answer 28 8 (omega arith))
          (get_elem?-append header answer (28 + words * 4 + 6) (length front + 6) (omega arith)
            ∙ get_elem?-append front packet (length front + 6) 6 refl)
          (get_elem?-append header answer (28 + words * 4 + 6 + 1) (length front + 7) (omega arith)
            ∙ get_elem?-append front packet (length front + 7) 7 refl)
        ∙ ap id (word_lem n))
