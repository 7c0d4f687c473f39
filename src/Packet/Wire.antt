-- ===== src/Packet/Wire.antt =====
-- `packet_to_bytestream` and `parse_packet` of src/packet.c undo one another.
use lora_driver_with_network.Prelude.{
  ℕ, zero, suc, ◌+◌, ◌*◌, ◌/◌, ◌%◌, ◌^◌, u8, u16, length-take, ◌≤◌, ◌<◌, ◌≡◌, refl, ap, sym, ◌∙◌,
  Option, none, some, List, [], ◌∷◌, ◌++◌, arith, ltb, if◌then◌else◌, take, length, drop,
  take-append_left,
}
use Prim.Native.Nat.{bit_or}
use lora_driver_with_network.Prelude.Bits.{bit_or-byte, bit_or_aligned}
use lora_driver_with_network.Packet.{
  Packet, overhead, parse_packet, packet_to_bytestream, read_u16_be, u16_conv_be, read_u32_be,
  u32_conv_be,
}
use lora_driver_with_network.Packet.Frame.{
  contents, frame, IsWellFormed, length-frame, packet_to_bytestream_fits,
}

-- What a receiver holds for a packet: the payload pointer is NULL where there is no payload.
abbrev pub received : Packet → Packet
received p = record p {
  payload = if ltb 0 p.payload_length then some (contents p.payload) else none;
}

-- The big-endian conversions of 16-bit numbers undo one another.
pub read_u16_be-u16_conv_be :
    (x : ℕ) (rest : List ℕ) → x < 65536 → read_u16_be (u16_conv_be x ++ rest) ≡ x
unfolding read_u16_be u16_conv_be
read_u16_be-u16_conv_be x rest h =
    rw (bit_or-byte ((x / 256) % 256) (x % 256) (omega arith)) (omega arith)

read_u16_be_pair :
    (x : ℕ) (rest : List ℕ) → x < 65536 → read_u16_be ((x / 256) ∷ (x % 256) ∷ rest) ≡ x
unfolding read_u16_be
read_u16_be_pair x rest h = rw (bit_or-byte (x / 256) (x % 256) (omega arith)) (omega arith)

take-contents :
    (o : Option (List ℕ)) (n : ℕ) (rest : List ℕ)
    → length (contents o) ≡ n
    → take n (contents o ++ rest) ≡ contents o
take-contents o n rest e =
    ap (λ k. take k (contents o ++ rest)) (sym e) ∙ take-append_left (contents o) rest

-- Parsing a buffer that begins with the frame of `p`, whatever follows, gives `p` and the frame's length.
pub parse_packet-frame :
    (p : Packet) (rest : List ℕ)
    → IsWellFormed p
    → parse_packet (frame p ++ rest) ≡ (received p, length (frame p))
unfolding parse_packet
parse_packet-frame p rest w = ground (
  arith,
  w.payload_fits,
  read_u16_be_pair p.dest_address (drop 2 (frame p ++ rest)) w.dest_fits,
  read_u16_be_pair p.src_address (drop 4 (frame p ++ rest)) w.src_fits,
  take-contents p.payload p.payload_length rest w.payload_fits,
)

-- What one side writes with `packet_to_bytestream`, in a buffer of any content in which the frame
-- fits, the other side reads back with `parse_packet`, and both report the same length.
pub parse_packet-packet_to_bytestream :
    (buffer : List ℕ) (size : ℕ) (p : Packet)
    → IsWellFormed p
    → size ≤ length buffer
    → overhead + p.payload_length ≤ size
    → ((packet_to_bytestream buffer size p).0 ≡ some (overhead + p.payload_length))
      × (parse_packet (packet_to_bytestream buffer size p).1
          ≡ (received p, overhead + p.payload_length))
parse_packet-packet_to_bytestream buffer size p w fits room =
    rw (packet_to_bytestream_fits buffer size p w fits room, parse_packet-frame p _ w)
      (rw (length-frame p w) (refl, refl))

join_u32 :
    (a b c d : ℕ)
    → b < 256
    → c < 256
    → d < 256
    → bit_or (bit_or (bit_or (a * 2 ^ 24) (b * 2 ^ 16)) (c * 2 ^ 8)) d
      ≡ a * 2 ^ 24 + b * 2 ^ 16 + c * 2 ^ 8 + d
join_u32 a b c d hb hc hd = rw (bit_or_aligned 24 a (a * 2 ^ 24) (b * 2 ^ 16) refl (omega arith)) (
    rw
      (bit_or_aligned 16 (a * 256 + b) (a * 2 ^ 24 + b * 2 ^ 16) (c * 2 ^ 8) (omega arith)
        (omega arith))
      (bit_or_aligned 8 (a * 65536 + b * 256 + c) (a * 2 ^ 24 + b * 2 ^ 16 + c * 2 ^ 8) d
        (omega arith) hd))

-- Reading a 32-bit number where it was written with the high byte first gives it back.
pub read_u32_be-u32_conv_be : (x : ℕ) → x < 2 ^ 32 → read_u32_be (u32_conv_be x) ≡ x
unfolding read_u32_be u32_conv_be
read_u32_be-u32_conv_be x h =
    join_u32 (u8 (x / 2 ^ 24)) (u8 (x / 2 ^ 16)) (u8 (x / 2 ^ 8)) (u8 x) (omega arith) (omega arith)
      (omega arith)
    ∙ omega arith

abbrev pub IsBytes : List ℕ → Type 0
IsBytes [] = Unit
IsBytes (b ∷ bs) = (b < 256) × IsBytes bs

join_u16 : (hi lo : ℕ) → hi < 256 → lo < 256 → u16 (bit_or (hi * 256) lo) ≡ hi * 256 + lo
join_u16 hi lo h l = rw (bit_or-byte hi lo l) (omega arith)

contents_taken :
    (n : ℕ) (bytes : List ℕ)
    → contents (if ltb 0 n then some (take n bytes) else none) ≡ take n bytes
contents_taken zero bytes = refl
contents_taken (suc n) bytes = ground arith

take_frame :
    (n b0 b1 b2 b3 b4 b5 b6 : ℕ) (rest : List ℕ)
    → take (if ltb 0 n then overhead + n else overhead) (b0 ∷ b1 ∷ b2 ∷ b3 ∷ b4 ∷ b5 ∷ b6 ∷ rest)
      ≡ b0 ∷ b1 ∷ b2 ∷ b3 ∷ b4 ∷ b5 ∷ b6 ∷ take n rest
take_frame n b0 b1 b2 b3 b4 b5 b6 rest =
    let e : (if ltb 0 n then overhead + n else overhead)
        ≡ suc (suc (suc (suc (suc (suc (suc n)))))) =
      ground arith in
    ap (λ k. take k (b0 ∷ b1 ∷ b2 ∷ b3 ∷ b4 ∷ b5 ∷ b6 ∷ rest)) e

-- Whatever bytes are received, if the length byte stays within them, the parsed
-- packet is well formed and its frame is the bytes that were read.
pub frame-parse_packet :
    (raw : List ℕ)
    → IsBytes raw
    → (parse_packet raw).1 ≤ length raw
    → IsWellFormed (parse_packet raw).0
      × (frame (parse_packet raw).0 ≡ take (parse_packet raw).1 raw)
unfolding parse_packet
frame-parse_packet (b0 ∷ b1 ∷ b2 ∷ b3 ∷ b4 ∷ b5 ∷ b6 ∷ rest) bs fits = (
  ground (arith, join_u16 b0 b1, join_u16 b2 b3, contents_taken b6 rest, length-take b6 rest),
  rw
      (
        join_u16 b0 b1 bs.0 bs.1.0,
        join_u16 b2 b3 bs.1.1.0 bs.1.1.1.0,
        contents_taken b6 rest,
        take_frame b6 b0 b1 b2 b3 b4 b5 b6 rest,
      )
      (ground arith),
)
frame-parse_packet _ bs fits = absurd (omega arith)
