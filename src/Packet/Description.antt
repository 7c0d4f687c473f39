-- ===== src/Packet/Description.antt =====
-- `packet_description` of src/packet.c: the text that `sprintf` writes, and the bound of the
-- nine-byte copy of the payload that it is made from.
use Prim.Native.Char.{code}
use Prim.Native.String.{String}
use lora_driver_with_network.Prelude.{
  ℕ, ◌+◌, ◌/◌, ◌%◌, ◌≤◌, ◌<◌, ◌≡◌, Option, none, some, List, [], ◌∷◌, ◌++◌, arith, ltb, ◌==◌,
  if◌then◌else◌, length, length-append, length-take, inl, inr, Bool-cases, ltb→lt, ◌⊎◌,
}
use lora_driver_with_network.Packet.{
  Packet, bytes_at, payload_length_max, payload_bytes, check_packet_type, type_code,
}

-- The code points of a text: its bytes, since the texts here are ASCII.
abbrev pub codes : String → List ℕ
codes String.[] = []
codes (String.◌∷◌ c s) = code c ∷ codes s

hex_digit : ℕ → ℕ
hex_digit n = if ltb n 10 then 48 + n else 87 + n

-- `%02x` of a byte and `%04x` of a 16-bit number.
hex_byte : ℕ → List ℕ
unfolding hex_digit
hex_byte n = hex_digit (n / 16 % 16) ∷ hex_digit (n % 16) ∷ []

hex_u16 : ℕ → List ℕ
unfolding hex_byte
hex_u16 n = hex_byte (n / 256) ++ hex_byte (n % 256)

-- What `%s` prints: the bytes up to the first zero byte, or up to the terminator that was added.
until_nul : List ℕ → List ℕ
until_nul [] = []
until_nul (c ∷ cs) = if c == 0 then [] else c ∷ until_nul cs

abbrev scratch_size : ℕ
scratch_size = 9

-- What `sprintf` writes, with the terminating zero byte.
unfoldable pub description_text : Packet → List ℕ
unfolding hex_u16 hex_byte until_nul payload_bytes check_packet_type type_code
description_text p =
    codes "PACKET TYPE: "
    ++ ((48 + type_code (check_packet_type p)) ∷ [])
    ++ codes "\n DEST_ADDR: 0x"
    ++ hex_u16 p.dest_address
    ++ codes "\nSRC_ADDR: 0x"
    ++ hex_u16 p.src_address
    ++ codes "\nACK_ID: 0x"
    ++ hex_byte p.ack_id
    ++ codes "\nSEQ: 0x"
    ++ hex_byte p.sequence_number
    ++ codes "\nPAYLOAD_LENGTH: 0x"
    ++ hex_byte p.payload_length
    ++ codes "\nDATA: "
    ++ until_nul (payload_bytes p)
    ++ codes "\n"
    ++ 0 ∷ []

-- `none` where `str[payload_length]` lies past the end of the nine bytes allocated: the copy then
-- writes outside its allocation.
unfoldable pub packet_description : Packet → Option (List ℕ)
unfolding description_text
packet_description p = if ltb p.payload_length scratch_size then some (description_text p) else none

length-until_nul : (cs : List ℕ) → length (until_nul cs) ≤ length cs
unfolding until_nul
length-until_nul [] = omega arith
length-until_nul (c ∷ cs) = ground (arith, length-until_nul cs)

length-bytes_at : (o : Option (List ℕ)) (n : ℕ) → length (bytes_at o n) ≤ n
length-bytes_at none n = omega arith
length-bytes_at (some bytes) n = omega (arith, length-take n bytes)

length_last_part :
    (p : Packet)
    → length (until_nul (payload_bytes p) ++ codes "\n" ++ 0 ∷ []) ≤ 2 + p.payload_length
unfolding payload_bytes
length_last_part p =
    let cs = bytes_at p.payload p.payload_length in
    omega (
      arith,
      length-append (until_nul cs ++ codes "\n") (0 ∷ []),
      length-append (until_nul cs) (codes "\n"),
      length-until_nul cs,
      length-bytes_at p.payload p.payload_length,
    )

length-description_text : (p : Packet) → length (description_text p) ≤ 119 + p.payload_length
unfolding description_text
length-description_text p = omega (arith, length_last_part p)

-- A description is written exactly for a payload of at most eight bytes, and then fits the 255
-- bytes that `sx_1278_send_packet` allocates for it. For a longer payload the copy of the payload
-- overruns its nine bytes.
pub packet_description_bounds :
    (p : Packet)
    → ((p.payload_length ≤ payload_length_max)
        × (d : List ℕ) × (packet_description p ≡ some d)
        × (length d ≤ 255))
      ⊎ ((payload_length_max < p.payload_length) × (packet_description p ≡ none))
unfolding packet_description
packet_description_bounds p = elim (Bool-cases (ltb p.payload_length scratch_size)) [
  | inl fits ↦ inl (
    ground arith,
    description_text p,
    rw fits,
    omega (arith, length-description_text p, ltb→lt p.payload_length scratch_size fits),
  )
  | inr over ↦ inr (ground arith, rw over)
]
