-- ===== src/Packet.antt =====
-- The frame of the networking layer: src/packet.c and include/packet.h.
-- A `uint8_t` or `uint16_t` is a native number, and a conversion to it is `u8` or `u16`. A
-- `packet *` that may be NULL is an `Option`. The payload pointer is `none` for NULL, and otherwise
-- the bytes that it points to. The allocations that the code does not check are taken to succeed.
pub mod Description
pub mod Kind
pub mod Frame
pub mod Wire
mod Tests
use Prim.Native.Nat.{bit_or}
use lora_driver_with_network.Prelude.{
  ℕ, ◌+◌, ◌*◌, ◌/◌, ◌^◌, Bool, true, false, not, ◌&&◌, Option, none, some, List, [], ◌∷◌, ltb, ◌==◌,
  if◌then◌else◌, take, drop, get_or, u8, u16, store_bytes,
}

abbrev pub addr_length : ℕ
addr_length = 2

abbrev pub overhead : ℕ
overhead = 2 * addr_length + 1 + 1 + 1

abbrev pub payload_length_max : ℕ
payload_length_max = 8

abbrev pub max_frame_size : ℕ
max_frame_size = payload_length_max + overhead

abbrev pub uint8_max : ℕ
uint8_max = 255

pub data PacketType : Type 0 where
  packet_ack packet_begin packet_end packet_data : PacketType

-- The number that the C enumeration gives each type.
unfoldable pub type_code : PacketType → ℕ
type_code packet_ack = 0
type_code packet_begin = 1
type_code packet_end = 2
type_code packet_data = 3

pub record Packet : Type 0 where
  pub dest_address : ℕ
  pub src_address : ℕ
  pub ack_id : ℕ
  pub sequence_number : ℕ
  pub payload_length : ℕ
  pub payload : Option (List ℕ)

-- `memcpy(dst, p->payload, p->payload_length)`: the bytes that are read.
abbrev pub bytes_at : Option (List ℕ) → ℕ → List ℕ
bytes_at none n = []
bytes_at (some bytes) n = take n bytes

unfoldable pub payload_bytes : Packet → List ℕ
payload_bytes p = bytes_at p.payload p.payload_length

unfoldable pub u32_conv_be : ℕ → List ℕ
u32_conv_be x = u8 (x / 2 ^ 24) ∷ u8 (x / 2 ^ 16) ∷ u8 (x / 2 ^ 8) ∷ u8 x ∷ []

unfoldable pub u16_conv_be : ℕ → List ℕ
u16_conv_be x = u8 (x / 2 ^ 8) ∷ u8 x ∷ []

unfoldable pub read_u32_be : List ℕ → ℕ
read_u32_be src =
    bit_or
      (bit_or (bit_or (get_or src 0 0 * 2 ^ 24) (get_or src 1 0 * 2 ^ 16)) (get_or src 2 0 * 2 ^ 8))
      (get_or src 3 0)

unfoldable pub read_u16_be : List ℕ → ℕ
read_u16_be src = u16 (bit_or (get_or src 0 0 * 2 ^ 8) (get_or src 1 0))

unfoldable pub check_packet_type : Packet → PacketType
check_packet_type p =
    if p.sequence_number == 0 && p.payload_length == 0
    then packet_begin
    else if p.sequence_number == uint8_max && p.payload_length == 0
    then packet_end
    else if p.payload_length == 0
    then packet_ack
    else packet_data

unfoldable pub check_packet_features : Packet → ℕ → ℕ → ℕ → ℕ → PacketType → Bool
unfolding check_packet_type type_code
check_packet_features p src_addr dest_addr ack_id sequence_number packet_type =
    if not (p.src_address == src_addr)
    then false
    else if not (p.dest_address == dest_addr)
    then false
    else if not (p.ack_id == ack_id)
    then false
    else if not (p.sequence_number == sequence_number)
    then false
    else if not (type_code (check_packet_type p) == type_code packet_type)
    then false
    else true

-- `malloc(payload_length)` and two `memcpy`: the copy has its own payload buffer.
unfoldable pub copy_packet : Packet → Packet
unfolding payload_bytes
copy_packet p = record p { payload = some (payload_bytes p) }

-- `none` is the NULL that is returned for a payload that is too long.
unfoldable pub packet_constructor : ℕ → ℕ → ℕ → ℕ → ℕ → Option (List ℕ) → Option Packet
packet_constructor dest_address src_address ack_id sequence_number payload_length payload =
    if ltb payload_length_max payload_length
    then none
    else some (record {
      dest_address = dest_address;
      src_address = src_address;
      ack_id = ack_id;
      sequence_number = sequence_number;
      payload_length = payload_length;
      payload = payload;
    })

unfoldable pub ack_packet : ℕ → ℕ → ℕ → ℕ → Option Packet
unfolding packet_constructor
ack_packet dest_address src_address ack_id sequence_number =
    packet_constructor dest_address src_address ack_id sequence_number 0 none

-- The packet that is filled in, and the count of bytes read. Every field of the packet that was
-- there is overwritten. A byte past the end of `raw` is read as 0 here, and is undefined in C.
unfoldable pub parse_packet : List ℕ → Packet × ℕ
unfolding read_u16_be
parse_packet raw =
    let payload_length = get_or raw 6 0 in
    (
      record {
        dest_address = read_u16_be raw;
        src_address = read_u16_be (drop 2 raw);
        ack_id = get_or raw 4 0;
        sequence_number = get_or raw 5 0;
        payload_length = payload_length;
        payload =
            if ltb 0 payload_length then some (take payload_length (drop overhead raw)) else none;
      },
      if ltb 0 payload_length then overhead + payload_length else overhead,
    )

-- The buffer after the writes, and the returned count; `none` is the -1 of a frame that does not
-- fit `buffer_size`.
unfoldable pub packet_to_bytestream : List ℕ → ℕ → Packet → Option ℕ × List ℕ
unfolding u16_conv_be payload_bytes
packet_to_bytestream buffer buffer_size pkt =
    if ltb buffer_size (overhead + pkt.payload_length)
    then (none, buffer)
    else let b = store_bytes buffer 0 (u16_conv_be pkt.dest_address) in
      let b = store_bytes b 2 (u16_conv_be pkt.src_address) in
      let b = store_bytes b 4 (pkt.ack_id ∷ []) in
      let b = store_bytes b 5 (pkt.sequence_number ∷ []) in
      let b = store_bytes b 6 (pkt.payload_length ∷ []) in
      let b = store_bytes b overhead (payload_bytes pkt) in
      (some (overhead + pkt.payload_length), b)
