-- ===== src/NetworkData.antt =====
-- Fragmentation of a block of data into packets, and the way back: src/network_data_operations.c.
-- The answers of `malloc` and `realloc` that the code checks are parameters, functions of the size
-- asked for; pointers have eight bytes. A `none` in a packet array is a NULL pointer.
pub mod Fragments
pub mod Reassembly
mod Tests
use lora_driver_with_network.Prelude.{
  ℕ, zero, suc, ◌+◌, ◌-◌, ◌*◌, ◌/◌, Bool, true, false, Option, none, some, List, [], ◌∷◌, ◌++◌, ltb,
  if◌then◌else◌, take, drop, u8, store_bytes,
}
use lora_driver_with_network.Packet.{
  Packet, packet_constructor, ack_packet, payload_bytes, payload_length_max, uint8_max,
}
use lora_driver_with_network.Packet.Description.{packet_description}

abbrev pub sizeof_pointer : ℕ
sizeof_pointer = 8

-- `ceil((double)data_len / payload_length_max)`: a `double` holds every `int` and its eighth
-- exactly, so this is the exact quotient rounded up.
abbrev pub packet_count : ℕ → ℕ
packet_count data_len = (data_len + payload_length_max - 1) / payload_length_max

abbrev pub payload_size : ℕ → ℕ
payload_size bytes_left =
    if ltb bytes_left payload_length_max then bytes_left else payload_length_max

module _ (bytes : List ℕ) (dest_addr src_addr ack_id seq_offset : ℕ) where
  -- The `for` loop: the rounds that are left, `i` and `bytes_left`.
  unfoldable pub build : ℕ → ℕ → ℕ → List (Option Packet)
  build zero i bytes_left = []
  build (suc rounds) i bytes_left =
      packet_constructor dest_addr src_addr ack_id (u8 (seq_offset + i))
        (u8 (payload_size bytes_left))
        (some (take (payload_size bytes_left) (drop (i * payload_length_max) bytes)))
      ∷ build rounds (i + 1) (bytes_left - payload_size bytes_left)

-- What is written to `callback_buf` when 0 is returned; `none` is a return of -1, which leaves
-- `callback_buf` alone. `data_len` is not negative.
unfoldable pub data_to_packet_array :
    (ℕ → Bool) → (ℕ → Bool) → List ℕ → ℕ → ℕ → ℕ → ℕ → Bool → Option (List (Option Packet))
unfolding build
data_to_packet_array malloc realloc bytes data_len dest_addr src_addr ack_id include_handshakes =
    let npackets = packet_count data_len in
    let arr_size = npackets * sizeof_pointer in
    let seq_offset : ℕ = if include_handshakes then 1 else 0 in
    if malloc arr_size
    then (let buf = build bytes dest_addr src_addr ack_id seq_offset npackets 0 data_len in
        if include_handshakes
        then (if realloc (arr_size + sizeof_pointer * 2)
            then some (
                ack_packet dest_addr src_addr ack_id 0
                ∷ (buf ++ ack_packet dest_addr src_addr ack_id uint8_max ∷ []))
            else none)
        else some buf)
    else none

-- The loop over the packets; `size` is the offset of the next write. `none` is an undefined run: a
-- NULL pointer in the array, or a packet whose description, which is made and then not used,
-- overruns its buffer.
unfoldable pub copy_payloads : List (Option Packet) → List ℕ → ℕ → Option (List ℕ)
copy_payloads [] buffer size = some buffer
copy_payloads (none ∷ ps) buffer size = none
copy_payloads (some p ∷ ps) buffer size = elim (packet_description p) [
  | none ↦ none
  | some _ ↦ copy_payloads ps (store_bytes buffer size (payload_bytes p)) (size + p.payload_length)
]

unfoldable pub packet_array_to_data : List (Option Packet) → List ℕ → ℕ → Option (List ℕ)
unfolding copy_payloads
packet_array_to_data p_buf buffer len = copy_payloads (take len p_buf) buffer 0
