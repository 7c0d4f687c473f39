-- ===== src/Packet/Tests.antt =====
-- Runs of the functions of src/packet.c, and the theorems about them at those inputs.
use lora_driver_with_network.Prelude.{
  ℕ, ◌≤◌, ◌<◌, ◌≡◌, ◌⊎◌, refl, none, some, List, [], ◌∷◌, ◌++◌, arith, ltb, if◌then◌else◌,
  replicate, drop, take, length, store_bytes,
}
use lora_driver_with_network.Packet.{
  Packet, packet_constructor, packet_to_bytestream, parse_packet, payload_length_max,
}
use lora_driver_with_network.Packet.Description.{packet_description, packet_description_bounds}
use lora_driver_with_network.Packet.Frame.{IsWellFormed, frame, packet_to_bytestream-frame}
use lora_driver_with_network.Packet.Wire.{
  received, parse_packet-packet_to_bytestream, frame-parse_packet,
}

abbrev hello : Packet
hello = record {
  dest_address = 0x0102;
  src_address = 0xfffe;
  ack_id = 7;
  sequence_number = 3;
  payload_length = 2;
  payload = some (0x68 ∷ 0x69 ∷ []);
}

abbrev buffer : List ℕ
buffer = replicate 12 0xaa

hello-IsWellFormed : IsWellFormed hello
hello-IsWellFormed = omega arith

hello_frame :
    packet_to_bytestream buffer 12 hello
    ≡ (some 9, 1 ∷ 2 ∷ 255 ∷ 254 ∷ 7 ∷ 3 ∷ 2 ∷ 0x68 ∷ 0x69 ∷ 0xaa ∷ 0xaa ∷ 0xaa ∷ [])
unfolding packet_to_bytestream store_bytes
hello_frame = refl

too_long : packet_constructor 1 2 3 4 9 (some (replicate 9 0)) ≡ none
unfolding packet_constructor
too_long = refl

packet_to_bytestream-frame_example : packet_to_bytestream buffer 12 hello ≡ (
    if ltb 12 (length (frame hello))
    then (none, buffer)
    else (some (length (frame hello)), frame hello ++ drop (length (frame hello)) buffer))
packet_to_bytestream-frame_example =
    packet_to_bytestream-frame buffer 12 hello hello-IsWellFormed (omega arith)

parse_packet-packet_to_bytestream_example :
    ((packet_to_bytestream buffer 12 hello).0 ≡ some 9)
    × (parse_packet (packet_to_bytestream buffer 12 hello).1 ≡ (received hello, 9))
parse_packet-packet_to_bytestream_example =
    parse_packet-packet_to_bytestream buffer 12 hello hello-IsWellFormed (omega arith) (omega arith)

abbrev raw : List ℕ
raw = 1 ∷ 2 ∷ 255 ∷ 254 ∷ 7 ∷ 3 ∷ 1 ∷ 0x68 ∷ 0x69 ∷ []

frame-parse_packet_example :
    IsWellFormed (parse_packet raw).0 × (frame (parse_packet raw).0 ≡ take (parse_packet raw).1 raw)
unfolding parse_packet
frame-parse_packet_example = frame-parse_packet raw (omega arith) (omega arith)

packet_description_bounds_example :
    ((2 ≤ payload_length_max)
      × (d : List ℕ) × (packet_description hello ≡ some d)
      × (length d ≤ 255))
    ⊎ ((payload_length_max < 2) × (packet_description hello ≡ none))
packet_description_bounds_example = packet_description_bounds hello
