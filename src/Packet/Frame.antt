-- ===== src/Packet/Frame.antt =====
-- The layout that `packet_to_bytestream` of src/packet.c gives a frame.
use lora_driver_with_network.Prelude.{
  ℕ, ◌+◌, ◌/◌, ◌%◌, ◌≤◌, ◌<◌, ◌≡◌, refl, ◌∙◌, Bool-cases, inl, inr, if◌then◌else◌, Option, none,
  some, List, [], ◌∷◌, ◌++◌, arith, ltb, ltb-false, take_all, length, drop, store_bytes,
  store_bytes-nil, store_bytes_lem,
}
use lora_driver_with_network.Packet.{
  Packet, bytes_at, overhead, payload_bytes, packet_to_bytestream,
}

-- The bytes behind a payload pointer.
abbrev pub contents : Option (List ℕ) → List ℕ
contents none = []
contents (some bytes) = bytes

-- The fields are in the range of their C types, and the payload buffer has the length stated.
pub record IsWellFormed (p : Packet) : Type 0 where
  pub dest_fits : p.dest_address < 65536
  pub src_fits : p.src_address < 65536
  pub ack_fits : p.ack_id < 256
  pub sequence_fits : p.sequence_number < 256
  pub length_fits : p.payload_length < 256
  pub payload_fits : length (contents p.payload) ≡ p.payload_length

-- The frame: two addresses with the high byte first, three bytes, and the payload.
abbrev pub frame : Packet → List ℕ
frame p =
    p.dest_address / 256
    ∷ p.dest_address % 256
    ∷ p.src_address / 256
    ∷ p.src_address % 256
    ∷ p.ack_id
    ∷ p.sequence_number
    ∷ p.payload_length
    ∷ contents p.payload

pub payload_bytes-eq-contents :
    (p : Packet)
    → length (contents p.payload) ≡ p.payload_length
    → payload_bytes p ≡ contents p.payload
unfolding payload_bytes
payload_bytes-eq-contents p h = bytes p.payload p.payload_length h
  where
    bytes : (o : Option (List ℕ)) (n : ℕ) → length (contents o) ≡ n → bytes_at o n ≡ contents o
    bytes none n e = refl
    bytes (some l) n e = take_all n l (omega arith)

pub length-frame : (p : Packet) → IsWellFormed p → length (frame p) ≡ overhead + p.payload_length
length-frame p w = omega (arith, w.payload_fits)

-- A frame that fits is written at the start of the buffer, its length is returned, and the rest of
-- the buffer keeps its bytes.
pub packet_to_bytestream_fits :
    (buffer : List ℕ) (size : ℕ) (p : Packet)
    → IsWellFormed p
    → size ≤ length buffer
    → overhead + p.payload_length ≤ size
    → packet_to_bytestream buffer size p
      ≡ (some (length (frame p)), frame p ++ drop (length (frame p)) buffer)
unfolding packet_to_bytestream store_bytes
packet_to_bytestream_fits (b0 ∷ b1 ∷ b2 ∷ b3 ∷ b4 ∷ b5 ∷ b6 ∷ rest) size p w fits room =
    rw
      (
        ltb-false size (overhead + p.payload_length) room,
        payload_bytes-eq-contents p w.payload_fits,
        store_bytes-nil rest,
        store_bytes_lem rest 0 (contents p.payload) (omega (arith, w.payload_fits)),
      )
      (ground (arith, w.payload_fits))
packet_to_bytestream_fits _ size p w fits room = absurd (omega arith)

-- `packet_to_bytestream` on both branches: a frame that does not fit `size` gives -1 and leaves the
-- buffer alone; any other is written at the start of the buffer, whose rest keeps its bytes, and
-- its length is returned.
pub packet_to_bytestream-frame :
    (buffer : List ℕ) (size : ℕ) (p : Packet)
    → IsWellFormed p
    → size ≤ length buffer
    → packet_to_bytestream buffer size p ≡ (
        if ltb size (length (frame p))
        then (none, buffer)
        else (some (length (frame p)), frame p ++ drop (length (frame p)) buffer))
packet_to_bytestream-frame buffer size p w fits =
    elim (Bool-cases (ltb size (overhead + p.payload_length))) [
      | inl short ↦ rw (length-frame p w, short) (unfold packet_to_bytestream in rw short)
      | inr room ↦
          packet_to_bytestream_fits buffer size p w fits (ground arith)
          ∙ (rw (length-frame p w, room))
    ]
