-- ===== src/Packet/Kind.antt =====
-- The type of a packet (`check_packet_type`), the comparison of a packet with an expected one
-- (`check_packet_features`), and the acknowledgements that answer a packet (`ack_packet`).
use lora_driver_with_network.Prelude.{
  ℕ, ◌≡◌, ◌≢◌, ◌↔◌, refl, subst, sym, ◌∙◌, true, none, some, arith, ◌==◌, if◌then◌else◌,
}
use lora_driver_with_network.Packet.{
  Packet, PacketType, packet_ack, packet_begin, packet_end, packet_data, check_packet_type,
  type_code, check_packet_features, ack_packet, uint8_max,
}

-- What include/packet.h says of each type, as a relation.
pub data HasType (p : Packet) : PacketType → Type 0 where
  is_begin : p.sequence_number ≡ 0 → p.payload_length ≡ 0 → HasType p packet_begin
  is_end : p.sequence_number ≡ uint8_max → p.payload_length ≡ 0 → HasType p packet_end
  is_ack :
      p.sequence_number ≢ 0
      → p.sequence_number ≢ uint8_max
      → p.payload_length ≡ 0
      → HasType p packet_ack
  is_data : p.payload_length ≢ 0 → HasType p packet_data

check_packet_type-HasType : (p : Packet) → HasType p (check_packet_type p)
unfolding check_packet_type
check_packet_type-HasType p = grind (arith, is_begin, is_end, is_ack, is_data)

HasType-unique : (p : Packet) (t : PacketType) → HasType p t → check_packet_type p ≡ t
unfolding check_packet_type
HasType-unique p t (is_begin e f) = ground arith
HasType-unique p t (is_end e f) = ground arith
HasType-unique p t (is_ack e f g) = ground arith
HasType-unique p t (is_data e) = ground arith

-- The computed type of a packet is the one type that the descriptions of the types allow: a packet
-- has the type exactly when its description holds.
pub check_packet_type_iff : (p : Packet) (t : PacketType) → (check_packet_type p ≡ t) ↔ HasType p t
check_packet_type_iff p t =
    (λ e. subst (λ u. HasType p u) e (check_packet_type-HasType p), HasType-unique p t)

abbrev pub Matches : Packet → ℕ → ℕ → ℕ → ℕ → PacketType → Type 0
Matches p src dest id seq t =
    (p.src_address ≡ src)
    × (p.dest_address ≡ dest)
    × (p.ack_id ≡ id)
    × (p.sequence_number ≡ seq)
    × (check_packet_type p ≡ t)

type_code-eq : (t u : PacketType) → (type_code t == type_code u) ≡ true → t ≡ u
unfolding type_code
type_code-eq t u h = ground arith

type_code_refl : (t : PacketType) → (type_code t == type_code t) ≡ true
type_code_refl t = ground arith

-- The comparison accepts exactly the packets that agree in every feature.
pub check_packet_features_iff :
    (p : Packet) (src dest id seq : ℕ) (t : PacketType)
    → (check_packet_features p src dest id seq t ≡ true) ↔ Matches p src dest id seq t
check_packet_features_iff p src dest id seq t = (
  λ h. unfold check_packet_features in ground (arith, type_code-eq (check_packet_type p) t),
  λ m. unfold check_packet_features in ground (arith, type_code_refl t),
)

-- The type that the acknowledgement of a packet with this sequence number has.
abbrev pub ack_kind : ℕ → PacketType
ack_kind seq =
    if seq == 0 then packet_begin else if seq == uint8_max then packet_end else packet_ack

-- The acknowledgement as a value.
abbrev pub ack_of : Packet → Packet
ack_of p = record {
  dest_address = p.src_address;
  src_address = p.dest_address;
  ack_id = p.ack_id;
  sequence_number = p.sequence_number;
  payload_length = 0;
  payload = none;
}

pub ack_of_lem :
    (p : Packet)
    → ack_packet p.src_address p.dest_address p.ack_id p.sequence_number ≡ some (ack_of p)
unfolding ack_packet
ack_of_lem p = refl

pub check_packet_type-ack_of :
    (p : Packet) → check_packet_type (ack_of p) ≡ ack_kind p.sequence_number
unfolding check_packet_type
check_packet_type-ack_of p = ground arith

-- The packet that a receiver answers `p` with, by the call in `start_rx_loop`, passes the
-- sender's comparison for the expected type `t` exactly when `t` is the type that the sequence
-- number of `p` gives.
pub ack_packet-accepted :
    (p a : Packet) (t : PacketType)
    → ack_packet p.src_address p.dest_address p.ack_id p.sequence_number ≡ some a
    → (check_packet_features a p.dest_address p.src_address p.ack_id p.sequence_number t ≡ true)
      ↔ (t ≡ ack_kind p.sequence_number)
ack_packet-accepted p a t e =
    let same : a ≡ ack_of p = cc (ack_of_lem p) in
    rw same (
      λ h.
          let m =
            (check_packet_features_iff (ack_of p) p.dest_address p.src_address p.ack_id
                p.sequence_number t).0
              h in
          sym m.4 ∙ check_packet_type-ack_of p,
      λ h.
          (check_packet_features_iff (ack_of p) p.dest_address p.src_address p.ack_id
              p.sequence_number t).1
            (refl, refl, refl, refl, check_packet_type-ack_of p ∙ sym h),
    )
