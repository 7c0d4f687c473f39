-- ===== src/Radio/Utils/Expected.antt =====
-- The acknowledgements that `send_burst` of src/sx127x_utils.c waits for, and those that a receiver sends.
use lora_driver_with_network.Prelude.{
  ℕ, zero, suc, ◌+◌, ◌≤◌, ◌<◌, ◌≡◌, refl, subst, sym, true, List, [], ◌∷◌, ◌++◌, arith, length,
  length-append, take, drop, u8,
}
use lora_driver_with_network.Packet.{
  Packet, PacketType, packet_end, packet_begin, uint8_max, check_packet_features,
}
use lora_driver_with_network.Packet.Kind.{ack_kind, ack_of, ack_of_lem, ack_packet-accepted}
use lora_driver_with_network.NetworkData.{packet_count}
use lora_driver_with_network.NetworkData.Fragments.{fragment, fragments, marker, burst}
use lora_driver_with_network.NetworkData.Reassembly.{length-fragments}
use lora_driver_with_network.Radio.Utils.{expected_type}

-- From index `i` on, the acknowledgement that a receiver sends for each packet passes the comparison
-- that the burst waits for.
pub data AllExpected (len : ℕ) : ℕ → List Packet → Type 0 where
  none_expected : {i : ℕ} → AllExpected len i []
  one_expected :
      {i : ℕ} {p : Packet} {ps : List Packet}
      → check_packet_features
          (ack_of p)
          p.dest_address
          p.src_address
          p.ack_id
          p.sequence_number
          (expected_type i len)
        ≡ true
      → AllExpected len (i + 1) ps
      → AllExpected len i (p ∷ ps)

passes :
    (p : Packet) (t : PacketType)
    → ack_kind p.sequence_number ≡ t
    → check_packet_features (ack_of p) p.dest_address p.src_address p.ack_id p.sequence_number t
      ≡ true
passes p t e = (ack_packet-accepted p (ack_of p) t (ack_of_lem p)).1 (sym e)

inner : (i len : ℕ) → 0 < i → i < 255 → i + 1 < len → ack_kind (u8 i) ≡ expected_type i len
unfolding expected_type
inner i len low high more = ground arith

outer : (i len : ℕ) → 0 < i → i + 1 ≡ len → packet_end ≡ expected_type i len
unfolding expected_type
outer i len low last = ground arith

module _ (dest src id : ℕ) where
  fragments-AllExpected :
      (n i len : ℕ) (bytes : List ℕ)
      → 0 < i
      → i + n ≤ 255
      → i + n + 1 ≡ len
      → AllExpected len i (fragments dest src id n i bytes ++ marker dest src id uint8_max ∷ [])
  fragments-AllExpected zero i len bytes low high total =
      one_expected
        (passes (marker dest src id uint8_max) (expected_type i len)
          (outer i len low (omega arith)))
        none_expected
  fragments-AllExpected (suc n) i len bytes low high total =
      let next : suc i ≡ i + 1 = omega arith in
      one_expected
        (passes (fragment dest src id (u8 i) (take 8 bytes)) (expected_type i len)
          (inner i len low (omega arith) (omega arith)))
        (subst
          (λ k.
            AllExpected len k
              (fragments dest src id n (suc i) (drop 8 bytes) ++ marker dest src id uint8_max ∷ []))
          next
          (fragments-AllExpected n (suc i) len (drop 8 bytes) (omega arith) (omega arith)
            (omega arith)))

first : (len : ℕ) → packet_begin ≡ expected_type 0 len
unfolding expected_type
first len = refl

-- For a block of at most 2032 bytes, as many as 254 packets carry: whatever packet of its burst a
-- receiver acknowledges, the acknowledgement passes the comparison that `send_burst` makes at the
-- packet's place in the burst.
pub burst-AllExpected :
    (dest src id : ℕ) (bytes : List ℕ)
    → length bytes ≤ 2032
    → AllExpected (length (burst dest src id true bytes)) 0 (burst dest src id true bytes)
burst-AllExpected dest src id bytes h =
    let n = packet_count (length bytes) in
    let few : n ≤ 254 = omega arith in
    let inside = fragments dest src id n 1 bytes in
    let size : 1 + n + 1 ≡ length (burst dest src id true bytes) = omega (
      arith,
      length-append inside (marker dest src id uint8_max ∷ []),
      length-fragments dest src id n 1 bytes,
    ) in
    one_expected
      (passes (marker dest src id 0) (expected_type 0 (length (burst dest src id true bytes)))
        (first (length (burst dest src id true bytes))))
      (fragments-AllExpected dest src id n 1 (length (burst dest src id true bytes)) bytes
        (omega arith) (omega arith) size)
