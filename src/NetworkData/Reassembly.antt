-- ===== src/NetworkData/Reassembly.antt =====
-- `packet_array_to_data` of src/network_data_operations.c, and what it makes of the packets that
-- `data_to_packet_array` built.
use lora_driver_with_network.Prelude.{
  ℕ, zero, suc, ◌+◌, ◌*◌, ◌≤◌, ◌≡◌, refl, ap, ◌∙◌, Option, some, List, [], ◌∷◌, ◌++◌, append-nil,
  append_assoc, map, arith, inl, inr, take, drop, length, length-append, length-take, length-drop,
  drop-drop, take-append-drop, store_bytes-append,
}
use lora_driver_with_network.Packet.{Packet, payload_length_max}
use lora_driver_with_network.Packet.Description.{packet_description_bounds}
use lora_driver_with_network.Packet.Frame.{contents, payload_bytes-eq-contents}
use lora_driver_with_network.NetworkData.{copy_payloads, packet_array_to_data, packet_count}
use lora_driver_with_network.NetworkData.Fragments.{fragments}

-- The payloads, one after another.
abbrev pub joined : List Packet → List ℕ
joined [] = []
joined (p ∷ ps) = contents p.payload ++ joined ps

-- Every packet holds a payload of at most eight bytes, in a buffer of the length stated.
abbrev pub AllSmall : List Packet → Type 0
AllSmall [] = Unit
AllSmall (p ∷ ps) =
    (p.payload_length ≤ payload_length_max)
    × (length (contents p.payload) ≡ p.payload_length)
    × AllSmall ps

copy_payloads_lem :
    (ps : List Packet) (done rest : List ℕ)
    → AllSmall ps
    → length (joined ps) ≤ length rest
    → copy_payloads (map some ps) (done ++ rest) (length done)
      ≡ some ((done ++ joined ps) ++ drop (length (joined ps)) rest)
unfolding copy_payloads
copy_payloads_lem [] done rest s fits = rw append-nil
copy_payloads_lem (p ∷ ps) done rest s fits = elim (packet_description_bounds p) [
  | inl (_, d, e, _) ↦
      let c = contents p.payload in
      let room : length c ≤ length rest = omega (arith, length-append c (joined ps)) in
      let place : length done + p.payload_length ≡ length (done ++ c) =
        omega (arith, length-append done c, s.1) in
      let room_after : length (joined ps) ≤ length (drop (length c) rest) =
        omega (arith, length-append c (joined ps), length-drop (length c) rest) in
      let ih = copy_payloads_lem ps (done ++ c) (drop (length c) rest) s.2 room_after in
      let after : drop (length (joined ps)) (drop (length c) rest)
          ≡ drop (length (c ++ joined ps)) rest =
        drop-drop (length c) (length (joined ps)) (length (c ++ joined ps)) rest
          (omega (arith, length-append c (joined ps))) in
      rw (e, copy_payloads, payload_bytes-eq-contents p s.1)
        (rw (store_bytes-append done c rest room, place)
          (ih ∙ rw (after, append_assoc done c (joined ps))))
  | inr (big, _) ↦ absurd (omega (arith, s.0))
]

module _ (dest src id : ℕ) where
  pub fragments-AllSmall :
      (n seq : ℕ) (bytes : List ℕ) → AllSmall (fragments dest src id n seq bytes)
  fragments-AllSmall zero seq bytes = tt
  fragments-AllSmall (suc n) seq bytes =
      (omega (arith, length-take 8 bytes), refl, fragments-AllSmall n (suc seq) (drop 8 bytes))

  pub joined-fragments :
      (n seq : ℕ) (bytes : List ℕ)
      → length bytes ≤ n * 8
      → joined (fragments dest src id n seq bytes) ≡ bytes
  joined-fragments zero seq [] h = refl
  joined-fragments zero seq (b ∷ bytes) h = absurd (omega arith)
  joined-fragments (suc n) seq bytes h =
      rw (joined-fragments n (suc seq) (drop 8 bytes) (omega (arith, length-drop 8 bytes)))
        (take-append-drop 8 bytes)

  pub length-fragments :
      (n seq : ℕ) (bytes : List ℕ) → length (fragments dest src id n seq bytes) ≡ n
  length-fragments zero seq bytes = refl
  length-fragments (suc n) seq bytes = ap suc (length-fragments n (suc seq) (drop 8 bytes))

-- Reassembling an array that begins with packets of small payloads writes their payloads one after
-- another at the start of the buffer, and overruns nothing.
pub packet_array_to_data_lem :
    (array : List (Option Packet)) (ps : List Packet) (n : ℕ) (buffer : List ℕ)
    → take n array ≡ map some ps
    → AllSmall ps
    → length (joined ps) ≤ length buffer
    → packet_array_to_data array buffer n ≡ some (joined ps ++ drop (length (joined ps)) buffer)
unfolding packet_array_to_data
packet_array_to_data_lem array ps n buffer e s fits = rw e (copy_payloads_lem ps [] buffer s fits)

-- An array that begins with the fragments of a block of data, reassembled in a buffer that has
-- room, gives the data back; the rest of the buffer keeps its bytes.
pub packet_array_to_data-fragments :
    (dest src id seq : ℕ) (bytes buffer : List ℕ) (array : List (Option Packet))
    → let n = packet_count (length bytes) in
      take n array ≡ map some (fragments dest src id n seq bytes)
      → length bytes ≤ length buffer
      → packet_array_to_data array buffer n ≡ some (bytes ++ drop (length bytes) buffer)
packet_array_to_data-fragments dest src id seq bytes buffer array e room =
    let n = packet_count (length bytes) in
    let ps = fragments dest src id n seq bytes in
    let whole : joined ps ≡ bytes = joined-fragments dest src id n seq bytes (omega arith) in
    packet_array_to_data_lem array ps n buffer e (fragments-AllSmall dest src id n seq bytes)
      (rw whole room)
    ∙ rw whole
