-- ===== src/Link/Travel.antt =====
-- The packets of a burst, and their acknowledgements, arrive as they were sent.
use lora_driver_with_network.Prelude.{
  ℕ, zero, suc, ◌<◌, ◌≡◌, refl, arith, true, List, [], ◌∷◌, ◌++◌, take, drop, length, length-take,
  length-drop, u8,
}
use lora_driver_with_network.Packet.{Packet, uint8_max}
use lora_driver_with_network.Packet.Kind.{ack_of}
use lora_driver_with_network.NetworkData.{packet_count}
use lora_driver_with_network.NetworkData.Fragments.{fragments, marker, burst}
use lora_driver_with_network.Transfer.{over_air-marker, over_air-fragment}
use lora_driver_with_network.Link.{Air, arrived}

-- The packet and its acknowledgement survive the way.
pub record Travels (p : Packet) : Type 0 where
  pub packet_arrives : (air : Air) → arrived air p ≡ p
  pub ack_arrives : (air : Air) → arrived air (ack_of p) ≡ ack_of p

abbrev pub AllTravel : List Packet → Type 0
AllTravel [] = Unit
AllTravel (p ∷ ps) = Travels p × AllTravel ps

module _ (dest src id : ℕ) (dest_fits : dest < 65536) (src_fits : src < 65536)
    (id_fits : id < 256) where
  marker-Travels : (seq : ℕ) → seq < 256 → Travels (marker dest src id seq)
  marker-Travels seq fits = record {
    packet_arrives = λ air.
        over_air-marker dest src id dest_fits src_fits id_fits air.tx air.rest seq air.room fits;
    ack_arrives = λ air.
        over_air-marker src dest id src_fits dest_fits id_fits air.tx air.rest seq air.room fits;
  }

  fragments-AllTravel :
      (n seq : ℕ) (bytes : List ℕ)
      → n ≡ packet_count (length bytes)
      → AllTravel (fragments dest src id n seq bytes ++ marker dest src id uint8_max ∷ [])
  fragments-AllTravel zero seq bytes count = (marker-Travels uint8_max (omega arith), tt)
  fragments-AllTravel (suc n) seq bytes count = (
    record {
      packet_arrives = λ air.
          over_air-fragment dest src id dest_fits src_fits id_fits air.tx air.rest (u8 seq)
            (take 8 bytes) air.room (omega arith) (omega (arith, length-take 8 bytes))
            (omega (arith, length-take 8 bytes));
      ack_arrives = λ air.
          over_air-marker src dest id src_fits dest_fits id_fits air.tx air.rest (u8 seq) air.room
            (omega arith);
    },
    fragments-AllTravel n (suc seq) (drop 8 bytes) (omega (arith, length-drop 8 bytes)),
  )

  pub burst-AllTravel : (bytes : List ℕ) → AllTravel (burst dest src id true bytes)
  burst-AllTravel bytes = (
    marker-Travels 0 (omega arith),
    fragments-AllTravel (packet_count (length bytes)) 1 bytes refl,
  )
