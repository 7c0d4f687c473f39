-- ===== src/NetworkData/Tests.antt =====
-- Runs of the functions of src/network_data_operations.c, and the theorems at those inputs.
use lora_driver_with_network.Prelude.{
  ℕ, ◌≡◌, refl, Bool, true, false, none, some, List, [], ◌∷◌, ◌++◌, map, arith, replicate, take,
}
use lora_driver_with_network.Packet.{packet_constructor}
use lora_driver_with_network.Packet.Description.{packet_description}
use lora_driver_with_network.NetworkData.{data_to_packet_array, packet_array_to_data}
use lora_driver_with_network.NetworkData.Fragments.{
  fragment, fragments, packets_of, data_to_packet_array-packets_of,
}
use lora_driver_with_network.NetworkData.Reassembly.{packet_array_to_data-fragments}

abbrev always : ℕ → Bool
always size = true

-- Ten bytes: one full packet and one of two bytes.
abbrev ten : List ℕ
ten = 1 ∷ 2 ∷ 3 ∷ 4 ∷ 5 ∷ 6 ∷ 7 ∷ 8 ∷ 9 ∷ 10 ∷ []

ten_fragments :
    data_to_packet_array always always ten 10 2 1 5 false
    ≡ some (some (fragment 2 1 5 0 (take 8 ten)) ∷ some (fragment 2 1 5 1 (9 ∷ 10 ∷ [])) ∷ [])
unfolding data_to_packet_array packet_constructor
ten_fragments = refl

data_to_packet_array-packets_of_example :
    data_to_packet_array always always ten 10 2 1 5 true
    ≡ some (map some (packets_of 2 1 5 2 true ten))
data_to_packet_array-packets_of_example =
    data_to_packet_array-packets_of 2 1 5 always always ten true 2 (omega arith) (omega arith)

abbrev room : List ℕ
room = replicate 12 0

packet_array_to_data-fragments_example :
    packet_array_to_data (map some (fragments 2 1 5 2 1 ten)) room 2 ≡ some (ten ++ 0 ∷ 0 ∷ [])
packet_array_to_data-fragments_example =
    packet_array_to_data-fragments 2 1 5 1 ten room (map some (fragments 2 1 5 2 1 ten)) refl
      (omega arith)

-- A packet of nine bytes, which the sender never builds, overruns the description's buffer.
overrun : packet_array_to_data (some (fragment 2 1 5 1 (replicate 9 0)) ∷ []) room 1 ≡ none
unfolding packet_array_to_data packet_description
overrun = refl
