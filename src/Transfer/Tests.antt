-- ===== src/Transfer/Tests.antt =====
-- The transfer of a few bytes, with the BEGIN packet sent twice.
use lora_driver_with_network.Prelude.{
  ℕ, ◌≡◌, refl, Bool, true, Option, none, some, List, [], ◌∷◌, ◌++◌, map, arith, replicate,
}
use lora_driver_with_network.Packet.{Packet}
use lora_driver_with_network.NetworkData.{packet_array_to_data}
use lora_driver_with_network.NetworkData.Fragments.{marker, burst, data_to_packet_array-burst}
use lora_driver_with_network.RxHandler.{RxHandlerCtx, rx_handler_init, capture_end_call}
use lora_driver_with_network.RxHandler.Invariant.{rx_handler_init-IsValid}
use lora_driver_with_network.RxHandler.Stream.{done, first, again, receive}
use lora_driver_with_network.Transfer.{over_air, transfer}

abbrev always : ℕ → Bool
always size = true

abbrev small : List ℕ
small = 1 ∷ 2 ∷ 3 ∷ []

abbrev tx : List ℕ
tx = replicate 255 7

abbrev sent : List Packet
sent = burst 2 1 5 true small

-- A handler at address 2 that listens to address 1.
abbrev start : RxHandlerCtx
start = rx_handler_init none (some 9) 2 1

abbrev out : List ℕ
out = replicate 5 0

transfer_example :
    let arrived = map (over_air tx []) sent in
    (array : List (Option Packet)) × ((receive start
        (over_air tx [] (marker 2 1 5 0) ∷ arrived)).calls
      ≡ capture_end_call (some 9) array 1 ∷ [])
    × (packet_array_to_data array out 1 ≡ some (small ++ 0 ∷ 0 ∷ []))
unfolding rx_handler_init
transfer_example =
    transfer always always 2 1 5 small tx [] out start sent
      (over_air tx [] (marker 2 1 5 0) ∷ map (over_air tx []) sent) (omega arith) (omega arith)
      (omega arith) (omega arith) (omega arith) (omega arith)
      (rx_handler_init-IsValid none (some 9) 2 1) refl
      (record {
        is_configured = refl;
        to_host = refl;
        from_remote = refl;
        is_new = λ e. omega (arith, e.0);
      })
      (data_to_packet_array-burst 2 1 5 always always small true)
      (again _ (first _ (first _ (first _ done))))
