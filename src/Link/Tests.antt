-- ===== src/Link/Tests.antt =====
-- Bursts over links that lose frames.
use lora_driver_with_network.Prelude.{
  ℕ, ◌≡◌, ◌≢◌, ◌⊎◌, refl, arith, true, Option, none, some, List, [], ◌∷◌, ◌++◌, drop, replicate,
}
use lora_driver_with_network.Packet.{Packet}
use lora_driver_with_network.NetworkData.{packet_array_to_data}
use lora_driver_with_network.NetworkData.Fragments.{marker, burst}
use lora_driver_with_network.RxHandler.{RxHandlerCtx, rx_handler_init, capture_end_call}
use lora_driver_with_network.RxHandler.Invariant.{IsValid, rx_handler_init-IsValid}
use lora_driver_with_network.RxHandler.Session.{idle, view}
use lora_driver_with_network.RxHandler.Refine.{Passes}
use lora_driver_with_network.Link.{
  Air, Outcome, Honest, lost, disturbed, unanswered, answered, start, run,
}
use lora_driver_with_network.Link.Delivery.{run_told}
use lora_driver_with_network.Link.Fairness.{
  frame_lost, answer_lost, other_read, none_bad, one_bad, Fair, no_packet, one_packet,
}
use lora_driver_with_network.Link.Completion.{run-Fair_delivers}

abbrev air : Air
air = record { tx = replicate 255 9; rest = 1 ∷ 2 ∷ []; room = omega arith }

abbrev bytes : List ℕ
bytes = 10 ∷ 11 ∷ 12 ∷ []

abbrev receiver : RxHandlerCtx
receiver = rx_handler_init none (some 9) 2 1

-- A frame of another station.
abbrev noise : Packet
noise = marker 3 1 5 0

abbrev stormy : List Outcome
stormy = unanswered air ∷ disturbed noise ∷ lost ∷ []

-- BEGIN is lost once and disturbed once, the data's acknowledgement is lost twice.
abbrev weather : List Outcome
weather =
    lost
    ∷ disturbed noise
    ∷ answered air air
    ∷ unanswered air
    ∷ unanswered air
    ∷ answered air air
    ∷ answered air air
    ∷ []

weather-Fair : Fair 3 weather
weather-Fair =
    one_packet (lost ∷ disturbed noise ∷ []) air air
      (one_bad frame_lost (one_bad other_read none_bad)) (omega arith)
      (one_packet (unanswered air ∷ unanswered air ∷ []) air air
        (one_bad answer_lost (one_bad answer_lost none_bad)) (omega arith)
        (one_packet [] air air none_bad (omega arith) no_packet))

weather-Honest : Honest 2 1 weather
weather-Honest = ((λ both. absurd (omega (arith, both.0))), tt)

stormy-Honest : Honest 2 1 stormy
stormy-Honest = ((λ both. absurd (omega (arith, both.0))), tt)

receiver-IsValid : IsValid receiver
receiver-IsValid = rx_handler_init-IsValid none (some 9) 2 1

receiver_idle : view receiver ≡ idle
unfolding rx_handler_init
receiver_idle = refl

receiver-Passes : Passes receiver (marker 2 1 5 0)
unfolding rx_handler_init
receiver-Passes = record {
  is_configured = refl;
  to_host = refl;
  from_remote = refl;
  is_new = λ both. absurd (omega (arith, both.0));
}

run-Fair_delivers_example :
    let l = run 3 weather (start (burst 2 1 5 true bytes) receiver) in
    (l.pending ≡ [])
    × ((array : List (Option Packet)) × (l.calls
          ≡ capture_end_call receiver.capture_end_handler array 1 ∷ [])
        × (packet_array_to_data array (replicate 5 0) 1 ≡ some (bytes ++ drop 3 (replicate 5 0))))
run-Fair_delivers_example =
    run-Fair_delivers 2 1 5 bytes (replicate 5 0) receiver weather (omega arith) (omega arith)
      (omega arith) (omega arith) (omega arith) receiver-IsValid receiver_idle receiver-Passes
      weather-Honest weather-Fair

run_told_example :
    let l = run 3 stormy (start (burst 2 1 5 true bytes) receiver) in
    ((l.calls ≡ []) × (l.pending ≢ []))
    ⊎ ((array : List (Option Packet)) × (l.calls
          ≡ capture_end_call receiver.capture_end_handler array 1 ∷ [])
        × (packet_array_to_data array (replicate 5 0) 1 ≡ some (bytes ++ drop 3 (replicate 5 0))))
run_told_example =
    run_told 2 1 5 3 bytes (replicate 5 0) receiver stormy (omega arith) (omega arith) (omega arith)
      (omega arith) (omega arith) receiver-IsValid receiver_idle receiver-Passes stormy-Honest
