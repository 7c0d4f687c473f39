-- ===== src/Examples/Burst/Received.antt =====
-- What the receiver of examples/esp32c3_6/burst/main/main.c makes of packets.
use lora_driver_with_network.Prelude.{
  ℕ, zero, suc, ◌+◌, ◌*◌, ◌≤◌, ◌<◌, ◌≡◌, refl, ap, sym, ◌∙◌, arith, true, Option, none, some, List,
  [], ◌∷◌, ◌++◌, map, if◌then◌else◌, length, take, drop, length-take, length-drop, ◌==◌, set,
  length-map,
}
use lora_driver_with_network.Packet.{Packet}
use lora_driver_with_network.NetworkData.{packet_count}
use lora_driver_with_network.NetworkData.Fragments.{burst, fragments, marker}
use lora_driver_with_network.NetworkData.Reassembly.{
  packet_array_to_data-fragments, length-fragments,
}
use lora_driver_with_network.RxHandler.{Call, capture_end_call, packet_capture_max_count}
use lora_driver_with_network.RxHandler.Invariant.{IsValid, rx_handler_init-IsValid}
use lora_driver_with_network.RxHandler.Session.{idle, view}
use lora_driver_with_network.RxHandler.Refine.{Passes}
use lora_driver_with_network.RxHandler.Stream.{Reception, Resent, receive}
use lora_driver_with_network.RxHandler.Echoes.{receive-Resent}
use lora_driver_with_network.RxHandler.Delivery.{receive-burst}
use lora_driver_with_network.Examples.Burst.{sender_addr, receiver_addr, burst_ack_id}
use lora_driver_with_network.Examples.Burst.Receiver.{
  on_burst_complete_fn, total_length, c_string, print_filled, print_data, print_total,
  on_burst_complete, Others, perform, run_receiver,
}

-- The sum that the end handler forms of the fragments of a block of data is the block's length.
total_length-fragments :
    (dest src id n seq : ℕ) (bytes : List ℕ) (sum : ℕ)
    → length bytes ≤ n * 8
    → total_length (map some (fragments dest src id n seq bytes)) sum ≡ some (sum + length bytes)
unfolding total_length
total_length-fragments dest src id zero seq bytes sum h = ap (λ (k : ℕ). some k) (omega arith)
total_length-fragments dest src id (suc n) seq bytes sum h =
    total_length-fragments dest src id n (suc seq) (drop 8 bytes) (sum + length (take 8 bytes))
      (omega (arith, length-drop 8 bytes))
    ∙ ap (λ (k : ℕ). some k) (omega (arith, length-take 8 bytes, length-drop 8 bytes))

-- The zero that is written behind the data ends the string.
c_string-set :
    (bytes rest : List ℕ)
    → 0 < length rest
    → c_string (set (bytes ++ rest) (length bytes) 0) ≡ c_string bytes
unfolding c_string
c_string-set [] [] h = absurd (omega arith)
c_string-set [] (x ∷ rest) h = refl
c_string-set (b ∷ bytes) rest h =
    ap (λ (l : List ℕ). if b == 0 then [] else b ∷ l) (c_string-set bytes rest h)

module _ (malloc : ℕ → Option (List ℕ)) (dest src id : ℕ) (bytes buf : List ℕ)
    (given : malloc (length bytes + 1) ≡ some buf) (room : length buf ≡ length bytes + 1) where
  -- The end handler prints the data that the fragments carry.
  on_burst_complete-fragments :
      (array : List (Option Packet))
      → let n = packet_count (length bytes) in
        take n array ≡ map some (fragments dest src id n 1 bytes)
        → on_burst_complete malloc array n ≡ some (some (c_string bytes))
  unfolding on_burst_complete print_total print_data print_filled
  on_burst_complete-fragments array holds =
      let n = packet_count (length bytes) in
      let total : total_length (take n array) 0 ≡ some (length bytes) =
        ap (λ l. total_length l 0) holds
        ∙ total_length-fragments dest src id n 1 bytes 0 (omega arith)
        ∙ ap (λ (k : ℕ). some k) (omega arith) in
      ap (print_total malloc array n) total
      ∙ ap (print_data array n (length bytes)) given
      ∙ ap (print_filled (length bytes))
          (packet_array_to_data-fragments dest src id 1 bytes buf array holds (omega arith))
      ∙ ap (λ (l : List ℕ). some (some l))
          (c_string-set bytes (drop (length bytes) buf)
            (omega (arith, length-drop (length bytes) buf)))

run_receiver-Passes : Passes run_receiver (marker receiver_addr sender_addr burst_ack_id 0)
unfolding run_receiver
run_receiver-Passes = record {
  is_configured = refl;
  to_host = refl;
  from_remote = refl;
  is_new = λ both. absurd (omega (arith, both.0));
}

run_receiver_idle : view run_receiver ≡ idle
unfolding run_receiver
run_receiver_idle = refl

run_receiver-IsValid : IsValid run_receiver
unfolding run_receiver
run_receiver-IsValid =
    rx_handler_init-IsValid none (some on_burst_complete_fn) receiver_addr sender_addr

run_receiver_fn : run_receiver.capture_end_handler ≡ some on_burst_complete_fn
unfolding run_receiver
run_receiver_fn = refl

-- When the receiver of the example gets the packets of a burst of its sender, each once or several
-- times in a row, then its handler makes exactly one call, and the call prints the data up to its first
-- zero. The block has at most 254 packets, and the end handler gets memory.
pub burst_complete :
    (malloc : ℕ → Option (List ℕ)) (others : Others) (bytes buf : List ℕ) (qs : List Packet)
    → packet_count (length bytes) ≤ packet_capture_max_count
    → malloc (length bytes + 1) ≡ some buf
    → length buf ≡ length bytes + 1
    → Resent (burst receiver_addr sender_addr burst_ack_id true bytes) qs
    → (call : Call) × ((receive run_receiver qs).calls ≡ call ∷ [])
      × (perform malloc others call ≡ some (some (c_string bytes)))
unfolding perform
burst_complete malloc others bytes buf qs few given room sent =
    let n = packet_count (length bytes) in
    let fs = fragments receiver_addr sender_addr burst_ack_id n 1 bytes in
    let d =
      (receive-burst receiver_addr sender_addr burst_ack_id (some on_burst_complete_fn) run_receiver
        bytes run_receiver-IsValid run_receiver_idle run_receiver-Passes run_receiver_fn few).0 in
    let count : length (map some fs) ≡ n =
      length-map some fs ∙ length-fragments receiver_addr sender_addr burst_ack_id n 1 bytes in
    (
      capture_end_call (some on_burst_complete_fn) d.array n,
      ap (λ (r : Reception). r.calls) (receive-Resent sent run_receiver)
          ∙ d.once
          ∙ ap (λ k. capture_end_call (some on_burst_complete_fn) d.array k ∷ []) count,
      on_burst_complete-fragments malloc receiver_addr sender_addr burst_ack_id bytes buf given room
          d.array (ap (λ k. take k d.array) (sym count) ∙ d.holds),
    )
