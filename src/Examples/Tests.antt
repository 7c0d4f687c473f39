-- ===== src/Examples/Tests.antt =====
-- Runs of the example programs on a simulated ESP-IDF and a simulated chip.
use Prim.Native.Nat.{bit_or, bit_and}
use Prim.Native.String.{String}
use lora_driver_with_network.Prelude.{
  ℕ, ◌≡◌, ◌↔◌, refl, arith, Bool, true, false, Option, none, some, List, [], ◌∷◌, ◌==◌,
  if◌then◌else◌, length, take, drop, ◌++◌, ◌⊎◌, ◌≢◌, replicate,
}
use lora_driver_with_network.Packet.{Packet, payload_length_max}
use lora_driver_with_network.NetworkData.Fragments.{fragment, marker, burst}
use lora_driver_with_network.RxHandler.{Call}
use lora_driver_with_network.RxHandler.Stream.{done, first, again, receive}
use lora_driver_with_network.Platform.{sx_ok}
use lora_driver_with_network.Radio.{Radio}
use lora_driver_with_network.Radio.Config.{channels_of}
use lora_driver_with_network.Radio.RxUtils.Read.{blank}
use lora_driver_with_network.Radio.Utils.Ack.{AllAnswered}
use lora_driver_with_network.Radio.Utils.Ending.{Overran}
use lora_driver_with_network.Radio.Tests.{station, fine, time}
use lora_driver_with_network.Radio.Tests.Runs.{alive, alive-IsLive, time-IsClock}
use lora_driver_with_network.Examples.Spi.{
  Idf, bus_acquired, esp_err_no_mem, esp_ok, esp_spi_write, esp_spi_read, sx_of, lora_spi_read,
  read_with_dummy, read_with_cmd, read_with_rx, read_cleanup, write_with_data, write_with_cmd,
  write_cleanup,
}
use lora_driver_with_network.Examples.Spi.Bus.{free, held, misused, Has}
use lora_driver_with_network.Examples.Spi.Balance.{esp_spi_write-Has, esp_spi_write_empty}
use lora_driver_with_network.Examples.Spi.ReadBalance.{obtains, esp_spi_read-Has}
use lora_driver_with_network.Examples.Spi.Wire.{wire, selects, transfers}
use lora_driver_with_network.Examples.Spi.Written.{esp_spi_write-Writes}
use lora_driver_with_network.Examples.Spi.ReadBack.{esp_spi_read-ReadsBack}
use lora_driver_with_network.Examples.Spi.Port.{lora_port, IsWorking}
use lora_driver_with_network.Examples.Pingpong.{
  buf_size, pong_str, all_rounds, run_sender, app_main,
}
use lora_driver_with_network.Examples.Pingpong.Rally.{Rallied, run_sender-Rallied}
use lora_driver_with_network.Examples.Pingpong.Ends.{app_main_starts}
use lora_driver_with_network.Examples.Burst.{
  sender_addr, receiver_addr, burst_ack_id, SenderEnd, burst_sent, sender_task,
}
use lora_driver_with_network.Examples.Burst.Receiver.{Others, c_string, perform, run_receiver}
use lora_driver_with_network.Examples.Burst.Sender.{packets, sender_task-Settled}
use lora_driver_with_network.Examples.Burst.Received.{burst_complete}

-- A buffer's number is that of the calls before it, and the chip answers every read with its version.
abbrev idf : Idf
idf = record {
  acquire = λ h. esp_ok;
  transmit = λ t h. (esp_ok, 0x12 ∷ []);
  malloc = λ n h. some (length h);
}

idf-IsWorking : IsWorking idf
idf-IsWorking = record {
  acquires = λ h. refl;
  gives = λ n h. (length h, refl);
  transmits = λ t h. refl;
}

esp_spi_write-Has_example : Has free [] (esp_spi_write idf 1 (129 ∷ []) []).1
esp_spi_write-Has_example = esp_spi_write-Has idf 1 (129 ∷ []) [] [] (omega arith) (refl, refl)

esp_spi_write_empty_example :
    let r = esp_spi_write idf 1 [] [] in
    let given = idf.malloc 0 (bus_acquired esp_ok ∷ []) in
    ((idf.acquire [] ≢ esp_ok) × (r.0 ≡ idf.acquire []) × Has free [] r.1)
    ⊎ (((idf.acquire [] ≡ esp_ok) × (given ≡ none) × (r.0 ≡ esp_err_no_mem) × Has free [] r.1)
        ⊎ ((idf.acquire [] ≡ esp_ok)
            × (p : ℕ) × (given ≡ some p)
            × (r.0 ≡ esp_ok)
            × Has held (p ∷ []) r.1))
esp_spi_write_empty_example = esp_spi_write_empty idf 1 [] [] (refl, refl)

esp_spi_read-Has_example :
    Has (if obtains idf 1 [] then free else misused) [] (esp_spi_read idf 0x42 (0 ∷ []) 1 []).1
esp_spi_read-Has_example = esp_spi_read-Has idf 0x42 (0 ∷ []) 1 [] [] (omega arith) (refl, refl)

esp_spi_write-Writes_example :
    (r0 : List ℕ) × (r1 : List ℕ) × (wire (esp_spi_write idf 1 (129 ∷ []) []).1
      ≡ (transfers (129 ∷ []) false, (esp_ok, r1)) ∷ (selects (bit_or 1 0x80), (esp_ok, r0)) ∷ [])
unfolding esp_spi_write write_with_data write_with_cmd write_cleanup
esp_spi_write-Writes_example = esp_spi_write-Writes idf 1 (129 ∷ []) [] (omega arith) refl

esp_spi_read-ReadsBack_example :
    (r0 : List ℕ) × (rx : List ℕ) × ((esp_spi_read idf 0x42 (0 ∷ []) 1 []).0.1
      ≡ take 1 rx ++ drop (length (take 1 rx)) (0 ∷ []))
    × (length (esp_spi_read idf 0x42 (0 ∷ []) 1 []).0.1 ≡ 1)
    × (wire (esp_spi_read idf 0x42 (0 ∷ []) 1 []).1
        ≡ (transfers (replicate 1 0) true, (esp_ok, rx))
          ∷ (selects (bit_and 0x42 0x7F), (esp_ok, r0))
          ∷ [])
unfolding esp_spi_read read_with_dummy read_with_cmd read_with_rx read_cleanup
esp_spi_read-ReadsBack_example =
    esp_spi_read-ReadsBack idf 0x42 (0 ∷ []) 1 [] (omega arith) (omega arith) refl

app_main_starts_example :
    let r = app_main 10002 true idf 1 time (replicate 64 0) 0 (station fine 0) in
    ((out : List String) × (r.0 ≡ some ("sx1278 init ok\n" ∷ out))) ⊎ Overran buf_size r
unfolding channels_of lora_port lora_spi_read esp_spi_read read_with_dummy read_with_cmd
    read_with_rx read_cleanup sx_of
app_main_starts_example =
    app_main_starts 10002 true idf 1 time (replicate 64 0) 0 (station fine 0) (omega arith)
      idf-IsWorking time-IsClock refl (omega arith) (omega arith) (omega arith)

-- A chip that has sent and received, and whose frame is a pong.
abbrev ponging : Radio
ponging = record (station fine 0) {
  spi_port = record {
    writer = λ handle reg bytes h. sx_ok;
    reader = λ handle reg buffer len h. (
      sx_ok,
      if reg == 0x12
          then 0x48 ∷ []
          else if reg == 0x13
          then 4 ∷ []
          else if reg == 0x00
          then pong_str
          else 0 ∷ [],
    );
    spi_handle = 1;
    initialized = true;
  };
}

run_sender-Rallied_example :
    (run_sender 1 (replicate 64 0) 0 ponging
      ≡ (some all_rounds, (run_sender 1 (replicate 64 0) 0 ponging).1))
    ↔ Rallied 1 (run_sender 1 (replicate 64 0) 0 ponging).1 5 (replicate 64 0) 0 ponging
run_sender-Rallied_example =
    run_sender-Rallied 1 (replicate 64 0) 0 ponging (run_sender 1 (replicate 64 0) 0 ponging).1

abbrev enough : ℕ → Bool
enough n = true

sender_task-Settled_example :
    let r = sender_task 3002 blank enough enough alive in
    ((end : SenderEnd) × (r.0 ≡ some end)
      × (end ≡ burst_sent → AllAnswered 3002 r.1 0 packets alive))
    ⊎ Overran payload_length_max r
sender_task-Settled_example =
    sender_task-Settled 3002 blank enough enough alive (omega arith) alive-IsLive

abbrev heap : ℕ → Option (List ℕ)
heap n = some (replicate n 7)

-- What the calls of other handlers print.
abbrev others : Others
others = record { command = λ f p. none; capture_end = λ f array count. none }

-- BEGIN comes twice.
burst_complete_example :
    (call : Call) × ((receive run_receiver (
        marker receiver_addr sender_addr burst_ack_id 0
        ∷ burst receiver_addr sender_addr burst_ack_id true (104 ∷ 105 ∷ []))).calls
      ≡ call ∷ [])
    × (perform heap others call ≡ some (some (c_string (104 ∷ 105 ∷ []))))
burst_complete_example =
    burst_complete heap others (104 ∷ 105 ∷ []) (replicate 3 7)
      (marker receiver_addr sender_addr burst_ack_id 0
        ∷ burst receiver_addr sender_addr burst_ack_id true (104 ∷ 105 ∷ []))
      (omega arith) refl refl (again _ (first _ (first _ (first _ done))))

abbrev late : Packet
late = fragment receiver_addr sender_addr burst_ack_id 1 (104 ∷ 105 ∷ [])
