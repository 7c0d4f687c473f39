-- ===== src/Examples/Burst.antt =====
-- The burst example: examples/esp32c3_6/burst/main/main.c. The answers of `malloc` and `realloc` are
-- parameters. A task is the function that it runs; the ends of a task are named after what the code
-- prints or logs there, and the other output to the log is left out.
pub mod Receiver
pub mod App
pub mod Sender
pub mod Received
pub mod Listening
use Prim.Native.Nat.{bit_or}
use Prim.Native.String.{String}
use lora_driver_with_network.Prelude.{
  ℕ, zero, suc, ◌+◌, ◌*◌, Bool, true, false, not, Option, none, some, List, [], ◌∷◌, ◌++◌, ◌==◌,
  if◌then◌else◌, take, length, set, get_or,
}
use lora_driver_with_network.Packet.{Packet, ack_packet}
use lora_driver_with_network.NetworkData.{
  data_to_packet_array, packet_array_to_data, packet_count, sizeof_pointer,
}
use lora_driver_with_network.RxHandler.{
  RxHandlerCtx, RxHandlerReturn, capture_end, packet_rejected, command_packet, capture_begin,
  capture_array_full, data_packet_captured, capture_already_on, unknown_packet, null_packet,
  capture_not_on, packet_redundant, handler_not_configured, Call, command_call, capture_end_call,
  rx_handler_init, rx_packet_handler,
}
use lora_driver_with_network.Platform.{SxErr, is_ok, History}
use lora_driver_with_network.Platform.Timer.{sx127x_timer_init}
use lora_driver_with_network.Radio.{Io, pure, ◌>>=◌, ◌>>◌, attempt, finish, ◌>>=?◌}
use lora_driver_with_network.Radio.Config.{
  mode_lora, mode_rx_continuous, sx1278_switch_mode, sx1278_clear_irq, initialize_sx_1278,
}
use lora_driver_with_network.Radio.RxUtils.{read_last_packet}
use lora_driver_with_network.Radio.Utils.{
  send_burst, sx_1278_send_packet, poll_for_irq_flag_no_timeout,
}
use lora_driver_with_network.Examples.Spi.{Idf}
use lora_driver_with_network.Examples.Spi.Port.{lora_port, no_logger}

abbrev pub sender_addr : ℕ
sender_addr = 0x0001

abbrev pub receiver_addr : ℕ
receiver_addr = 0x0002

-- `ACK_ID`
abbrev pub burst_ack_id : ℕ
burst_ack_id = 0x01

-- The bytes of "hello burst test".
abbrev pub burst_data : List ℕ
burst_data =
    104 ∷ 101 ∷ 108 ∷ 108 ∷ 111 ∷ 32 ∷ 98 ∷ 117 ∷ 114 ∷ 115 ∷ 116 ∷ 32 ∷ 116 ∷ 101 ∷ 115 ∷ 116 ∷ []

-- How the sender's task ends. All but the last return from the task's function, without `vTaskDelete`.
pub data SenderEnd : Type 0 where
  out_of_memory : SenderEnd
  not_built : SenderEnd
  burst_send_failed : SenderEnd
  burst_sent : SenderEnd

unfoldable pub after_burst : SxErr → Io (Option SenderEnd)
after_burst ret = if not (is_ok ret) then finish burst_send_failed else finish burst_sent

-- The packets behind the pointers of an array, if none is NULL.
unfoldable pub dereferenced : List (Option Packet) → Option (List Packet)
dereferenced [] = some []
dereferenced (none ∷ array) = none
dereferenced (some p ∷ array) = elim (dereferenced array) [ none ↦ none | some ps ↦ some (p ∷ ps) ]

-- The burst, which would read through a NULL pointer.
unfoldable pub send_packets : ℕ → Packet → Option (List Packet) → Io (Option SenderEnd)
unfolding after_burst
send_packets fuel rx_p none = pure none
send_packets fuel rx_p (some ps) = send_burst fuel rx_p ps >>=? after_burst

unfoldable pub send_built : ℕ → Packet → Option (List (Option Packet)) → Io (Option SenderEnd)
unfolding send_packets
send_built fuel rx_p none = finish not_built
send_built fuel rx_p (some p_buf) = send_packets fuel rx_p (dereferenced p_buf)

-- `rx_p` is what `malloc` gives for the received packet in `send_burst`.
unfoldable pub sender_task : ℕ → Packet → (ℕ → Bool) → (ℕ → Bool) → Io (Option SenderEnd)
sender_task fuel rx_p malloc realloc =
    let total = packet_count (length burst_data) + 2 in
    if not (malloc (total * sizeof_pointer))
    then finish out_of_memory
    else send_built fuel rx_p (
        data_to_packet_array malloc realloc burst_data (length burst_data) receiver_addr sender_addr
          burst_ack_id true)
