-- ===== src/Examples/Burst/Receiver.antt =====
-- The receiver of examples/esp32c3_6/burst/main/main.c: its handler for the end of a transfer, its task
-- and `run_receiver`. The calls that the packet handler makes are performed by `perform`.
use Prim.Native.Nat.{bit_or}
use lora_driver_with_network.Prelude.{
  ℕ, zero, suc, ◌+◌, Bool, true, false, not, Option, none, some, List, [], ◌∷◌, ◌++◌, ◌==◌,
  if◌then◌else◌, take, set,
}
use lora_driver_with_network.Packet.{Packet, ack_packet}
use lora_driver_with_network.NetworkData.{packet_array_to_data}
use lora_driver_with_network.RxHandler.{
  RxHandlerCtx, RxHandlerReturn, capture_end, packet_rejected, command_packet, capture_begin,
  capture_array_full, data_packet_captured, capture_already_on, unknown_packet, null_packet,
  capture_not_on, packet_redundant, handler_not_configured, Call, command_call, capture_end_call,
  rx_handler_init, rx_packet_handler,
}
use lora_driver_with_network.Platform.{SxErr, is_ok}
use lora_driver_with_network.Radio.{Io, pure, ◌>>=◌, ◌>>◌, finish, ◌>>=?◌}
use lora_driver_with_network.Radio.Config.{
  mode_lora, mode_rx_continuous, sx1278_switch_mode, sx1278_clear_irq,
}
use lora_driver_with_network.Radio.RxUtils.{read_last_packet}
use lora_driver_with_network.Radio.Utils.{sx_1278_send_packet, poll_for_irq_flag_no_timeout}
use lora_driver_with_network.Examples.Burst.{sender_addr, receiver_addr}

-- The sum of the payload lengths, `none` for a run through a NULL pointer.
unfoldable pub total_length : List (Option Packet) → ℕ → Option ℕ
total_length [] sum = some sum
total_length (none ∷ array) sum = none
total_length (some p ∷ array) sum = total_length array (sum + p.payload_length)

-- What `%s` prints of a buffer: the bytes before the first that is 0.
unfoldable pub c_string : List ℕ → List ℕ
c_string [] = []
c_string (b ∷ bytes) = if b == 0 then [] else b ∷ c_string bytes

-- The print of the buffer, once the data was put into it.
unfoldable pub print_filled : ℕ → Option (List ℕ) → Option (Option (List ℕ))
unfolding c_string
print_filled total_len none = none
print_filled total_len (some buf) = some (some (c_string (set buf total_len 0)))

unfoldable pub print_data :
    List (Option Packet) → ℕ → ℕ → Option (List ℕ) → Option (Option (List ℕ))
unfolding print_filled
print_data p_arr n total_len none = some none
print_data p_arr n total_len (some buf) = print_filled total_len (packet_array_to_data p_arr buf n)

unfoldable pub print_total :
    (ℕ → Option (List ℕ)) → List (Option Packet) → ℕ → Option ℕ → Option (Option (List ℕ))
unfolding print_data
print_total malloc p_arr n none = none
print_total malloc p_arr n (some total_len) = print_data p_arr n total_len (malloc (total_len + 1))

-- What is printed after "burst complete: ": `some none` is a run without memory, which prints
-- nothing, and `none` an undefined run. The buffer from `malloc` holds any bytes.
unfoldable pub on_burst_complete :
    (ℕ → Option (List ℕ)) → List (Option Packet) → ℕ → Option (Option (List ℕ))
unfolding total_length print_total
on_burst_complete malloc p_arr n = print_total malloc p_arr n (total_length (take n p_arr) 0)

-- The numbers that stand for the functions that the handler calls: `on_burst_complete` is 1.
abbrev pub on_burst_complete_fn : ℕ
on_burst_complete_fn = 1

-- The functions with other numbers, which are not part of the example: what they would print, or `none`
-- for a run that is undefined.
pub record Others : Type 0 where
  pub command : ℕ → Packet → Option (Option (List ℕ))
  pub capture_end : ℕ → List (Option Packet) → ℕ → Option (Option (List ℕ))

-- A call of the handler. Through NULL it is undefined.
unfoldable pub perform : (ℕ → Option (List ℕ)) → Others → Call → Option (Option (List ℕ))
perform malloc others (command_call none p) = none
perform malloc others (command_call (some fn) p) = others.command fn p
perform malloc others (capture_end_call none p_arr n) = none
perform malloc others (capture_end_call (some fn) p_arr n) =
    if fn == on_burst_complete_fn
    then on_burst_complete malloc p_arr n
    else others.capture_end fn p_arr n

-- The test for the result that leaves the receiver's loop.
unfoldable pub is_capture_end : RxHandlerReturn → Bool
is_capture_end capture_end = true
is_capture_end packet_rejected = false
is_capture_end command_packet = false
is_capture_end capture_begin = false
is_capture_end capture_array_full = false
is_capture_end data_packet_captured = false
is_capture_end capture_already_on = false
is_capture_end unknown_packet = false
is_capture_end null_packet = false
is_capture_end capture_not_on = false
is_capture_end packet_redundant = false
is_capture_end handler_not_configured = false

-- The acknowledgement of a packet, whose code is not looked at. The send would read through NULL.
unfoldable pub reply : ℕ → Packet → Option Packet → Io (Option (Option Packet))
reply fuel rx_p none = pure none
reply fuel rx_p (some ack) = sx_1278_send_packet fuel ack false >>=? λ _. finish (some rx_p)

unfoldable pub hear : ℕ → SxErr × Packet → Io (Option (Option Packet))
hear fuel (ret, rx_p) =
    if not (is_ok ret)
    then finish none
    else reply fuel rx_p
        (ack_packet rx_p.src_address rx_p.dest_address rx_p.ack_id rx_p.sequence_number)

-- A round of the receiver's loop up to the call of the handler: `some none` is a `continue`.
unfoldable pub listen_round : ℕ → Io (Option (Option Packet))
listen_round fuel =
    sx1278_clear_irq
    >> sx1278_switch_mode (bit_or mode_lora mode_rx_continuous)
    >> poll_for_irq_flag_no_timeout fuel 1 64 false 0
    >>=? λ ret. if not (is_ok ret) then finish none else (read_last_packet >>= hear fuel)

-- What the receiver's task did: whether it is done, the handler's state, and the handler's calls.
pub record Listened : Type 0 where
  pub done : Bool
  pub handler : RxHandlerCtx
  pub calls : List Call

-- The end of a round, with the rounds that follow.
unfoldable pub take_in :
    (RxHandlerCtx → Io Listened) → RxHandlerCtx → Option (Option Packet) → Io Listened
unfolding is_capture_end
take_in next handler none = pure (record { done = false; handler = handler; calls = [] })
take_in next handler (some none) = next handler
take_in next handler (some (some p)) =
    let h = rx_packet_handler handler (some p) in
    if is_capture_end h.ret
    then pure (record { done = true; handler = h.ctx; calls = h.calls })
    else (next h.ctx >>= λ rest. pure (record rest { calls = h.calls ++ rest.calls }))

-- At most `n` rounds of the `while (1)`.
unfoldable pub listen_rounds : ℕ → ℕ → RxHandlerCtx → Io Listened
unfolding take_in
listen_rounds fuel zero handler = pure (record { done = false; handler = handler; calls = [] })
listen_rounds fuel (suc n) handler = listen_round fuel >>= take_in (listen_rounds fuel n) handler

unfoldable pub rx_task : ℕ → ℕ → RxHandlerCtx → Io Listened
rx_task fuel n handler =
    sx1278_switch_mode (bit_or mode_lora mode_rx_continuous) >> listen_rounds fuel n handler

-- The handler that `run_receiver` gives to the task.
unfoldable pub run_receiver : RxHandlerCtx
unfolding rx_handler_init
run_receiver = rx_handler_init none (some on_burst_complete_fn) receiver_addr sender_addr
