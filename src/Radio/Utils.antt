-- ===== src/Radio/Utils.antt =====
-- Sending packets with retransmission, and the scan of the channels: src/sx127x_utils.c.
-- The fuel is that of the waits. What `malloc` gives for the received packet is the argument
-- `rx_p`: the code looks at it only after a packet was read into it.
pub mod Ack
pub mod Described
pub mod Keeping
pub mod Ending
pub mod Scan
pub mod Levels
pub mod Sent
pub mod Expected
pub mod Rounds
use Prim.Native.Nat.{bit_or, bit_and}
use Prim.Native.String.{String}
use lora_driver_with_network.Prelude.{
  ℕ, zero, suc, ◌+◌, ◌-◌, ◌*◌, ◌/◌, Bool, true, false, not, Option, none, some, List, [], ◌∷◌, ◌==◌,
  if◌then◌else◌, length, set, replicate, u8, leb,
}
use lora_driver_with_network.Packet.{
  Packet, PacketType, packet_ack, packet_begin, packet_end, check_packet_features,
  packet_to_bytestream,
}
use lora_driver_with_network.Packet.Description.{packet_description}
use lora_driver_with_network.Platform.{
  SxErr, sx_ok, sx_timeout, sx_invalid_state, is_ok, log_info_low,
}
use lora_driver_with_network.Radio.{
  Radio, Io, pure, ◌>>=◌, ◌>>◌, attempt, checked, finish, ◌>>=?◌, read_byte, log_err, log_with_tag,
  delay_ms, overrun,
}
use lora_driver_with_network.Radio.Config.{
  mode_lora, mode_stdby, mode_rx_single, mode_sleep, mode_fsk_receiver, sx1278_switch_mode,
  sx1278_read_irq, sx1278_clear_irq, sx_1278_get_op_mode, calculate_channel_num,
  sx_1278_switch_to_nth_channel,
}
use lora_driver_with_network.Radio.Driver.{clean, give_up, poll_for_irq_flag, sx1278_send_payload}
use lora_driver_with_network.Radio.RxUtils.{read_last_packet}

abbrev pub tag : String
tag = "sx_1278_utils"

abbrev pub phy_timeout_msec : ℕ
phy_timeout_msec = 3000

abbrev pub tx_buffer_size : ℕ
tx_buffer_size = 255

-- The cleanup of `sx1278_poll_and_read_packet`, whose own errors are not looked at.
abbrev standby_after : SxErr → Packet → Io (Option (SxErr × Packet))
standby_after ret rx_p =
    sx1278_clear_irq >> sx1278_switch_mode (bit_or mode_lora mode_stdby) >> finish (ret, rx_p)

abbrev read_failed : Packet → String → SxErr → Io (Option (SxErr × Packet))
read_failed rx_p text ret = log_err tag text >> standby_after ret rx_p

-- The code, and the packet `*rx_p` afterwards.
unfoldable pub sx1278_poll_and_read_packet : ℕ → Packet → ℕ → Io (Option (SxErr × Packet))
sx1278_poll_and_read_packet fuel rx_p timeout =
    attempt (sx1278_switch_mode (bit_or mode_lora mode_rx_single))
      (read_failed rx_p "couldnt switch to rx single")
      (poll_for_irq_flag fuel timeout 1 64 false >>=? λ ret.
        attempt (pure ret) (read_failed rx_p "couldn't poll for packet received flag, got. ") (
          attempt (sx1278_switch_mode (bit_or mode_lora mode_stdby))
            (read_failed rx_p "couldnt switch to standby")
            (read_last_packet >>= λ r.
              if is_ok r.0
              then standby_after sx_ok r.1
              else (log_err tag "error occured while reading the last packet"
                  >> standby_after r.0 r.1))))

unfoldable pub set_tx_buffer : List ℕ → Io (Unit {0})
set_tx_buffer bytes s = (tt, record s { tx_buffer = bytes })

-- The send, by the buffer and the count that `packet_to_bytestream` gave.
unfoldable pub send_frame : ℕ → Bool → Option ℕ × List ℕ → Io (Option SxErr)
send_frame fuel switch_to_rx_after_tx (none, buffer) =
    set_tx_buffer buffer >> give_up tag "couldnt convert packet to bytesteam\n" sx_invalid_state
send_frame fuel switch_to_rx_after_tx (some packet_size, buffer) =
    set_tx_buffer buffer >> sx1278_send_payload fuel buffer (u8 packet_size) switch_to_rx_after_tx

abbrev made : Option (List ℕ) → Bool
made none = false
made (some text) = true

-- `packet_description(p, p_desc)`, whose text is freed unread; what matters is whether its copy of the
-- payload overruns.
unfoldable pub describe : {A : Type 0} → Packet → Io (Option A) → Io (Option A)
describe p k = if made (packet_description p) then k else overrun p.payload_length

unfoldable pub sx_1278_send_packet : ℕ → Packet → Bool → Io (Option SxErr)
unfolding send_frame describe
sx_1278_send_packet fuel p switch_to_rx_after_tx = describe p (
    log_with_tag tag "sending packet" log_info_low >> λ s.
    send_frame fuel switch_to_rx_after_tx (packet_to_bytestream s.tx_buffer tx_buffer_size p) s)

-- The cleanup of `send_packet_ensure_ack`.
abbrev pub sleep_after : SxErr → Io (Option SxErr)
sleep_after ret = sx1278_clear_irq >> sx1278_switch_mode (bit_or mode_lora mode_sleep) >> finish ret

-- `ceilf((float)timeout / PHY_TIMEOUT_MSEC)`, which is exact for a timeout below 2 ^ 23.
unfoldable pub timeout_rounds : ℕ → ℕ
timeout_rounds timeout = (timeout + (phy_timeout_msec - 1)) / phy_timeout_msec

-- A round of the `for` loop after the wait for an answer; `next` is the rounds that follow.
unfoldable pub after_poll :
    Packet → PacketType → (Packet → Io (Option SxErr)) → SxErr × Packet → Io (Option SxErr)
unfolding describe
after_poll p ack_type next (ret, rx_p) =
    if not (is_ok ret)
    then (log_with_tag tag "error occured while reading packet. retrying..." log_info_low
        >> next rx_p)
    else if not (
        check_packet_features rx_p p.dest_address p.src_address p.ack_id p.sequence_number ack_type)
    then describe rx_p (log_with_tag tag "mismatched packet. retrying..." log_info_low >> next rx_p)
    else (log_with_tag tag "ack accepted" log_info_low >> sleep_after sx_ok)

-- A round after the send.
unfoldable pub after_send :
    ℕ → Packet → PacketType → Packet → (Packet → Io (Option SxErr)) → SxErr → Io (Option SxErr)
unfolding after_poll
after_send fuel p ack_type rx_p next ret =
    if not (is_ok ret)
    then (log_err tag "error occured while sending the packet" >> sleep_after ret)
    else (sx1278_poll_and_read_packet fuel rx_p phy_timeout_msec >>=? after_poll p ack_type next)

-- The `for` loop of `send_packet_ensure_ack`, with the rounds that are left.
unfoldable pub ensure_ack_rounds : ℕ → Packet → PacketType → ℕ → Packet → Io (Option SxErr)
unfolding after_send
ensure_ack_rounds fuel p ack_type zero rx_p = sleep_after sx_timeout
ensure_ack_rounds fuel p ack_type (suc n) rx_p =
    sx_1278_send_packet fuel p true
    >>=? after_send fuel p ack_type rx_p (ensure_ack_rounds fuel p ack_type n)

unfoldable pub send_packet_ensure_ack : ℕ → Packet → Packet → ℕ → PacketType → Io (Option SxErr)
send_packet_ensure_ack fuel rx_p p timeout ack_type =
    ensure_ack_rounds fuel p ack_type (timeout_rounds timeout) rx_p

-- The type of the acknowledgement that is waited for.
unfoldable pub expected_type : ℕ → ℕ → PacketType
expected_type i len =
    if i == 0 then packet_begin else if i == len - 1 then packet_end else packet_ack

-- The `for` loop of `send_burst` from index `i`, with the packets that are left.
unfoldable pub burst_rounds : ℕ → Packet → ℕ → ℕ → List Packet → Io (Option SxErr)
burst_rounds fuel rx_p len i [] = finish sx_ok
burst_rounds fuel rx_p len i (curr_packet ∷ rest) =
    send_packet_ensure_ack fuel rx_p curr_packet (4 * phy_timeout_msec) (expected_type i len)
    >>=? λ ret. if not (is_ok ret) then finish ret else burst_rounds fuel rx_p len (i + 1) rest

unfoldable pub send_burst : ℕ → Packet → List Packet → Io (Option SxErr)
send_burst fuel rx_p p_buf = burst_rounds fuel rx_p (length p_buf) 0 p_buf

-- A radio that is still in LoRa mode is logged, and the code of the read, which is fine, returned.
unfoldable pub switch_to_fsk : Io SxErr
switch_to_fsk =
    checked (sx1278_switch_mode (bit_or mode_lora mode_sleep))
      (log_err tag "couldnt set sleep mode on lora\n")
      (checked (sx1278_switch_mode mode_sleep) (log_err tag "couldnt set sleep mode on fsk\n") (
        sx_1278_get_op_mode 0 >>= λ r.
        if not (is_ok r.0)
        then (log_err tag "couldnt read operation mode register" >> pure r.0)
        else if not (r.1 / 128 == 0)
        then (log_err tag "operational mode stuck at lora " >> pure r.0)
        else pure r.0))

-- The scan from channel `i` over the channels that are left. An entry `none` was not written, and
-- `some b` stands for the level -b / 2.
unfoldable pub scan_rounds : ℕ → ℕ → ℕ → List (Option ℕ) → Io (List (Option ℕ))
scan_rounds channel_n zero i rssi = pure rssi
scan_rounds channel_n (suc n) i rssi = sx_1278_switch_to_nth_channel i >>= λ ret.
    if not (is_ok ret)
    then (log_err tag (
          if i == channel_n - 1
          then "couldnt switch to channel"
          else "couldnt switch to channel, trying next one")
        >> scan_rounds channel_n n (i + 1) rssi)
    else (delay_ms 20 >> read_byte 0x11 0 >>= λ r.
        if not (is_ok r.0)
        then (log_err tag (
              if i == channel_n - 1
              then "couldnt read rssi on channel."
              else "couldnt read rssi on channel. switching to next channel")
            >> scan_rounds channel_n n (i + 1) rssi)
        else scan_rounds channel_n n (i + 1) (set rssi i (some r.1)))

-- The copy to the caller, and the switch back.
unfoldable pub after_scan : ℕ → List (Option ℕ) → Io (SxErr × Option (List (Option ℕ) × ℕ))
after_scan channel_n rssi =
    attempt (sx1278_switch_mode (bit_or mode_sleep mode_lora))
      (λ ret.
        log_err tag "couldnt switch back to lora sleep mode" >> pure (ret, some (rssi, channel_n)))
      (pure (sx_ok, some (rssi, channel_n)))

-- The code, and what was written through `rssi_data` and `len`, if anything.
unfoldable pub sx_1278_get_channel_rssis : Io (SxErr × Option (List (Option ℕ) × ℕ))
unfolding after_scan
sx_1278_get_channel_rssis =
    attempt switch_to_fsk (λ ret. log_err tag "couldnt switch to fsk mode\n" >> pure (ret, none))
      (attempt (sx1278_switch_mode mode_fsk_receiver)
        (λ ret. log_err tag "couldnt set rx mode on fsk\n" >> pure (ret, none))
        (calculate_channel_num >>= λ channel_n.
          scan_rounds channel_n channel_n 0 (replicate channel_n none) >>= after_scan channel_n))

-- The `while (1)`, with fuel.
unfoldable pub poll_for_irq_flag_no_timeout : ℕ → ℕ → ℕ → Bool → ℕ → Io (Option SxErr)
poll_for_irq_flag_no_timeout zero poll_interval_ms irq_and_mask cleanup irq = pure none
poll_for_irq_flag_no_timeout (suc fuel) poll_interval_ms irq_and_mask cleanup irq =
    sx1278_read_irq irq >>= λ r.
    if not (is_ok r.0)
    then (log_err tag "couldnt read irq register" >> clean cleanup >> finish r.0)
    else if not (bit_and r.1 irq_and_mask == 0)
    then (clean cleanup >> finish sx_ok)
    else (delay_ms poll_interval_ms
        >> poll_for_irq_flag_no_timeout fuel poll_interval_ms irq_and_mask cleanup r.1)
