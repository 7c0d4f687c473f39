-- ===== src/Radio/Tests/Runs.antt =====
-- Runs of the sends, the waits and the receive loop on the simulated platform.
use lora_driver_with_network.Prelude.{
  ℕ, ◌*◌, ◌≤◌, ◌≡◌, refl, arith, true, some, none, List, [], ◌∷◌, length,
}
use lora_driver_with_network.Packet.{
  Packet, packet_begin, packet_to_bytestream, parse_packet, check_packet_features,
  payload_length_max,
}
use lora_driver_with_network.Packet.Description.{packet_description}
use lora_driver_with_network.NetworkData.Fragments.{marker}
use lora_driver_with_network.RxHandler.{RxHandlerCtx, rx_handler_init}
use lora_driver_with_network.Platform.{
  sx_ok, sx_invalid_crc, Event, History, spi_written, spi_read, clock_read, delayed, logged,
  overran,
}
use lora_driver_with_network.Radio.{
  Radio, write_reg, read_reg, read_byte, log_err, log_with_tag, get_time_us, delay_ms,
}
use lora_driver_with_network.Radio.Rested.{IsRested}
use lora_driver_with_network.Radio.Config.{sx1278_switch_mode, sx1278_clear_irq, sx1278_read_irq}
use lora_driver_with_network.Radio.Driver.{
  clean, poll_rounds, poll_for_irq_flag, sx1278_send_payload, sx1278_read_last_payload,
}
use lora_driver_with_network.Radio.Driver.Poll.{IsClock, Decided, poll_for_irq_flag-Decided}
use lora_driver_with_network.Radio.RxUtils.{set_rx_buffer, read_last_packet}
use lora_driver_with_network.Radio.RxUtils.Read.{blank, read_last_packet-blank}
use lora_driver_with_network.Radio.Utils.{
  set_tx_buffer, sx_1278_send_packet, sx1278_poll_and_read_packet, timeout_rounds,
  ensure_ack_rounds, send_packet_ensure_ack, expected_type, burst_rounds, send_burst, switch_to_fsk,
  sx_1278_get_channel_rssis,
}
use lora_driver_with_network.Radio.Utils.Ack.{AllAnswered, send_burst-AllAnswered}
use lora_driver_with_network.Packet.{u16_conv_be}
use lora_driver_with_network.Packet.Frame.{IsWellFormed, frame}
use lora_driver_with_network.Packet.Wire.{received}
use lora_driver_with_network.Radio.Trace.{Reads}
use lora_driver_with_network.Radio.RxUtils.Received.{read_last_packet-frame}
use lora_driver_with_network.Radio.Utils.Sent.{framed, sx_1278_send_packet-Sends}
use lora_driver_with_network.Radio.Driver.OnAir.{Sends}
use lora_driver_with_network.Radio.Driver.TakenOut.{TakesOut, sx1278_read_last_payload-TakesOut}
use lora_driver_with_network.Radio.Utils.Ending.{IsLive, HasEnd, send_burst-Ends}
use lora_driver_with_network.Radio.Utils.Scan.{switch_to_fsk_stuck}
use lora_driver_with_network.Prelude.{map, ◌↔◌}
use lora_driver_with_network.Radio.Trace.{wrote}
use lora_driver_with_network.Radio.Config.{channels_of}
use lora_driver_with_network.Radio.Utils.Levels.{
  levels, scanned, receiving, sx_1278_get_channel_rssis-levels,
}
use lora_driver_with_network.Radio.RxLoop.{start_rx_loop}
use lora_driver_with_network.Radio.RxLoop.Delivered.{Handed, start_rx_loop-Handed}
use lora_driver_with_network.Radio.Tests.{registers, station, fine, time, port-Accepts}

time_passes : (e : Event) (h : History) → time h ≤ time (e ∷ h)
time_passes (spi_written handle reg bytes) h = omega arith
time_passes (spi_read handle reg len) h = omega arith
time_passes clock_read h = omega arith
time_passes (delayed ms) h = omega arith
time_passes (logged logger str level) h = omega arith
time_passes (overran n) h = omega arith

pub time-IsClock : IsClock time
time-IsClock = record { no_way_back = time_passes; delay_lasts = λ ms h. omega arith }

-- The flags of a send and of a receive that are done, and of a receive whose checksum failed.
abbrev done : ℕ
done = 0x48

abbrev damaged : ℕ
damaged = 0x60

abbrev pub alive : Radio
alive = station fine done

pub alive-IsLive : IsLive alive
alive-IsLive = record { initialized = refl; clock = time-IsClock }

alive-IsRested : IsRested alive
alive-IsRested = record { rx_empty = refl; tx_length = refl }

abbrev packets : List Packet
packets = marker 2 1 5 0 ∷ []

abbrev handler : RxHandlerCtx
handler = rx_handler_init none (some 9) 1 2

poll_for_irq_flag-Decided_example :
    Decided (4 * 1000) 64 0 alive (poll_for_irq_flag 10 4 1 64 true alive)
poll_for_irq_flag-Decided_example =
    poll_for_irq_flag-Decided 10 4 1 64 true alive time-IsClock refl (omega arith) (omega arith)

read_last_packet-blank_example :
    ((sx1278_read_last_payload (station fine damaged).rx_buffer 0 (station fine damaged)).0.0
      ≡ sx_invalid_crc)
    × ((read_last_packet (station fine damaged)).0 ≡ (sx_ok, blank))
read_last_packet-blank_example =
    read_last_packet-blank (station fine damaged) damaged (port-Accepts damaged) refl refl
      (λ e. omega (arith, e)) (λ e. omega (arith, e))

-- The packet is sent and its acknowledgement read in the first round.
answered : (send_packet_ensure_ack 2 blank (marker 2 1 5 0) 3000 packet_begin alive).0 ≡ some sx_ok
unfolding send_packet_ensure_ack timeout_rounds ensure_ack_rounds sx_1278_send_packet set_tx_buffer
    packet_to_bytestream sx1278_send_payload sx1278_switch_mode sx1278_clear_irq sx1278_read_irq
    poll_for_irq_flag poll_rounds clean write_reg read_reg read_byte log_err log_with_tag
    get_time_us delay_ms sx1278_poll_and_read_packet read_last_packet set_rx_buffer
    sx1278_read_last_payload parse_packet check_packet_features packet_description
answered = refl

burst_answered : (send_burst 2 blank packets alive).0 ≡ some sx_ok
unfolding send_burst burst_rounds expected_type send_packet_ensure_ack timeout_rounds
    ensure_ack_rounds sx_1278_send_packet set_tx_buffer packet_to_bytestream sx1278_send_payload
    sx1278_switch_mode sx1278_clear_irq sx1278_read_irq poll_for_irq_flag poll_rounds clean
    write_reg read_reg read_byte log_err log_with_tag get_time_us delay_ms
    sx1278_poll_and_read_packet read_last_packet set_rx_buffer sx1278_read_last_payload parse_packet
    check_packet_features packet_description
burst_answered = refl

send_burst-AllAnswered_example : AllAnswered 2 (send_burst 2 blank packets alive).1 0 packets alive
send_burst-AllAnswered_example = send_burst-AllAnswered 2 blank packets alive burst_answered

send_burst-Ends_example : HasEnd payload_length_max (send_burst 3002 blank packets alive)
send_burst-Ends_example = send_burst-Ends 3002 blank packets alive (omega arith) alive-IsLive

switch_to_fsk_stuck_example : (switch_to_fsk alive).0 ≡ sx_ok
switch_to_fsk_stuck_example = switch_to_fsk_stuck alive 0x80 (port-Accepts done) (omega arith) refl

start_rx_loop-Handed_example : Handed 2 handler alive (start_rx_loop 2 3 handler alive)
start_rx_loop-Handed_example = start_rx_loop-Handed 2 3 handler alive

abbrev reads : ℕ → List ℕ
reads reg = registers done reg

alive-Reads : Reads reads alive.spi_port
alive-Reads = record { is_initialized = refl; reads = λ reg buffer len h. refl }

marker-IsWellFormed : IsWellFormed (marker 1 2 5 0)
marker-IsWellFormed = record {
  dest_fits = omega arith;
  src_fits = omega arith;
  ack_fits = omega arith;
  sequence_fits = omega arith;
  length_fits = omega arith;
  payload_fits = refl;
}

read_last_packet-frame_example : (read_last_packet alive).0 ≡ (sx_ok, received (marker 1 2 5 0))
unfolding u16_conv_be
read_last_packet-frame_example =
    read_last_packet-frame reads (marker 1 2 5 0) [] alive (port-Accepts done) alive-Reads
      (λ e. omega (arith, e)) refl marker-IsWellFormed refl

sx1278_read_last_payload-TakesOut_example :
    let r = sx1278_read_last_payload [] 0 alive in
    (sx1278_read_last_payload [] 0 alive ≡ ((sx_ok, r.0.1), r.1)) ↔ TakesOut [] alive r.0.1 r.1
sx1278_read_last_payload-TakesOut_example =
    let r = sx1278_read_last_payload [] 0 alive in
    sx1278_read_last_payload-TakesOut [] 0 alive r.0.1 r.1

sx_1278_send_packet-Sends_example :
    let v = (sx_1278_send_packet 1 (marker 1 2 5 0) true alive).1 in
    (sx_1278_send_packet 1 (marker 1 2 5 0) true alive ≡ (some sx_ok, v))
    ↔ Sends 1
        (frame (marker 1 2 5 0))
        (length (frame (marker 1 2 5 0)))
        true
        (framed (marker 1 2 5 0) alive)
        v
sx_1278_send_packet-Sends_example =
    sx_1278_send_packet-Sends 1 (marker 1 2 5 0) true alive
      (sx_1278_send_packet 1 (marker 1 2 5 0) true alive).1 (omega arith) marker-IsWellFormed
      (omega arith)

-- A radio that answers every read with 60.
abbrev humming : Radio
humming = record (station fine 0) {
  spi_port = record {
    writer = λ handle reg bytes h. sx_ok;
    reader = λ handle reg buffer len h. (sx_ok, 60 ∷ []);
    spi_handle = 1;
    initialized = true;
  };
}

sx_1278_get_channel_rssis-levels_example : sx_1278_get_channel_rssis humming ≡ (
  (sx_ok, some (map some (levels (channels_of 125000) 0 (receiving humming)), channels_of 125000)),
  wrote 0x01 (0x80 ∷ []) (scanned (channels_of 125000) 0 (receiving humming)),
)
sx_1278_get_channel_rssis-levels_example =
    sx_1278_get_channel_rssis-levels humming
      (record { is_initialized = refl; writes_ok = λ reg bytes h. refl }) (λ reg buffer len h. refl)
      (omega arith)
