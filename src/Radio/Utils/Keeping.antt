-- ===== src/Radio/Utils/Keeping.antt =====
-- The functions of src/sx127x_utils.c and `read_last_packet` keep the setup of the driver and the shape of its
-- buffers, whatever the platform answers.
use lora_driver_with_network.Prelude.{
  ℕ, zero, suc, ◌+◌, ◌≡◌, refl, Bool, Option, none, some, List, [], ◌∷◌, length, length-store_bytes,
  replicate, u8, if-cases, ltb, leb,
}
use lora_driver_with_network.Packet.{Packet, PacketType, packet_to_bytestream, overhead}
use lora_driver_with_network.Platform.{SxErr, sx_invalid_state, log_info_low}
use lora_driver_with_network.Radio.{Radio, Io, ◌>>=◌, log_with_tag}
use lora_driver_with_network.Radio.Kept.{
  Kept, Kept-refl, Kept-trans, Keeps, kept, Keeps-bind, Keeps-log_with_tag,
}
use lora_driver_with_network.Radio.Rested.{IsRested, Rests, Keeps-Rests}
use lora_driver_with_network.Radio.Config.{
  channels_of, frf, write_frf, sx_1278_get_op_mode, sx_1278_switch_to_nth_channel,
  calculate_channel_num,
}
use lora_driver_with_network.Radio.Driver.{sx1278_read_last_payload}
use lora_driver_with_network.Radio.Driver.Keeping.{
  driver_kept, Keeps-give_up, Keeps-send_payload, Keeps-read_last_payload,
}
use lora_driver_with_network.Radio.RxUtils.{
  read_last_packet, set_rx_buffer, parse_read, rx_buffer_size,
}
use lora_driver_with_network.Radio.Utils.{
  tag, describe, send_frame, set_tx_buffer, sx_1278_send_packet, sx1278_poll_and_read_packet,
  after_poll, after_send, ensure_ack_rounds, send_packet_ensure_ack, burst_rounds, send_burst,
  switch_to_fsk, scan_rounds, sx_1278_get_channel_rssis, poll_for_irq_flag_no_timeout,
  tx_buffer_size,
}

length-packet_to_bytestream :
    (buffer : List ℕ) (n : ℕ) (p : Packet)
    → length (packet_to_bytestream buffer n p).1 ≡ length buffer
unfolding packet_to_bytestream
length-packet_to_bytestream buffer n p =
    if-cases (λ (r : Option ℕ × List ℕ). length r.1 ≡ length buffer)
      (ltb n (overhead + p.payload_length)) (λ _. refl) λ _. simp length-store_bytes

Keeps-clear_rx_buffer : Keeps (set_rx_buffer (replicate rx_buffer_size 0))
unfolding set_rx_buffer Keeps
Keeps-clear_rx_buffer s = record {
  spi_port = refl;
  logger = refl;
  timer_ctx = refl;
  lora_bandwidth_hz = refl;
  spreading_factor = refl;
  rx_empty = λ _. refl;
  tx_length = refl;
  events = ([], refl);
}

Kept-set_tx_buffer :
    (s : Radio) (bytes : List ℕ)
    → length bytes ≡ length s.tx_buffer
    → Kept s (record s { tx_buffer = bytes })
Kept-set_tx_buffer s bytes h = record {
  spi_port = refl;
  logger = refl;
  timer_ctx = refl;
  lora_bandwidth_hz = refl;
  spreading_factor = refl;
  rx_empty = λ e. e;
  tx_length = h;
  events = ([], refl);
}

pub Keeps-poll_rounds_for_ever :
    (fuel interval mask : ℕ) (cleanup : Bool) (irq : ℕ)
    → Keeps (poll_for_irq_flag_no_timeout fuel interval mask cleanup irq)
unfolding poll_for_irq_flag_no_timeout
Keeps-poll_rounds_for_ever zero interval mask cleanup irq = search driver_kept
Keeps-poll_rounds_for_ever (suc fuel) interval mask cleanup irq =
    search (driver_kept, Keeps-poll_rounds_for_ever fuel interval mask cleanup) depth 20

Keeps-parse_read : (buffer : List ℕ) → Keeps (parse_read buffer)
unfolding parse_read
Keeps-parse_read buffer = search (driver_kept, Keeps-clear_rx_buffer) depth 20

pub Keeps-read_last_packet : Keeps read_last_packet
unfolding read_last_packet Keeps
Keeps-read_last_packet s =
    let body : Keeps (sx1278_read_last_payload s.rx_buffer 0 >>= λ r. parse_read r.1.0) =
      search (Keeps-parse_read, Keeps-read_last_payload, Keeps-bind) in
    body s

pub Keeps-poll_and_read_packet :
    (fuel : ℕ) (rx_p : Packet) (timeout : ℕ) → Keeps (sx1278_poll_and_read_packet fuel rx_p timeout)
unfolding sx1278_poll_and_read_packet
Keeps-poll_and_read_packet fuel rx_p timeout =
    search (Keeps-read_last_packet, driver_kept) depth 40 fits 20000

Kept-send_frame :
    (fuel : ℕ) (rx : Bool) (r : Option ℕ × List ℕ) (s : Radio)
    → length r.1 ≡ length s.tx_buffer
    → Kept s (send_frame fuel rx r s).1
unfolding send_frame set_tx_buffer Keeps
Kept-send_frame fuel rx (none, buffer) s h =
    Kept-trans s (record s { tx_buffer = buffer }) _ (Kept-set_tx_buffer s buffer h)
      (Keeps-give_up tag "couldnt convert packet to bytesteam\n" sx_invalid_state
        (record s { tx_buffer = buffer }))
Kept-send_frame fuel rx (some n, buffer) s h =
    Kept-trans s (record s { tx_buffer = buffer }) _ (Kept-set_tx_buffer s buffer h)
      (Keeps-send_payload fuel buffer (u8 n) rx (record s { tx_buffer = buffer }))

Keeps-describe : {A : Type 0} (p : Packet) (k : Io (Option A)) → Keeps k → Keeps (describe p k)
unfolding describe
Keeps-describe p k h = search (h, kept)

pub Keeps-send_packet : (fuel : ℕ) (p : Packet) (rx : Bool) → Keeps (sx_1278_send_packet fuel p rx)
unfolding sx_1278_send_packet Keeps
Keeps-send_packet fuel p rx = Keeps-describe p _ λ s.
    let t = (log_with_tag tag "sending packet" log_info_low s).1 in
    Kept-trans s t _ (Keeps-log_with_tag tag "sending packet" log_info_low s) (
      Kept-send_frame fuel rx (packet_to_bytestream t.tx_buffer tx_buffer_size p) t
        (length-packet_to_bytestream t.tx_buffer tx_buffer_size p))

pub Keeps-after_poll :
    (p : Packet) (t : PacketType) (next : Packet → Io (Option SxErr)) (r : SxErr × Packet)
    → ((rx_p : Packet) → Keeps (next rx_p))
    → Keeps (after_poll p t next r)
unfolding after_poll
Keeps-after_poll p t next r h = search (h, Keeps-describe, driver_kept) depth 20

pub Keeps-after_send :
    (fuel : ℕ) (p : Packet) (t : PacketType) (rx_p : Packet) (next : Packet → Io (Option SxErr))
    (ret : SxErr)
    → ((rx_p : Packet) → Keeps (next rx_p))
    → Keeps (after_send fuel p t rx_p next ret)
unfolding after_send
Keeps-after_send fuel p t rx_p next ret h =
    search (Keeps-after_poll p t next, h, Keeps-poll_and_read_packet, driver_kept) depth 20

pub Keeps-ensure_ack_rounds :
    (fuel : ℕ) (p : Packet) (t : PacketType) (n : ℕ) (rx_p : Packet)
    → Keeps (ensure_ack_rounds fuel p t n rx_p)
unfolding ensure_ack_rounds
Keeps-ensure_ack_rounds fuel p t zero rx_p = search driver_kept
Keeps-ensure_ack_rounds fuel p t (suc n) rx_p =
    search
      (
        Keeps-send_packet,
        Keeps-after_send fuel p t rx_p (ensure_ack_rounds fuel p t n),
        Keeps-ensure_ack_rounds fuel p t n,
        driver_kept,
      )
      depth 20

Keeps-burst_rounds :
    (fuel : ℕ) (rx_p : Packet) (len i : ℕ) (ps : List Packet)
    → Keeps (burst_rounds fuel rx_p len i ps)
unfolding burst_rounds send_packet_ensure_ack
Keeps-burst_rounds fuel rx_p len i [] = search driver_kept
Keeps-burst_rounds fuel rx_p len i (p ∷ ps) =
    search (Keeps-ensure_ack_rounds, Keeps-burst_rounds fuel rx_p len (i + 1) ps, driver_kept) depth
      20

Keeps-switch_to_fsk : Keeps switch_to_fsk
unfolding switch_to_fsk sx_1278_get_op_mode
Keeps-switch_to_fsk = search driver_kept depth 40 fits 20000

Keeps-write_frf : (f : ℕ) → Keeps (write_frf f)
unfolding write_frf
Keeps-write_frf f = search kept depth 20

Keeps-switch_to_nth_channel : (n : ℕ) → Keeps (sx_1278_switch_to_nth_channel n)
unfolding sx_1278_switch_to_nth_channel Keeps
Keeps-switch_to_nth_channel n s =
    if-cases (λ (r : SxErr × Radio). Kept s r.1) (leb (channels_of s.lora_bandwidth_hz) n)
      (λ _. Kept-refl s) λ _. Keeps-write_frf (frf s.lora_bandwidth_hz n) s

Keeps-scan_rounds :
    (channel_n n i : ℕ) (rssi : List (Option ℕ)) → Keeps (scan_rounds channel_n n i rssi)
unfolding scan_rounds
Keeps-scan_rounds channel_n zero i rssi = search kept
Keeps-scan_rounds channel_n (suc n) i rssi =
    search (Keeps-switch_to_nth_channel, Keeps-scan_rounds channel_n n (i + 1), kept) depth 40 fits
      20000

Keeps-calculate_channel_num : Keeps calculate_channel_num
unfolding calculate_channel_num Keeps
Keeps-calculate_channel_num s = Kept-refl s

Keeps-get_channel_rssis : Keeps sx_1278_get_channel_rssis
unfolding sx_1278_get_channel_rssis
Keeps-get_channel_rssis =
    search (Keeps-calculate_channel_num, Keeps-switch_to_fsk, Keeps-scan_rounds, driver_kept) depth
      40 fits 20000

-- Whatever the platform answers, a scan of the channels that starts with an empty receive buffer and a
-- transmit buffer of 255 bytes leaves them so, and changes neither the contexts nor the bandwidth
-- nor the spreading factor.
pub sx_1278_get_channel_rssis-Rests :
    (s : Radio) → IsRested s → Rests s (sx_1278_get_channel_rssis s).1
sx_1278_get_channel_rssis-Rests s r =
    Keeps-Rests sx_1278_get_channel_rssis s Keeps-get_channel_rssis r

Keeps-send_burst :
    (fuel : ℕ) (rx_p : Packet) (p_buf : List Packet) → Keeps (send_burst fuel rx_p p_buf)
unfolding send_burst
Keeps-send_burst fuel rx_p p_buf = Keeps-burst_rounds fuel rx_p (length p_buf) 0 p_buf

-- Whatever the platform answers, sending a burst with an empty receive buffer and a transmit buffer of
-- 255 bytes leaves them so, and changes neither the contexts nor the bandwidth nor the spreading
-- factor.
pub send_burst-Rests :
    (fuel : ℕ) (rx_p : Packet) (p_buf : List Packet) (s : Radio)
    → IsRested s
    → Rests s (send_burst fuel rx_p p_buf s).1
send_burst-Rests fuel rx_p p_buf s r =
    Keeps-Rests (send_burst fuel rx_p p_buf) s (Keeps-send_burst fuel rx_p p_buf) r
