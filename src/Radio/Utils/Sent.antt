-- ===== src/Radio/Utils/Sent.antt =====
-- The frame that `sx_1278_send_packet` of src/sx127x_utils.c sends.
use Prim.Native.Nat.{bit_and}
use lora_driver_with_network.Prelude.{
  ℕ, suc, ◌≤◌, ◌≡◌, ◌≢◌, refl, ◌∙◌, ◌↔◌, subst, Bool, some, List, ◌++◌, arith, get_or, drop, length,
  take-append_left, u8,
}
use lora_driver_with_network.Packet.{Packet, payload_length_max, packet_to_bytestream}
use lora_driver_with_network.Packet.Frame.{
  IsWellFormed, frame, length-frame, packet_to_bytestream_fits,
}
use lora_driver_with_network.Platform.{sx_ok, log_info_low}
use lora_driver_with_network.Radio.{Radio, log_with_tag, ◌>>◌}
use lora_driver_with_network.Radio.Utils.Described.{describe_fits}
use lora_driver_with_network.Radio.Trace.{Accepts, Reads}
use lora_driver_with_network.Radio.Driver.Sent.{loaded, sent, sx1278_send_payload-sent}
use lora_driver_with_network.Radio.Driver.{sx1278_send_payload}
use lora_driver_with_network.Radio.Driver.Accepted.{ReturnsOk}
use lora_driver_with_network.Radio.Driver.OnAir.{Sends, sx1278_send_payload-Sends}
use lora_driver_with_network.Radio.Utils.{
  tag, send_frame, set_tx_buffer, sx_1278_send_packet, tx_buffer_size,
}

-- The state in which the payload is sent: the line is logged, and the frame is in the buffer.
abbrev pub framed : Packet → Radio → Radio
framed p s =
    let t = (log_with_tag tag "sending packet" log_info_low s).1 in
    record t { tx_buffer = frame p ++ drop (length (frame p)) s.tx_buffer }

-- With a port that accepts writes, and whose reads report that the transmission is done: sending a
-- well-formed packet of at most eight bytes returns SX_OK, and puts its frame, and nothing else, into
-- the radio's FIFO, with the frame's length in the register of the length.
pub sx_1278_send_packet-frame :
    (g : ℕ → List ℕ) (fuel : ℕ) (p : Packet) (rx : Bool) (s : Radio)
    → Accepts s.spi_port
    → Reads g s.spi_port
    → bit_and (get_or (g 0x12) 0 0) 8 ≢ 0
    → 255 ≤ length s.tx_buffer
    → IsWellFormed p
    → p.payload_length ≤ payload_length_max
    → sx_1278_send_packet (suc fuel) p rx s ≡ (
      some sx_ok,
      sent rx (loaded (get_or (g 0x0E) 0 0) (frame p) (length (frame p)) (framed p s)),
    )
unfolding sx_1278_send_packet send_frame set_tx_buffer log_with_tag
sx_1278_send_packet-frame g fuel p rx s a reads flag room w fits =
    let small : u8 (length (frame p)) ≡ length (frame p) = omega (arith, length-frame p w) in
    let sending = log_with_tag tag "sending packet" log_info_low >> λ s.
    send_frame (suc fuel) rx (packet_to_bytestream s.tx_buffer tx_buffer_size p) s in
    rw (describe_fits p sending fits) (
      rw (packet_to_bytestream_fits s.tx_buffer tx_buffer_size p w room (omega (arith, fits))) (
        rw small (
          sx1278_send_payload-sent g fuel (frame p ++ drop (length (frame p)) s.tx_buffer)
            (length (frame p)) rx (framed p s) a reads flag
          ∙ rw (take-append_left (frame p) (drop (length (frame p)) s.tx_buffer)) refl)))

-- Whatever the platform answers: sending a well-formed packet of at most eight bytes returns SX_OK, in
-- the state `v`, if and only if the port is initialised, the radio went to standby, the base address
-- of its FIFO was read, the platform accepted that address, the length and the bytes of the frame,
-- the clearing of the flags and the start of the transmission, one after the other, the wait for
-- the end of the transmission returned SX_OK, because a read of the flags during the wait showed it, and the flags
-- and the mode that follows were written; and `v` is the state after all this.
pub sx_1278_send_packet-Sends :
    (fuel : ℕ) (p : Packet) (rx : Bool) (s v : Radio)
    → 255 ≤ length s.tx_buffer
    → IsWellFormed p
    → p.payload_length ≤ payload_length_max
    → (sx_1278_send_packet fuel p rx s ≡ (some sx_ok, v))
      ↔ Sends fuel (frame p) (length (frame p)) rx (framed p s) v
unfolding sx_1278_send_packet send_frame set_tx_buffer log_with_tag
sx_1278_send_packet-Sends fuel p rx s v room w fits =
    let small : u8 (length (frame p)) ≡ length (frame p) = omega (arith, length-frame p w) in
    let buffer = frame p ++ drop (length (frame p)) s.tx_buffer in
    let sending = log_with_tag tag "sending packet" log_info_low >> λ s.
    send_frame fuel rx (packet_to_bytestream s.tx_buffer tx_buffer_size p) s in
    rw (describe_fits p sending fits) (
      rw (packet_to_bytestream_fits s.tx_buffer tx_buffer_size p w room (omega (arith, fits))) (
        rw small (
          subst
            (λ (bytes : List ℕ).
              ReturnsOk (sx1278_send_payload fuel buffer (length (frame p)) rx) (framed p s) v
              ↔ Sends fuel bytes (length (frame p)) rx (framed p s) v)
            (take-append_left (frame p) (drop (length (frame p)) s.tx_buffer))
            (sx1278_send_payload-Sends fuel buffer (length (frame p)) rx (framed p s) v))))
