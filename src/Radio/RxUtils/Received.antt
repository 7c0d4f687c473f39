-- ===== src/Radio/RxUtils/Received.antt =====
-- What `read_last_packet` of src/sx127x_rx_utils.c makes of a frame that arrived whole.
use Prim.Native.Nat.{bit_and}
use lora_driver_with_network.Prelude.{ℕ, ◌≡◌, ◌≢◌, ap, ◌∙◌, List, ◌++◌, ==-false, get_or}
use lora_driver_with_network.Packet.{Packet, parse_packet}
use lora_driver_with_network.Packet.Frame.{IsWellFormed, frame}
use lora_driver_with_network.Packet.Wire.{received, parse_packet-frame}
use lora_driver_with_network.Platform.{SxErr, sx_ok}
use lora_driver_with_network.Radio.{Radio}
use lora_driver_with_network.Radio.Trace.{
  Accepts, Reads, accepted, read_irq-Reads, read_byte-Reads, read_reg-Reads,
}
use lora_driver_with_network.Radio.Driver.{sx1278_read_last_payload}
use lora_driver_with_network.Radio.RxUtils.{read_last_packet}

read_last_payload-Reads :
    (g : ℕ → List ℕ) (buf : List ℕ) (len : ℕ) (s : Radio)
    → Accepts s.spi_port
    → Reads g s.spi_port
    → bit_and (get_or (g 0x12) 0 0) 0x40 ≢ 0
    → bit_and (get_or (g 0x12) 0 0) 0x20 ≡ 0
    → (sx1278_read_last_payload buf len s).0 ≡ (sx_ok, (g 0x00, get_or (g 0x13) 0 0))
unfolding sx1278_read_last_payload
read_last_payload-Reads g buf len s a reads done whole = simp (
  accepted,
  read_irq-Reads g,
  read_byte-Reads g,
  read_reg-Reads g,
  ==-false (bit_and (get_or (g 0x12) 0 0) 0x40) 0 done,
  whole,
)

-- With a port that accepts writes, and whose reads report a frame that was received and whose checksum
-- is right, and give a buffer that begins with the frame of a well-formed packet: `read_last_packet`
-- returns SX_OK and that packet.
pub read_last_packet-frame :
    (g : ℕ → List ℕ) (p : Packet) (rest : List ℕ) (s : Radio)
    → Accepts s.spi_port
    → Reads g s.spi_port
    → bit_and (get_or (g 0x12) 0 0) 0x40 ≢ 0
    → bit_and (get_or (g 0x12) 0 0) 0x20 ≡ 0
    → IsWellFormed p
    → g 0x00 ≡ frame p ++ rest
    → (read_last_packet s).0 ≡ (sx_ok, received p)
unfolding read_last_packet
read_last_packet-frame g p rest s a reads done whole w fifo =
    ap (λ (r : SxErr × (List ℕ × ℕ)). (sx_ok, (parse_packet r.1.0).0))
      (read_last_payload-Reads g s.rx_buffer 0 s a reads done whole)
    ∙ ap (λ l. (sx_ok, (parse_packet l).0)) fifo
    ∙ ap (λ (r : Packet × ℕ). (sx_ok, r.0)) (parse_packet-frame p rest w)
