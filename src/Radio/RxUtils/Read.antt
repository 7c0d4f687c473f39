-- ===== src/Radio/RxUtils/Read.antt =====
-- What `read_last_packet` of src/sx127x_rx_utils.c makes of a frame whose checksum failed.
use Prim.Native.Nat.{bit_and}
use lora_driver_with_network.Prelude.{
  ℕ, ◌≡◌, ◌≢◌, refl, ap, ◌∙◌, List, [], ◌∷◌, replicate, none, ==-false, get_or,
}
use lora_driver_with_network.Packet.{Packet, parse_packet}
use lora_driver_with_network.Platform.{SxErr, sx_ok, sx_invalid_crc}
use lora_driver_with_network.Radio.{Radio}
use lora_driver_with_network.Radio.Trace.{Accepts, wrote, asked, accepted, read_byte-asked}
use lora_driver_with_network.Radio.Config.{sx1278_read_irq}
use lora_driver_with_network.Radio.Driver.{sx1278_read_last_payload}
use lora_driver_with_network.Radio.RxUtils.{read_last_packet, rx_buffer_size}

abbrev pub blank : Packet
blank = record {
  dest_address = 0;
  src_address = 0;
  ack_id = 0;
  sequence_number = 0;
  payload_length = 0;
  payload = none;
}

read_irq-asked :
    (s : Radio)
    → Accepts s.spi_port
    → let r = s.spi_port.reader s.spi_port.spi_handle 0x12 (0 ∷ []) 1 s.history in
      sx1278_read_irq 0 s ≡ ((r.0, get_or r.1 0 0), asked 0x12 1 s)
unfolding sx1278_read_irq
read_irq-asked s a = read_byte-asked 0x12 0 s a.is_initialized

pub read_last_payload_crc :
    (buf : List ℕ) (len irq : ℕ) (s : Radio)
    → Accepts s.spi_port
    → s.spi_port.reader s.spi_port.spi_handle 0x12 (0 ∷ []) 1 (wrote 0x01 (0x81 ∷ []) s).history
      ≡ (sx_ok, irq ∷ [])
    → bit_and irq 0x40 ≢ 0
    → bit_and irq 0x20 ≢ 0
    → (sx1278_read_last_payload buf len s).0 ≡ (sx_invalid_crc, (buf, len))
unfolding sx1278_read_last_payload
read_last_payload_crc buf len irq s a flags done crc = simp (
  accepted,
  read_irq-asked,
  flags,
  ==-false (bit_and irq 0x40) 0 done,
  ==-false (bit_and irq 0x20) 0 crc,
)

parse_packet-zeros : (parse_packet (replicate rx_buffer_size 0)).0 ≡ blank
unfolding parse_packet
parse_packet-zeros = refl

-- Where the radio has received a frame and reports that its checksum failed, `read_last_packet` does
-- not report it: it returns SX_OK, with the packet that it parses from its empty buffer, all
-- of whose fields are 0.
pub read_last_packet-blank :
    (s : Radio) (irq : ℕ)
    → Accepts s.spi_port
    → s.rx_buffer ≡ replicate rx_buffer_size 0
    → s.spi_port.reader s.spi_port.spi_handle 0x12 (0 ∷ []) 1 (wrote 0x01 (0x81 ∷ []) s).history
      ≡ (sx_ok, irq ∷ [])
    → bit_and irq 0x40 ≢ 0
    → bit_and irq 0x20 ≢ 0
    → ((sx1278_read_last_payload s.rx_buffer 0 s).0.0 ≡ sx_invalid_crc)
      × ((read_last_packet s).0 ≡ (sx_ok, blank))
unfolding read_last_packet
read_last_packet-blank s irq a empty flags done crc =
    let e = read_last_payload_crc s.rx_buffer 0 irq s a flags done crc in
    (
      ap (λ (r : SxErr × (List ℕ × ℕ)). r.0) e,
      ap (λ (r : SxErr × (List ℕ × ℕ)). (sx_ok, (parse_packet r.1.0).0)) e
          ∙ ap (λ l. (sx_ok, (parse_packet l).0)) empty
          ∙ ap (λ p. (sx_ok, p)) parse_packet-zeros,
    )
