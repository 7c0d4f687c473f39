-- ===== src/Radio/RxUtils.antt =====
-- Reading the packet that was received last: `read_last_packet` of src/sx127x_rx_utils.c.
pub mod Read
pub mod Received
use Prim.Native.String.{String}
use lora_driver_with_network.Prelude.{ℕ, List, [], ◌∷◌, replicate}
use lora_driver_with_network.Packet.{Packet, parse_packet}
use lora_driver_with_network.Platform.{SxErr, sx_ok}
use lora_driver_with_network.Radio.{Radio, Io, pure, ◌>>=◌, ◌>>◌, write_reg}
use lora_driver_with_network.Radio.Config.{sx1278_clear_irq}
use lora_driver_with_network.Radio.Driver.{sx1278_read_last_payload}

abbrev pub rx_buffer_size : ℕ
rx_buffer_size = 255

unfoldable pub set_rx_buffer : List ℕ → Io (Unit {0})
set_rx_buffer bytes s = (tt, record s { rx_buffer = bytes })

-- The parse of the buffer, and the cleanup. The code of the read is overwritten by that of the parse,
-- which has no error: its -1 is never returned.
unfoldable pub parse_read : List ℕ → Io (SxErr × Packet)
parse_read buffer =
    set_rx_buffer (replicate rx_buffer_size 0)
    >> sx1278_clear_irq
    >> pure (sx_ok, (parse_packet buffer).0)

-- The returned code, and the packet `*p` afterwards, of which no field is kept.
unfoldable pub read_last_packet : Io (SxErr × Packet)
unfolding parse_read
read_last_packet s = (sx1278_read_last_payload s.rx_buffer 0 >>= λ r. parse_read r.1.0) s
