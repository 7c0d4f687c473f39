-- ===== src/Radio/Config/Setup.antt =====
-- The run of `initialize_sx_1278`.
use lora_driver_with_network.Prelude.{◌+◌, ◌*◌, ◌≤◌, ◌<◌, ◌≡◌, [], ◌∷◌}
use lora_driver_with_network.Platform.{sx_ok}
use lora_driver_with_network.Platform.SpiPort.{SpiPort}
use lora_driver_with_network.Platform.Logger.{LoggerCtx}
use lora_driver_with_network.Platform.Timer.{TimerCtx}
use lora_driver_with_network.Radio.{Radio}
use lora_driver_with_network.Radio.Trace.{Accepts, wrote_all, accepted, asked, read_byte-asked}
use lora_driver_with_network.Radio.Config.{
  channels_of, frf, initialize_sx_1278, set_contexts, configure,
}
use lora_driver_with_network.Radio.Config.Channel.{tuned, sx_1278_switch_to_nth_channel-tuned}
use lora_driver_with_network.Radio.Config.Registers.{sx_1278_set_spreading_factor-Accepts}

-- The state after the three contexts are taken over.
abbrev pub connected : SpiPort → LoggerCtx → TimerCtx → Radio → Radio
connected spi logger timer s = record s { spi_port = spi; logger = logger; timer_ctx = timer }

-- The chip's reset to LoRa, the FIFO's addresses, the channel, and the modem's registers.
abbrev pub configured : Radio → Radio
configured s =
    wrote_all
      ((0x09, 0xFC ∷ [])
        ∷ (0x2B, 0x2B ∷ [])
        ∷ (0x4D, 0x84 ∷ [])
        ∷ (0x1D, 0x72 ∷ [])
        ∷ (0x01, 0x81 ∷ [])
        ∷ (0x1E, (s.spreading_factor * 16 + 4) ∷ [])
        ∷ (0x01, 0x80 ∷ [])
        ∷ (0x1F, 0xFF ∷ [])
        ∷ (0x20, 0x00 ∷ [])
        ∷ (0x21, 0x18 ∷ [])
        ∷ (0x39, 0xD3 ∷ [])
        ∷ [])
      (tuned (frf s.lora_bandwidth_hz 0) (
        wrote_all
          ((0x01, 0x80 ∷ [])
            ∷ (0x0D, 0x00 ∷ [])
            ∷ (0x0F, 0x00 ∷ [])
            ∷ (0x0E, 0x00 ∷ [])
            ∷ (0x01, 0x81 ∷ [])
            ∷ [])
          s))

configure-Accepts :
    (s : Radio)
    → Accepts s.spi_port
    → 0 < channels_of s.lora_bandwidth_hz
    → 6 ≤ s.spreading_factor
    → s.spreading_factor ≤ 12
    → configure s ≡ (sx_ok, configured s)
unfolding configure
configure-Accepts s a room low high =
    simp (accepted, sx_1278_switch_to_nth_channel-tuned, sx_1278_set_spreading_factor-Accepts)

-- With a port that accepts writes and answers the version of the chip, a bandwidth that leaves a
-- channel, and a spreading factor from 6 to 12, the initialisation returns SX_OK; the contexts are
-- the ones that were given; and what it asked of the platform is the read of the version and then the
-- writes of `configured`, in this order.
pub initialize_sx_1278-configured :
    (spi : SpiPort) (logger : LoggerCtx) (timer : TimerCtx) (s : Radio)
    → Accepts spi
    → spi.reader spi.spi_handle 0x42 (0 ∷ []) 1 s.history ≡ (sx_ok, 0x12 ∷ [])
    → 0 < channels_of s.lora_bandwidth_hz
    → 6 ≤ s.spreading_factor
    → s.spreading_factor ≤ 12
    → initialize_sx_1278 spi logger timer s
      ≡ (sx_ok, configured (asked 0x42 1 (connected spi logger timer s)))
unfolding initialize_sx_1278 set_contexts
initialize_sx_1278-configured spi logger timer s a version room low high =
    simp (read_byte-asked, a.is_initialized, version, configure-Accepts)
