-- ===== src/Radio/Config.antt =====
-- The configuration of the radio: src/sx127x_config.c and include/sx127x_config.h.
pub mod Channel
pub mod Registers
pub mod Setup
pub mod Exactly
pub mod Steps
pub mod Started
pub mod Failure
use Prim.Native.Nat.{bit_or, bit_and}
use Prim.Native.String.{String}
use lora_driver_with_network.Prelude.{
  ℕ, ◌+◌, ◌-◌, ◌*◌, ◌/◌, ◌%◌, ◌^◌, Bool, true, false, not, ◌||◌, List, [], ◌∷◌, ltb, leb, ◌==◌,
  if◌then◌else◌, u8, u32,
}
use lora_driver_with_network.Platform.{
  SxErr, sx_ok, sx_invalid_argument, sx_invalid_response, is_ok,
}
use lora_driver_with_network.Platform.SpiPort.{SpiPort}
use lora_driver_with_network.Platform.Logger.{LoggerCtx}
use lora_driver_with_network.Platform.Timer.{TimerCtx}
use lora_driver_with_network.Radio.{
  Radio, Io, pure, ◌>>=◌, ◌>>◌, ◌>>?◌, checked, write_reg, read_reg, read_byte, log_err,
}

abbrev pub mode_lora : ℕ
mode_lora = 128

abbrev pub mode_lf : ℕ
mode_lf = 8

abbrev pub mode_sleep : ℕ
mode_sleep = 0

abbrev pub mode_stdby : ℕ
mode_stdby = 1

abbrev pub mode_tx : ℕ
mode_tx = 3

abbrev pub mode_rx_single : ℕ
mode_rx_single = 6

abbrev pub mode_rx_continuous : ℕ
mode_rx_continuous = 5

abbrev pub mode_fsk_receiver : ℕ
mode_fsk_receiver = 5

pub data Bandwidth : Type 0 where
  b62k5 b125k b250k b500k : Bandwidth

unfoldable pub bandwidth_code : Bandwidth → ℕ
bandwidth_code b62k5 = 6
bandwidth_code b125k = 7
bandwidth_code b250k = 8
bandwidth_code b500k = 9

pub data CodingRate : Type 0 where
  cr4d5 cr4d6 cr4d7 cr4d8 : CodingRate

unfoldable pub coding_rate_code : CodingRate → ℕ
coding_rate_code cr4d5 = 1
coding_rate_code cr4d6 = 2
coding_rate_code cr4d7 = 3
coding_rate_code cr4d8 = 4

abbrev pub fxosc : ℕ
fxosc = 32000000

abbrev pub lora_frequency_lf : ℕ
lora_frequency_lf = 863000000

abbrev pub lora_frequency_hf : ℕ
lora_frequency_hf = 865000000

abbrev tag : String
tag = "SX1278 CONFIG DRIVER"

-- The last `return 0` is for a number that is no bandwidth.
unfoldable pub get_bw_value : Bandwidth → ℕ
get_bw_value b62k5 = 62500
get_bw_value b125k = 125000
get_bw_value b250k = 250000
get_bw_value b500k = 500000

unfoldable pub sx1278_read_irq : ℕ → Io (SxErr × ℕ)
sx1278_read_irq old = read_byte 0x12 old

unfoldable pub sx1278_clear_irq : Io SxErr
sx1278_clear_irq = write_reg 0x12 (0xFF ∷ [])

-- The arithmetic is that of `uint32_t`.
unfoldable pub channels_of : ℕ → ℕ
channels_of bw = ((lora_frequency_hf - lora_frequency_lf) + 2 ^ 32 - u32 (2 * bw)) % 2 ^ 32 / bw

unfoldable pub calculate_channel_num : Io ℕ
unfolding channels_of
calculate_channel_num s = (channels_of s.lora_bandwidth_hz, s)

unfoldable pub sx1278_switch_mode : ℕ → Io SxErr
sx1278_switch_mode mode_register = write_reg 0x01 (mode_register ∷ [])

unfoldable pub sx_1278_get_op_mode : ℕ → Io (SxErr × ℕ)
sx_1278_get_op_mode old = read_byte 0x01 old

-- The centre of a channel in hertz, and the number that is written to the frequency registers.
unfoldable pub raw_freq : ℕ → ℕ → ℕ
raw_freq bw n = (lora_frequency_lf + n * bw + bw / 2) % 2 ^ 64

unfoldable pub frf : ℕ → ℕ → ℕ
unfolding raw_freq
frf bw n = u32 (raw_freq bw n * 2 ^ 19 % 2 ^ 64 / fxosc)

unfoldable pub write_frf : ℕ → Io SxErr
write_frf f =
    write_reg 0x06 (u8 (f / 2 ^ 16) ∷ [])
    >>? write_reg 0x07 (u8 (f / 2 ^ 8) ∷ [])
    >>? write_reg 0x08 (u8 f ∷ [])

unfoldable pub sx_1278_switch_to_nth_channel : ℕ → Io SxErr
unfolding write_frf
sx_1278_switch_to_nth_channel n s =
    if leb (channels_of s.lora_bandwidth_hz) n
    then (sx_invalid_argument, s)
    else write_frf (frf s.lora_bandwidth_hz n) s

unfoldable pub set_spreading_factor_global : ℕ → Io (Unit {0})
set_spreading_factor_global sf s = (tt, record s { spreading_factor = sf })

unfoldable pub set_bandwidth_global : ℕ → Io (Unit {0})
set_bandwidth_global bw s = (tt, record s { lora_bandwidth_hz = bw })

-- The register byte of a spreading factor: `0b00000100 | sf << 4`.
unfoldable pub spreading_byte : ℕ → ℕ
spreading_byte sf = u8 (bit_or 0x04 (u8 (sf * 2 ^ 4)))

unfoldable pub sx_1278_set_spreading_factor : ℕ → Io SxErr
sx_1278_set_spreading_factor sf =
    checked (sx1278_switch_mode (bit_or mode_lora mode_stdby))
      (log_err tag "couldnt switch to standby")
      (if ltb sf 6 || ltb 12 sf then pure sx_invalid_argument else do
        ret ← write_reg 0x1E (spreading_byte sf ∷ [])
        if is_ok ret then set_spreading_factor_global sf else pure tt
        checked (sx1278_switch_mode (bit_or mode_lora mode_sleep))
            (log_err tag "error occured while switching to sleep mode") (pure sx_ok))

-- The register byte of a bandwidth, a coding rate and the header mode.
unfoldable pub bandwidth_byte : Bandwidth → CodingRate → Bool → ℕ
unfolding bandwidth_code coding_rate_code
bandwidth_byte bw cr enable_explicit_headers =
    let byte = u8 (bit_or (bandwidth_code bw * 2 ^ 4) (coding_rate_code cr * 2)) in
    if not enable_explicit_headers then bit_or byte 0x01 else bit_and byte 0xFE

unfoldable pub sx1278_set_bandwidth : Bandwidth → CodingRate → Bool → Io SxErr
sx1278_set_bandwidth bw cr enable_explicit_headers =
    let to_sleep =
      checked (sx1278_switch_mode (bit_or mode_lora mode_sleep))
        (log_err tag "error occured while switching to sleep mode") (pure sx_ok) in
    checked (sx1278_switch_mode (bit_or mode_lora mode_stdby))
      (log_err tag "couldnt switch to standby")
      (write_reg 0x1D (bandwidth_byte bw cr enable_explicit_headers ∷ []) >>= λ ret.
        if is_ok ret
        then (do
          set_bandwidth_global (get_bw_value bw)
          checked (sx_1278_switch_to_nth_channel 0)
              (log_err tag "error occured while switching back to 0th channel") to_sleep)
        else to_sleep)

unfoldable pub set_contexts : SpiPort → LoggerCtx → TimerCtx → Io (Unit {0})
set_contexts spi logger timer s =
    (tt, record s { spi_port = spi; logger = logger; timer_ctx = timer })

-- The writes of `initialize_sx_1278` after the version was read, in order.
unfoldable pub configure : Io SxErr
configure =
    sx1278_switch_mode (bit_or mode_lora mode_sleep)
    >>? write_reg 0x0D (0x00 ∷ [])
    >>? write_reg 0x0F (0x00 ∷ [])
    >>? write_reg 0x0E (0x00 ∷ [])
    >>? sx1278_switch_mode (bit_or mode_lora mode_stdby)
    >>? sx_1278_switch_to_nth_channel 0
    >>? write_reg 0x09 (0b11111100 ∷ [])
    >>? write_reg 0x2B (0b00101011 ∷ [])
    >>? write_reg 0x4D (0x84 ∷ [])
    >>? write_reg 0x1D (0b01110010 ∷ [])
    >>? (λ s. sx_1278_set_spreading_factor s.spreading_factor s)
    >>? write_reg 0x1F (0xFF ∷ [])
    >>? write_reg 0x20 (0x00 ∷ [])
    >>? write_reg 0x21 (0x18 ∷ [])
    >>? write_reg 0x39 (0b11010011 ∷ [])

unfoldable pub initialize_sx_1278 : SpiPort → LoggerCtx → TimerCtx → Io SxErr
initialize_sx_1278 spi logger timer = set_contexts spi logger timer >> read_byte 0x42 0 >>= λ r.
    if not (is_ok r.0)
    then pure r.0
    else if not (r.1 == 0x12)
    then (log_err tag "sx1278 register version is not valid" >> pure sx_invalid_response)
    else configure
