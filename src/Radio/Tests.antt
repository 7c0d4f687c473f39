-- ===== src/Radio/Tests.antt =====
-- Runs of the driver on a simulated platform.
pub mod Runs
use lora_driver_with_network.Prelude.{
  ℕ, ◌+◌, ◌*◌, ◌/◌, ◌^◌, ◌≤◌, ◌<◌, ◌≡◌, ◌≢◌, ◌↔◌, refl, arith, Bool, true, false, Option, none,
  some, List, [], ◌∷◌, ◌==◌, if◌then◌else◌, replicate, length,
}
use lora_driver_with_network.Packet.{
  Packet, packet_begin, packet_to_bytestream, parse_packet, check_packet_type,
  check_packet_features,
}
use lora_driver_with_network.NetworkData.Fragments.{marker}
use lora_driver_with_network.RxHandler.{rx_handler_init}
use lora_driver_with_network.Platform.{
  SxErr, sx_ok, sx_timeout, sx_invalid_crc, log_error, Event, History, spi_written, spi_read,
  clock_read, delayed, logged, overran,
}
use lora_driver_with_network.Platform.SpiPort.{SpiPort}
use lora_driver_with_network.Platform.Timer.{TimerCtx}
use lora_driver_with_network.Radio.{
  Radio, write_reg, read_reg, read_byte, log_err, log_with_tag, get_time_us, delay_ms,
}
use lora_driver_with_network.Radio.Trace.{Accepts, Answers, wrote, wrote_all, asked}
use lora_driver_with_network.Radio.Rested.{IsRested, Rests}
use lora_driver_with_network.Radio.Config.{
  Bandwidth, b125k, b250k, cr4d5, channels_of, frf, get_bw_value, fxosc, spreading_byte,
  bandwidth_byte, sx_1278_switch_to_nth_channel, sx_1278_set_spreading_factor, sx1278_set_bandwidth,
  set_contexts, configure, initialize_sx_1278, sx1278_switch_mode, sx1278_clear_irq,
  sx1278_read_irq,
}
use lora_driver_with_network.Radio.Config.Channel.{
  IsTuned, frf-IsTuned, centre, tuned, sx_1278_switch_to_nth_channel-centre,
}
use lora_driver_with_network.Radio.Config.Registers.{
  sx_1278_set_spreading_factor-Accepts, sx1278_set_bandwidth-Accepts,
}
use lora_driver_with_network.Radio.Config.Started.{Starts, initialize_sx_1278-Starts}
use lora_driver_with_network.Radio.Config.Failure.{
  sx_1278_set_spreading_factor_lost, sx1278_set_bandwidth_lost,
}

-- The time is that of the delays.
abbrev pub time : History → ℕ
time [] = 0
time (spi_written handle reg bytes ∷ h) = time h
time (spi_read handle reg len ∷ h) = time h
time (clock_read ∷ h) = time h
time (delayed ms ∷ h) = time h + ms * 1000
time (logged logger str level ∷ h) = time h
time (overran n ∷ h) = time h

-- A chip of the right version that has sent, and has received the acknowledgement of the packet
-- `marker 2 1 5 0`; `flags` are its interrupt flags.
abbrev pub registers : ℕ → ℕ → List ℕ
registers flags reg =
    if reg == 0x42
    then 0x12 ∷ []
    else if reg == 0x12
    then flags ∷ []
    else if reg == 0x13
    then 7 ∷ []
    else if reg == 0x00
    then 0 ∷ 1 ∷ 0 ∷ 2 ∷ 5 ∷ 0 ∷ 0 ∷ []
    else if reg == 0x01
    then 0x80 ∷ []
    else 0 ∷ []

abbrev pub port : (ℕ → SxErr) → ℕ → SpiPort
port answers flags = record {
  writer = λ handle reg bytes h. answers reg;
  reader = λ handle reg buffer len h. (sx_ok, registers flags reg);
  spi_handle = 1;
  initialized = true;
}

abbrev pub station : (ℕ → SxErr) → ℕ → Radio
station answers flags = record {
  spi_port = port answers flags;
  logger = record { logger = some 7; log_level = log_error };
  timer_ctx = record { timer = time; configured = true };
  lora_bandwidth_hz = 125000;
  spreading_factor = 12;
  rx_buffer = replicate 255 0;
  tx_buffer = replicate 255 0;
  history = [];
}

abbrev pub fine : ℕ → SxErr
fine reg = sx_ok

abbrev pub broken : ℕ → ℕ → SxErr
broken bad reg = if reg == bad then sx_timeout else sx_ok

pub port-Accepts : (flags : ℕ) → Accepts (port fine flags)
port-Accepts flags = record { is_initialized = refl; writes_ok = λ reg bytes h. refl }

port-Answers : (answers : ℕ → SxErr) (flags : ℕ) → Answers answers (port answers flags)
port-Answers answers flags = record { is_initialized = refl; answer = λ reg bytes h. refl }

sx_1278_switch_to_nth_channel-centre_example :
    (hi : ℕ) × (mid : ℕ) × (lo : ℕ) × (sx_1278_switch_to_nth_channel 3 (station fine 0) ≡ (
      sx_ok,
      wrote_all ((0x06, hi ∷ []) ∷ (0x07, mid ∷ []) ∷ (0x08, lo ∷ []) ∷ []) (station fine 0),
    ))
    × (hi * 2 ^ 16 + mid * 2 ^ 8 + lo ≡ centre (get_bw_value b125k) 3 * 2 ^ 19 / fxosc)
unfolding channels_of get_bw_value
sx_1278_switch_to_nth_channel-centre_example =
    sx_1278_switch_to_nth_channel-centre b125k 3 (station fine 0) (port-Accepts 0) refl
      (omega arith)

-- A platform that refuses the write of the spreading factor: the initialisation succeeds.
abbrev deaf : SpiPort
deaf = port (broken 0x1E) 0

abbrev deaf_start : SxErr × Radio
deaf_start =
    initialize_sx_1278 deaf (station fine 0).logger (station fine 0).timer_ctx (station fine 0)

initialize_sx_1278-Starts_example :
    (initialize_sx_1278 deaf (station fine 0).logger (station fine 0).timer_ctx (station fine 0)
      ≡ (sx_ok, deaf_start.1))
    ↔ Starts deaf (station fine 0).logger (station fine 0).timer_ctx (station fine 0) deaf_start.1
initialize_sx_1278-Starts_example =
    initialize_sx_1278-Starts deaf (station fine 0).logger (station fine 0).timer_ctx
      (station fine 0) deaf_start.1

deaf_starts : deaf_start.0 ≡ sx_ok
unfolding initialize_sx_1278 read_byte set_contexts configure sx1278_switch_mode write_reg
    sx_1278_switch_to_nth_channel channels_of sx_1278_set_spreading_factor
deaf_starts = refl

sx_1278_set_spreading_factor_lost_example :
    sx_1278_set_spreading_factor 7 (station (broken 0x1E) 0) ≡ (
      sx_ok,
      wrote_all
          ((0x01, 0x81 ∷ []) ∷ (0x1E, spreading_byte 7 ∷ []) ∷ (0x01, 0x80 ∷ []) ∷ [])
          (station (broken 0x1E) 0),
    )
sx_1278_set_spreading_factor_lost_example =
    sx_1278_set_spreading_factor_lost (broken 0x1E) 7 (station (broken 0x1E) 0)
      (port-Answers (broken 0x1E) 0) refl refl (omega arith) (omega arith)
