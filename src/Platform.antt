-- ===== src/Platform.antt =====
-- What the driver asks of the platform, and the answers: the callback types of include/spi_port.h,
-- include/logger.h and include/sx127x_timer.h, and the codes of include/sx127x_err.h.
-- The platform is not part of the repository. Each call to it is an event, and its answer is any
-- function of the events so far, the call itself not included. So a callback is a parameter that may
-- depend on all that the driver did before, and nothing is assumed of it but where a theorem says so.
pub mod SpiPort
pub mod Logger
pub mod Timer
use Prim.Native.String.{String}
use lora_driver_with_network.Prelude.{ℕ, Bool, true, false, Option, List}

pub data SxErr : Type 0 where
  sx_ok : SxErr
  sx_timeout : SxErr
  sx_invalid_state : SxErr
  sx_invalid_argument : SxErr
  sx_invalid_crc : SxErr
  sx_unit_unitialized : SxErr
  sx_invalid_response : SxErr
  sx_no_mem : SxErr

-- The test `ret == SX_OK`.
abbrev pub is_ok : SxErr → Bool
is_ok sx_ok = true
is_ok sx_timeout = false
is_ok sx_invalid_state = false
is_ok sx_invalid_argument = false
is_ok sx_invalid_crc = false
is_ok sx_unit_unitialized = false
is_ok sx_invalid_response = false
is_ok sx_no_mem = false

pub data LogLevel : Type 0 where
  uninitialized : LogLevel
  log_info_low : LogLevel
  log_info : LogLevel
  log_info_high : LogLevel
  log_error : LogLevel

-- A call of a callback: the SPI writer with its handle, register and bytes; the SPI reader with its
-- handle, register and length; the timer; the delayer with its milliseconds; and the logger, where
-- `none` is a call through NULL. `overran` is no call: the program writes so many bytes into a buffer
-- that is too small for them, and C leaves undefined what it does from there on.
pub data Event : Type 0 where
  spi_written : ℕ → ℕ → List ℕ → Event
  spi_read : ℕ → ℕ → ℕ → Event
  clock_read : Event
  delayed : ℕ → Event
  logged : Option ℕ → String → LogLevel → Event
  overran : ℕ → Event

-- The events so far, the latest first.
abbrev pub History : Type 0
History = List Event
