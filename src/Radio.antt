-- ===== src/Radio.antt =====
-- The state that the driver keeps between calls, and the functions that every part of it uses.
-- The globals are those of src/sx127x_config.c (the three contexts, `lora_bandwidth_hz` and
-- `spreading_factor`) and the static buffers of src/sx127x_utils.c and src/sx127x_rx_utils.c.
pub mod Trace
pub mod Kept
pub mod Cases
pub mod Happened
pub mod Rested
pub mod Config
pub mod Driver
pub mod RxUtils
pub mod Utils
pub mod RxLoop
pub mod Tests
use Prim.Native.String.{String}
use lora_driver_with_network.Prelude.{
  ℕ, Bool, true, false, Option, none, some, List, [], ◌∷◌, if◌then◌else◌, get_or,
}
use lora_driver_with_network.Platform.{SxErr, sx_ok, is_ok, LogLevel, History, overran}
use lora_driver_with_network.Platform.SpiPort.{SpiPort, spi_burst_write_reg, spi_burst_read_reg}
use lora_driver_with_network.Platform.Logger.{LoggerCtx, network_log_with_tag, network_log_err}
use lora_driver_with_network.Platform.Timer.{
  TimerCtx, sx127x_timer_get_time_us, sx127x_task_delay_ms,
}

pub record Radio : Type 0 where
  pub spi_port : SpiPort
  pub logger : LoggerCtx
  pub timer_ctx : TimerCtx
  pub lora_bandwidth_hz : ℕ
  pub spreading_factor : ℕ
  pub rx_buffer : List ℕ
  pub tx_buffer : List ℕ
  pub history : History

-- A function of the driver takes the state and returns its result with the state after it.
abbrev pub Io : Type 0 → Type 0
Io A = Radio → A × Radio

abbrev pub pure : {A : Type 0} → A → Io A
pure a s = (a, s)

infixl 5 ◌>>=◌ ◌>>◌
abbrev pub ◌>>=◌ : {A B : Type 0} → Io A → (A → Io B) → Io B
◌>>=◌ m f s = let (a, s') = m s in f a s'

abbrev pub ◌>>◌ : {A B : Type 0} → Io A → Io B → Io B
m >> k = m >>= λ _. k

-- `ret = m; if (ret != SX_OK) fail(ret); else k`, where `fail` leaves the function.
abbrev pub attempt : {A : Type 0} → Io SxErr → (SxErr → Io A) → Io A → Io A
attempt m fail k = m >>= λ ret. if is_ok ret then k else fail ret

-- `ret = m; if (ret != SX_OK) { fail; return ret; } k`
abbrev pub checked : Io SxErr → Io (Unit {0}) → Io SxErr → Io SxErr
checked m fail k = attempt m (λ ret. fail >> pure ret) k

-- `ret = m; if (ret != SX_OK) return ret; k`
infixr 6 ◌>>?◌
abbrev pub ◌>>?◌ : Io SxErr → Io SxErr → Io SxErr
m >>? k = m >>= λ ret. if is_ok ret then k else pure ret

-- A function with a loop that may run for ever takes fuel, and `none` says that it ran out; or, with
-- `overran` as the last event, that the run is undefined from there on.
abbrev pub finish : {A : Type 0} → A → Io (Option A)
finish a = pure (some a)

unfoldable pub overrun : {A : Type 0} → ℕ → Io (Option A)
overrun n s = (none, record s { history = overran n ∷ s.history })

infixl 5 ◌>>=?◌
abbrev pub ◌>>=?◌ : {A B : Type 0} → Io (Option A) → (A → Io (Option B)) → Io (Option B)
m >>=? f = m >>= λ o. elim o [ none ↦ pure none | some a ↦ f a ]

unfoldable pub write_reg : ℕ → List ℕ → Io SxErr
unfolding spi_burst_write_reg
write_reg reg bytes s =
    let (e, h) = spi_burst_write_reg s.spi_port reg bytes s.history in (e, record s { history = h })

unfoldable pub read_reg : ℕ → List ℕ → ℕ → Io (SxErr × List ℕ)
unfolding spi_burst_read_reg
read_reg reg buffer len s =
    let (r, h) = spi_burst_read_reg s.spi_port reg buffer len s.history in
    (r, record s { history = h })

-- A read of one byte into a variable that held `old`.
unfoldable pub read_byte : ℕ → ℕ → Io (SxErr × ℕ)
unfolding read_reg
read_byte reg old = do r ← read_reg reg (old ∷ []) 1; pure (r.0, get_or r.1 0 old)

unfoldable pub log_err : String → String → Io (Unit {0})
unfolding network_log_err
log_err tag str s = (tt, record s { history = network_log_err s.logger tag str s.history })

unfoldable pub log_with_tag : String → String → LogLevel → Io (Unit {0})
unfolding network_log_with_tag
log_with_tag tag str level s =
    (tt, record s { history = network_log_with_tag s.logger tag str level s.history })

unfoldable pub get_time_us : Io ℕ
unfolding sx127x_timer_get_time_us
get_time_us s =
    let (t, h) = sx127x_timer_get_time_us s.timer_ctx s.history in (t, record s { history = h })

unfoldable pub delay_ms : ℕ → Io (Unit {0})
unfolding sx127x_task_delay_ms
delay_ms ms s = (tt, record s { history = sx127x_task_delay_ms s.timer_ctx ms s.history })
