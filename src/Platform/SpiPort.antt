-- ===== src/Platform/SpiPort.antt =====
-- The SPI port: src/spi_port.c and include/spi_port.h.
use lora_driver_with_network.Prelude.{ℕ, Bool, true, not, List, ◌∷◌, if◌then◌else◌}
use lora_driver_with_network.Platform.{
  SxErr, sx_ok, sx_unit_unitialized, History, spi_written, spi_read,
}

-- The writer answers a handle, a register and the bytes; the reader answers a handle, a register,
-- the buffer as it was and the length, with the buffer as it is afterwards.
pub record SpiPort : Type 0 where
  pub writer : ℕ → ℕ → List ℕ → History → SxErr
  pub reader : ℕ → ℕ → List ℕ → ℕ → History → SxErr × List ℕ
  pub spi_handle : ℕ
  pub initialized : Bool

unfoldable pub spi_port_init :
    (ℕ → ℕ → List ℕ → History → SxErr)
    → (ℕ → ℕ → List ℕ → ℕ → History → SxErr × List ℕ)
    → ℕ
    → SxErr × SpiPort
spi_port_init writer reader spi_handle = (
  sx_ok,
  record { writer = writer; reader = reader; spi_handle = spi_handle; initialized = true },
)

unfoldable pub spi_burst_write_reg : SpiPort → ℕ → List ℕ → History → SxErr × History
spi_burst_write_reg port reg bytes h =
    if not port.initialized
    then (sx_unit_unitialized, h)
    else (port.writer port.spi_handle reg bytes h, spi_written port.spi_handle reg bytes ∷ h)

unfoldable pub spi_burst_read_reg : SpiPort → ℕ → List ℕ → ℕ → History → (SxErr × List ℕ) × History
spi_burst_read_reg port reg buffer len h =
    if not port.initialized
    then ((sx_unit_unitialized, buffer), h)
    else (port.reader port.spi_handle reg buffer len h, spi_read port.spi_handle reg len ∷ h)
