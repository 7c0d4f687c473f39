-- ===== src/Examples/Spi/Port.antt =====
-- The SPI port of the examples: `spi_port_init` with `lora_spi_write` and `lora_spi_read`, as
-- `app_main` of examples/esp32c3_6/pingpong/main/main.c and `app_task` of
-- examples/esp32c3_6/burst/main/main.c make it.
use lora_driver_with_network.Prelude.{
  ℕ, ◌≡◌, refl, none, some, List, [], ◌∷◌, leb, Bool-cases, inl, inr, length,
}
use lora_driver_with_network.Platform.{
  History, spi_written, spi_read, clock_read, delayed, logged, overran, uninitialized,
}
use lora_driver_with_network.Platform.SpiPort.{SpiPort, spi_port_init}
use lora_driver_with_network.Platform.Logger.{LoggerCtx}
use lora_driver_with_network.Radio.Trace.{Accepts}
use lora_driver_with_network.Examples.Spi.{
  Idf, IdfHistory, Transaction, esp_ok, bus_acquired, write_with_cmd, write_with_data,
  write_cleanup, esp_spi_write, sx_of, lora_spi_write, lora_spi_read,
}

-- The calls of ESP-IDF that a history of the driver stands for. A history does not have the bytes in
-- the buffer of a read; by `lora_spi_read_calls` they make no difference here.
abbrev pub idf_calls : Idf → History → IdfHistory
idf_calls idf [] = []
idf_calls idf (spi_written handle reg bytes ∷ h) =
    (lora_spi_write idf reg bytes (idf_calls idf h)).1
idf_calls idf (spi_read handle reg len ∷ h) = (lora_spi_read idf reg [] len (idf_calls idf h)).1
idf_calls idf (clock_read ∷ h) = idf_calls idf h
idf_calls idf (delayed ms ∷ h) = idf_calls idf h
idf_calls idf (logged logger str level ∷ h) = idf_calls idf h
idf_calls idf (overran n ∷ h) = idf_calls idf h

unfoldable pub lora_port : Idf → ℕ → SpiPort
unfolding spi_port_init
lora_port idf spi_handle =
    (spi_port_init (λ handle reg bytes h. (lora_spi_write idf reg bytes (idf_calls idf h)).0)
      (λ handle reg buffer len h. (lora_spi_read idf reg buffer len (idf_calls idf h)).0)
      spi_handle).1

-- `logger_ctx_t logger = {0}`
abbrev pub no_logger : LoggerCtx
no_logger = record { logger = none; log_level = uninitialized }

-- The bus can be taken, memory is there, and transactions succeed.
pub record IsWorking (idf : Idf) : Type 0 where
  pub acquires : (h : IdfHistory) → idf.acquire h ≡ esp_ok
  pub gives : (n : ℕ) (h : IdfHistory) → (p : ℕ) × (idf.malloc n h ≡ some p)
  pub transmits : (t : Transaction) (h : IdfHistory) → (idf.transmit t h).0 ≡ esp_ok

module _ (idf : Idf) (works : IsWorking idf) (addr : ℕ) (bytes : List ℕ) where
  write_with_cmd_ok :
      (data_dma cmd : ℕ) (h : IdfHistory)
      → (write_with_cmd idf addr bytes data_dma (some cmd) h).0 ≡ esp_ok
  unfolding write_with_cmd write_cleanup
  write_with_cmd_ok data_dma cmd h = simp (works.transmits)

  write_with_data_ok :
      (data_dma : ℕ) (h : IdfHistory)
      → (write_with_data idf addr bytes (some data_dma) h).0 ≡ esp_ok
  unfolding write_with_data
  write_with_data_ok data_dma h = elim (Bool-cases (leb (length bytes) 0)) [
    | inl e ↦ rw e refl
    | inr e ↦ rw (e, (works.gives 1 h).1) (write_with_cmd_ok data_dma (works.gives 1 h).0 _)
  ]

  esp_spi_write_ok : (h : IdfHistory) → (esp_spi_write idf addr bytes h).0 ≡ esp_ok
  unfolding esp_spi_write
  esp_spi_write_ok h =
      let start = bus_acquired esp_ok ∷ h in
      rw (works.acquires h, (works.gives (length bytes) start).1)
        (write_with_data_ok (works.gives (length bytes) start).0 _)

-- With a working ESP-IDF, the port of the examples is one that the driver's theorems ask for: it is
-- initialised, and accepts every write.
pub lora_port-Accepts :
    (idf : Idf) (spi_handle : ℕ) → IsWorking idf → Accepts (lora_port idf spi_handle)
unfolding lora_port lora_spi_write sx_of
lora_port-Accepts idf spi_handle works = record {
  is_initialized = refl;
  writes_ok = λ reg bytes h. rw (esp_spi_write_ok idf works reg bytes (idf_calls idf h)) refl;
}
