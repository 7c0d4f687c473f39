-- ===== src/Examples/Spi.antt =====
-- The SPI callbacks that the examples give to the driver: `esp_spi_write`, `esp_spi_read` and their
-- wrappers, which burst/main/main.c and pingpong/main/main.c of examples/esp32c3_6 both have.
-- ESP-IDF is not part of the repository: each call of it is recorded with its answer, and the answer
-- is any function of the calls before. A buffer on the heap is the number that `heap_caps_malloc`
-- gave, `none` for NULL. What is written to the log is left out.
pub mod Bus
pub mod Balance
pub mod ReadBalance
pub mod Wire
pub mod Written
pub mod ReadBack
pub mod Calls
pub mod Port
use Prim.Native.Nat.{bit_or, bit_and}
use lora_driver_with_network.Prelude.{
  ℕ, zero, suc, ◌*◌, Bool, true, false, not, Option, none, some, List, [], ◌∷◌, leb, ◌==◌,
  if◌then◌else◌, length, take, drop, ◌++◌, replicate,
}
use lora_driver_with_network.Platform.{SxErr, sx_ok, sx_invalid_state}

-- The codes of type `esp_err_t` that the examples name; any number may be one.
abbrev pub esp_ok : ℕ
esp_ok = 0

abbrev pub esp_err_no_mem : ℕ
esp_err_no_mem = 0x101

-- The fields of `spi_transaction_t` that the examples set: the length in bits, the bytes of
-- `tx_buffer`, whether there is an `rx_buffer`, and the flag SPI_TRANS_CS_KEEP_ACTIVE.
pub record Transaction : Type 0 where
  pub bits : ℕ
  pub tx_buffer : List ℕ
  pub has_rx_buffer : Bool
  pub keep_active : Bool

pub data IdfCall : Type 0 where
  bus_acquired : ℕ → IdfCall
  bus_released : IdfCall
  transmitted : Transaction → ℕ × List ℕ → IdfCall
  allocated : ℕ → Option ℕ → IdfCall
  freed : ℕ → IdfCall

-- The calls so far, the latest first.
abbrev pub IdfHistory : Type 0
IdfHistory = List IdfCall

-- The answers. A transaction is answered with a code and the bytes that came into `rx_buffer`.
pub record Idf : Type 0 where
  pub acquire : IdfHistory → ℕ
  pub transmit : Transaction → IdfHistory → ℕ × List ℕ
  pub malloc : ℕ → IdfHistory → Option ℕ

abbrev pub Run : Type 0 → Type 0
Run A = IdfHistory → A × IdfHistory

abbrev pub return : {A : Type 0} → A → Run A
return a h = (a, h)

infixl 5 ◌>>=◌ ◌>>◌
abbrev pub ◌>>=◌ : {A B : Type 0} → Run A → (A → Run B) → Run B
◌>>=◌ m f h = let (a, h') = m h in f a h'

abbrev pub ◌>>◌ : {A B : Type 0} → Run A → Run B → Run B
m >> k = m >>= λ _. k

abbrev pub spi_device_release_bus : Run (Unit {0})
spi_device_release_bus h = (tt, bus_released ∷ h)

-- `if (p) free(p);`
abbrev pub free_if : Option ℕ → Run (Unit {0})
free_if none h = (tt, h)
free_if (some p) h = (tt, freed p ∷ h)

module _ (idf : Idf) where
  abbrev pub spi_device_acquire_bus : Run ℕ
  spi_device_acquire_bus h = (idf.acquire h, bus_acquired (idf.acquire h) ∷ h)

  abbrev pub spi_device_transmit : Transaction → Run (ℕ × List ℕ)
  spi_device_transmit t h = (idf.transmit t h, transmitted t (idf.transmit t h) ∷ h)

  abbrev pub heap_caps_malloc : ℕ → Run (Option ℕ)
  heap_caps_malloc size h = (idf.malloc size h, allocated size (idf.malloc size h) ∷ h)

-- The transaction of the command byte, and that of the data.
unfoldable pub command_transaction : ℕ → Transaction
command_transaction cmd = record {
  bits = 8;
  tx_buffer = cmd ∷ [];
  has_rx_buffer = false;
  keep_active = true;
}

unfoldable pub data_transaction : List ℕ → Bool → Transaction
data_transaction bytes receives = record {
  bits = length bytes * 8;
  tx_buffer = bytes;
  has_rx_buffer = receives;
  keep_active = false;
}

-- What follows the label `cleanup` of the write.
unfoldable pub write_cleanup : Option ℕ → Option ℕ → ℕ → Run ℕ
write_cleanup cmd data_dma ret =
    free_if cmd >> free_if data_dma >> spi_device_release_bus >> return ret

module _ (idf : Idf) (addr : ℕ) (bytes : List ℕ) where
  -- The write from the second allocation on, by its answer.
  unfoldable pub write_with_cmd : ℕ → Option ℕ → Run ℕ
  write_with_cmd data_dma none = write_cleanup none (some data_dma) esp_err_no_mem
  write_with_cmd data_dma (some cmd) =
      spi_device_transmit idf (command_transaction (bit_or addr 0x80)) >>= λ t0.
      if not (t0.0 == esp_ok)
      then write_cleanup (some cmd) (some data_dma) t0.0
      else (spi_device_transmit idf (data_transaction bytes false) >>= λ t1.
          write_cleanup (some cmd) (some data_dma) t1.0)

  -- The write from the first allocation on. The return for a length of 0 leaves the bus and the
  -- buffer as they are.
  unfoldable pub write_with_data : Option ℕ → Run ℕ
  unfolding write_with_cmd
  write_with_data none = write_cleanup none none esp_err_no_mem
  write_with_data (some data_dma) =
      if leb (length bytes) 0
      then return esp_ok
      else (heap_caps_malloc idf 1 >>= write_with_cmd data_dma)

  -- `len` is the number of bytes.
  unfoldable pub esp_spi_write : Run ℕ
  unfolding write_with_data
  esp_spi_write = spi_device_acquire_bus idf >>= λ ret.
      if not (ret == esp_ok)
      then return ret
      else (heap_caps_malloc idf (length bytes) >>= write_with_data)

-- What follows the label `cleanup` of the read.
unfoldable pub read_cleanup : Option ℕ → Option ℕ → Option ℕ → ℕ × List ℕ → Run (ℕ × List ℕ)
read_cleanup ret_data_dma dummy cmd r =
    free_if ret_data_dma >> free_if dummy >> free_if cmd >> spi_device_release_bus >> return r

-- `memcpy(buffer, bytes, ...)`: what is in memory from `buffer` on. If there are more bytes than the
-- buffer has, they go over its end, and the result is longer than the buffer: C leaves undefined what
-- the program does from there on, and whoever calls the read has to look at the length.
abbrev pub copy_over : List ℕ → List ℕ → List ℕ
copy_over buffer bytes = bytes ++ drop (length bytes) buffer

-- The answer is the code, and the caller's buffer afterwards.
module _ (idf : Idf) (addr : ℕ) (buffer : List ℕ) (len : ℕ) where
  -- The read from the third allocation on.
  unfoldable pub read_with_rx : ℕ → ℕ → Option ℕ → Run (ℕ × List ℕ)
  read_with_rx dummy cmd none = read_cleanup none (some dummy) (some cmd) (esp_err_no_mem, buffer)
  read_with_rx dummy cmd (some ret_data_dma) =
      spi_device_transmit idf (data_transaction (replicate len 0) true) >>= λ t1.
      if not (t1.0 == esp_ok)
      then read_cleanup (some ret_data_dma) (some dummy) (some cmd) (t1.0, buffer)
      else read_cleanup (some ret_data_dma) (some dummy) (some cmd)
          (t1.0, copy_over buffer (take len t1.1))

  -- The read from the second allocation on. The answer of `spi_device_acquire_bus` is not looked at.
  unfoldable pub read_with_cmd : ℕ → Option ℕ → Run (ℕ × List ℕ)
  unfolding read_with_rx
  read_with_cmd dummy none = read_cleanup none (some dummy) none (esp_err_no_mem, buffer)
  read_with_cmd dummy (some cmd) = spi_device_acquire_bus idf >>= λ _.
      spi_device_transmit idf (command_transaction (bit_and addr 0x7F)) >>= λ t0.
      if not (t0.0 == esp_ok)
      then read_cleanup none (some dummy) (some cmd) (t0.0, buffer)
      else (heap_caps_malloc idf len >>= read_with_rx dummy cmd)

  unfoldable pub read_with_dummy : Option ℕ → Run (ℕ × List ℕ)
  unfolding read_with_cmd
  read_with_dummy none = read_cleanup none none none (esp_err_no_mem, buffer)
  read_with_dummy (some dummy) = heap_caps_malloc idf 1 >>= read_with_cmd dummy

  unfoldable pub esp_spi_read : Run (ℕ × List ℕ)
  unfolding read_with_dummy
  esp_spi_read =
      if leb len 0 then return (esp_ok, buffer) else (heap_caps_malloc idf len >>= read_with_dummy)

-- `ret == ESP_OK ? SX_OK : SX_INVALID_STATE`
unfoldable pub sx_of : ℕ → SxErr
sx_of ret = if ret == esp_ok then sx_ok else sx_invalid_state

unfoldable pub lora_spi_write : Idf → ℕ → List ℕ → Run SxErr
lora_spi_write idf reg bytes = esp_spi_write idf reg bytes >>= λ ret. return (sx_of ret)

unfoldable pub lora_spi_read : Idf → ℕ → List ℕ → ℕ → Run (SxErr × List ℕ)
lora_spi_read idf reg buffer len = esp_spi_read idf reg buffer len >>= λ r. return (sx_of r.0, r.1)

-- `spi_init`: the device's handle, or none where `ESP_ERROR_CHECK` ends the program. The arguments are
-- the code of `spi_bus_initialize`, and the code and the handle of `spi_bus_add_device`, which is called
-- only after the first; the settings of the pins and of the clock are left out.
unfoldable pub spi_init : ℕ → ℕ × ℕ → Option ℕ
spi_init bus_ret (dev_ret, spi_handle) =
    if not (bus_ret == esp_ok)
    then none
    else if not (dev_ret == esp_ok)
    then none
    else some spi_handle
