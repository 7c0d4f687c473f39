-- ===== src/Examples/Spi/Calls.antt =====
-- The calls of ESP-IDF that `esp_spi_read` of the examples makes, for different buffers of the caller.
use Prim.Native.Nat.{bit_and}
use lora_driver_with_network.Prelude.{
  ◌∷◌, ℕ, ◌≡◌, refl, Bool, true, false, not, Option, none, some, List, leb, ◌==◌, if◌then◌else◌,
  replicate,
}
use lora_driver_with_network.Examples.Spi.{
  Idf, IdfHistory, Run, esp_ok, command_transaction, data_transaction, read_cleanup, read_with_rx,
  read_with_cmd, read_with_dummy, esp_spi_read, lora_spi_read, transmitted, bus_acquired, allocated,
}

-- Both runs make the same calls.
abbrev SameCalls : {A : Type 0} → Run A → Run A → IdfHistory → Type 0
SameCalls m n h = (m h).1 ≡ (n h).1

SameCalls-if :
    {A : Type 0} (b : Bool) (m m' n n' : Run A) (h : IdfHistory)
    → SameCalls m m' h
    → SameCalls n n' h
    → SameCalls (if b then m else n) (if b then m' else n') h
SameCalls-if true m m' n n' h p q = p
SameCalls-if false m m' n n' h p q = q

module _ (idf : Idf) (addr len : ℕ) (a b : List ℕ) where
  read_with_rx_calls :
      (dummy cmd : ℕ) (o : Option ℕ) (h : IdfHistory)
      → SameCalls
          (read_with_rx idf addr a len dummy cmd o)
          (read_with_rx idf addr b len dummy cmd o)
          h
  unfolding read_with_rx read_cleanup
  read_with_rx_calls dummy cmd none h = refl
  read_with_rx_calls dummy cmd (some p) h =
      SameCalls-if (not ((idf.transmit (data_transaction (replicate len 0) true) h).0 == esp_ok)) _
        _ _ _ _ refl refl

  read_with_cmd_calls :
      (dummy : ℕ) (o : Option ℕ) (h : IdfHistory)
      → SameCalls (read_with_cmd idf addr a len dummy o) (read_with_cmd idf addr b len dummy o) h
  unfolding read_with_cmd read_cleanup
  read_with_cmd_calls dummy none h = refl
  read_with_cmd_calls dummy (some cmd) h =
      let start = bus_acquired (idf.acquire h) ∷ h in
      let t0 = idf.transmit (command_transaction (bit_and addr 0x7F)) start in
      let told = transmitted (command_transaction (bit_and addr 0x7F)) t0 ∷ start in
      SameCalls-if (not (t0.0 == esp_ok)) _ _ _ _ told refl (
        read_with_rx_calls dummy cmd (idf.malloc len told)
          (allocated len (idf.malloc len told) ∷ told))

  read_with_dummy_calls :
      (o : Option ℕ) (h : IdfHistory)
      → SameCalls (read_with_dummy idf addr a len o) (read_with_dummy idf addr b len o) h
  unfolding read_with_dummy read_cleanup
  read_with_dummy_calls none h = refl
  read_with_dummy_calls (some dummy) h =
      read_with_cmd_calls dummy (idf.malloc 1 h) (allocated 1 (idf.malloc 1 h) ∷ h)

  -- The bytes in the caller's buffer make no difference for what a read asks of ESP-IDF.
  pub lora_spi_read_calls :
      (h : IdfHistory) → SameCalls (lora_spi_read idf addr a len) (lora_spi_read idf addr b len) h
  unfolding lora_spi_read esp_spi_read
  lora_spi_read_calls h =
      SameCalls-if (leb len 0) _ _ _ _ h refl
        (read_with_dummy_calls (idf.malloc len h) (allocated len (idf.malloc len h) ∷ h))
