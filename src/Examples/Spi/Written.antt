-- ===== src/Examples/Spi/Written.antt =====
-- What `esp_spi_write` of the examples puts on the wire.
use Prim.Native.Nat.{bit_or}
use lora_driver_with_network.Prelude.{
  ℕ, ◌<◌, ◌≡◌, refl, arith, true, false, not, Option, none, some, List, ◌∷◌, leb-false, ◌==◌,
  length,
}
use lora_driver_with_network.Examples.Spi.{
  Idf, IdfHistory, esp_ok, esp_err_no_mem, command_transaction, data_transaction, write_cleanup,
  write_with_cmd, write_with_data, esp_spi_write,
}
use lora_driver_with_network.Examples.Spi.Wire.{Exchange, wire, Tells, tells, selects, transfers}

write_cleanup-Tells :
    (w : List Exchange) (Q : ℕ → List Exchange → Type 0) (cmd data_dma : Option ℕ) (ret : ℕ)
    → Q ret w
    → Tells w Q (write_cleanup cmd data_dma ret)
unfolding write_cleanup Tells
write_cleanup-Tells w Q none none ret q h s = rw s q
write_cleanup-Tells w Q none (some d) ret q h s = rw s q
write_cleanup-Tells w Q (some c) none ret q h s = rw s q
write_cleanup-Tells w Q (some c) (some d) ret q h s = rw s q

-- The transactions of a write that succeeded: the register with the top bit set, then the bytes.
abbrev Writes : ℕ → List ℕ → List Exchange → ℕ → List Exchange → Type 0
Writes addr bytes w ret after =
    ret ≡ esp_ok
    → (r0 : List ℕ) × (r1 : List ℕ) × (after
        ≡ (data_transaction bytes false, (esp_ok, r1))
          ∷ (command_transaction (bit_or addr 0x80), (esp_ok, r0))
          ∷ w)

module _ (idf : Idf) (addr : ℕ) (bytes : List ℕ) (w : List Exchange) where
  no_memory : Writes addr bytes w esp_err_no_mem w
  no_memory e = absurd (omega arith)

  failed :
      (ret : ℕ) (after : List Exchange) → not (ret == esp_ok) ≡ true → Writes addr bytes w ret after
  failed ret after h e = absurd (ground arith)

  both :
      (r0 r1 : ℕ × List ℕ)
      → not (r0.0 == esp_ok) ≡ false
      → Writes addr bytes w r1.0
          ((data_transaction bytes false, r1) ∷ (command_transaction (bit_or addr 0x80), r0) ∷ w)
  both (c0, r0) (c1, r1) h e =
      let first : c0 ≡ esp_ok = ground arith in (r0, r1, rw (first, e) refl)

  write_with_cmd-Writes :
      (data_dma : ℕ) (o : Option ℕ)
      → Tells w (Writes addr bytes w) (write_with_cmd idf addr bytes data_dma o)
  unfolding write_with_cmd
  write_with_cmd-Writes data_dma none = search (tells, write_cleanup-Tells, no_memory)
  write_with_cmd-Writes data_dma (some cmd) = search (tells, write_cleanup-Tells, failed, both)

  write_with_data-Writes :
      0 < length bytes
      → (o : Option ℕ) → Tells w (Writes addr bytes w) (write_with_data idf addr bytes o)
  unfolding write_with_data
  write_with_data-Writes full none = search (tells, write_cleanup-Tells, no_memory)
  write_with_data-Writes full (some data_dma) =
      rw (leb-false (length bytes) 0 full) (search (tells, write_with_cmd-Writes))

  refused : (ret : ℕ) → not (ret == esp_ok) ≡ true → Writes addr bytes w ret w
  refused ret h e = absurd (ground arith)

  esp_spi_write-Tells :
      0 < length bytes → Tells w (Writes addr bytes w) (esp_spi_write idf addr bytes)
  unfolding esp_spi_write
  esp_spi_write-Tells full = search (tells, refused, write_with_data-Writes full)

-- Whatever ESP-IDF answers: a write of at least one byte that returns ESP_OK made two transactions,
-- both answered with ESP_OK. The first sent the register's number with the top bit set, and kept the
-- chip selected; the second sent the bytes.
pub esp_spi_write-Writes :
    (idf : Idf) (addr : ℕ) (bytes : List ℕ) (h : IdfHistory)
    → 0 < length bytes
    → (esp_spi_write idf addr bytes h).0 ≡ esp_ok
    → (r0 : List ℕ) × (r1 : List ℕ) × (wire (esp_spi_write idf addr bytes h).1
        ≡ (transfers bytes false, (esp_ok, r1))
          ∷ (selects (bit_or addr 0x80), (esp_ok, r0))
          ∷ wire h)
unfolding Tells command_transaction data_transaction
esp_spi_write-Writes idf addr bytes h full = esp_spi_write-Tells idf addr bytes (wire h) full h refl
