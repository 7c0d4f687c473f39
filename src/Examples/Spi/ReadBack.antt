-- ===== src/Examples/Spi/ReadBack.antt =====
-- What `esp_spi_read` of the examples puts on the wire, and what it gives back.
use Prim.Native.Nat.{bit_and}
use lora_driver_with_network.Prelude.{
  ℕ, ◌<◌, ◌≡◌, refl, ap, ◌∙◌, ◌≤◌, ◌++◌, drop, length, length-append, length-drop, length-take,
  arith, true, false, not, Option, none, some, List, ◌∷◌, leb-false, ◌==◌, take, replicate,
}
use lora_driver_with_network.Examples.Spi.{
  Idf, IdfHistory, esp_ok, esp_err_no_mem, command_transaction, data_transaction, read_cleanup,
  copy_over, read_with_rx, read_with_cmd, read_with_dummy, esp_spi_read,
}
use lora_driver_with_network.Examples.Spi.Wire.{Exchange, wire, Tells, tells, selects, transfers}

-- The transactions of a read that succeeded, and the buffer: the register with the top bit cleared,
-- then as many zeros as bytes are read, and the bytes that came in meanwhile.
abbrev ReadsBack : ℕ → List ℕ → ℕ → List Exchange → ℕ × List ℕ → List Exchange → Type 0
ReadsBack addr buffer len w r after =
    r.0 ≡ esp_ok
    → (r0 : List ℕ) × (rx : List ℕ) × (r.1 ≡ copy_over buffer (take len rx))
      × (after
          ≡ (data_transaction (replicate len 0) true, (esp_ok, rx))
            ∷ (command_transaction (bit_and addr 0x7F), (esp_ok, r0))
            ∷ w)

read_cleanup-Tells :
    (w : List Exchange) (Q : ℕ × List ℕ → List Exchange → Type 0) (rx dummy cmd : Option ℕ)
    (r : ℕ × List ℕ)
    → Q r w
    → Tells w Q (read_cleanup rx dummy cmd r)
unfolding read_cleanup Tells
read_cleanup-Tells w Q none none none r q h s = rw s q
read_cleanup-Tells w Q none none (some c) r q h s = rw s q
read_cleanup-Tells w Q none (some d) none r q h s = rw s q
read_cleanup-Tells w Q none (some d) (some c) r q h s = rw s q
read_cleanup-Tells w Q (some x) none none r q h s = rw s q
read_cleanup-Tells w Q (some x) none (some c) r q h s = rw s q
read_cleanup-Tells w Q (some x) (some d) none r q h s = rw s q
read_cleanup-Tells w Q (some x) (some d) (some c) r q h s = rw s q

module _ (idf : Idf) (addr : ℕ) (buffer : List ℕ) (len : ℕ) (w : List Exchange) where
  no_memory_read :
      (after : List Exchange) → ReadsBack addr buffer len w (esp_err_no_mem, buffer) after
  no_memory_read after e = absurd (omega arith)

  failed_read :
      (ret : ℕ) (after : List Exchange)
      → not (ret == esp_ok) ≡ true
      → ReadsBack addr buffer len w (ret, buffer) after
  failed_read ret after h e = absurd (ground arith)

  both_read :
      (r0 r1 : ℕ × List ℕ)
      → not (r0.0 == esp_ok) ≡ false
      → ReadsBack addr buffer len w
          (r1.0, copy_over buffer (take len r1.1))
          ((data_transaction (replicate len 0) true, r1)
            ∷ (command_transaction (bit_and addr 0x7F), r0)
            ∷ w)
  both_read (c0, r0) (c1, r1) h e =
      let first : c0 ≡ esp_ok = ground arith in (r0, r1, refl, rw (first, e) refl)

  read_with_rx-ReadsBack :
      (r0 : ℕ × List ℕ) (dummy cmd : ℕ) (o : Option ℕ)
      → not (r0.0 == esp_ok) ≡ false
      → Tells
          ((command_transaction (bit_and addr 0x7F), r0) ∷ w)
          (ReadsBack addr buffer len w)
          (read_with_rx idf addr buffer len dummy cmd o)
  unfolding read_with_rx
  read_with_rx-ReadsBack r0 dummy cmd none h = search (read_cleanup-Tells, no_memory_read)
  read_with_rx-ReadsBack r0 dummy cmd (some rx) h =
      search (tells, read_cleanup-Tells, failed_read, both_read)

  read_with_cmd-ReadsBack :
      (dummy : ℕ) (o : Option ℕ)
      → Tells w (ReadsBack addr buffer len w) (read_with_cmd idf addr buffer len dummy o)
  unfolding read_with_cmd
  read_with_cmd-ReadsBack dummy none = search (read_cleanup-Tells, no_memory_read)
  read_with_cmd-ReadsBack dummy (some cmd) =
      search (tells, read_with_rx-ReadsBack, read_cleanup-Tells, failed_read)

  read_with_dummy-ReadsBack :
      (o : Option ℕ) → Tells w (ReadsBack addr buffer len w) (read_with_dummy idf addr buffer len o)
  unfolding read_with_dummy
  read_with_dummy-ReadsBack none = search (read_cleanup-Tells, no_memory_read)
  read_with_dummy-ReadsBack (some dummy) = search (tells, read_with_cmd-ReadsBack)

  esp_spi_read-Tells :
      0 < len → Tells w (ReadsBack addr buffer len w) (esp_spi_read idf addr buffer len)
  unfolding esp_spi_read
  esp_spi_read-Tells full = rw (leb-false len 0 full) (search (tells, read_with_dummy-ReadsBack))

-- Whatever ESP-IDF answers: a read of at least one byte, into a buffer that has room, that returns ESP_OK
-- made two transactions, both answered with ESP_OK. The first sent the register's number with the top
-- bit cleared, and kept the chip selected; the second sent as many zeros as bytes were asked for, and
-- the bytes that came in with it are at the start of the caller's buffer, which keeps its length.
pub esp_spi_read-ReadsBack :
    (idf : Idf) (addr : ℕ) (buffer : List ℕ) (len : ℕ) (h : IdfHistory)
    → 0 < len
    → len ≤ length buffer
    → (esp_spi_read idf addr buffer len h).0.0 ≡ esp_ok
    → (r0 : List ℕ) × (rx : List ℕ) × ((esp_spi_read idf addr buffer len h).0.1
        ≡ take len rx ++ drop (length (take len rx)) buffer)
      × (length (esp_spi_read idf addr buffer len h).0.1 ≡ length buffer)
      × (wire (esp_spi_read idf addr buffer len h).1
          ≡ (transfers (replicate len 0) true, (esp_ok, rx))
            ∷ (selects (bit_and addr 0x7F), (esp_ok, r0))
            ∷ wire h)
unfolding Tells command_transaction data_transaction
esp_spi_read-ReadsBack idf addr buffer len h full room ok =
    let (r0, rx, given, told) = esp_spi_read-Tells idf addr buffer len (wire h) full h refl ok in
    (
      r0,
      rx,
      given,
      ap (λ (l : List ℕ). length l) given
          ∙ omega (
            arith,
            length-append (take len rx) (drop (length (take len rx)) buffer),
            length-drop (length (take len rx)) buffer,
            length-take len rx,
          ),
      told,
    )
