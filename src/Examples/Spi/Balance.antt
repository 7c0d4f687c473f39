-- ===== src/Examples/Spi/Balance.antt =====
-- The bus and the heap after `esp_spi_write` of the examples.
use lora_driver_with_network.Prelude.{
  ℕ, ◌<◌, ◌≡◌, ◌≢◌, ◌⊎◌, inl, inr, Bool-cases, Option-cases, refl, arith, Bool, true, false, not,
  Option, none, some, List, [], ◌∷◌, ◌==◌, if-cases, length, leb-false,
}
use lora_driver_with_network.Examples.Spi.{
  Idf, bus_acquired, allocated, IdfHistory, Run, esp_ok, write_cleanup, esp_err_no_mem, ◌>>=◌,
  heap_caps_malloc, write_with_cmd, write_with_data, esp_spi_write,
}
use lora_driver_with_network.Examples.Spi.Bus.{
  free, held, remove_head, Has, Leads, Leads-malloc, leads,
}

flipped_true : (b : Bool) → not b ≡ true → b ≡ false
flipped_true b h = ground arith

flipped_false : (b : Bool) → not b ≡ false → b ≡ true
flipped_false b h = ground arith

-- The cleanup of the write gives the bus back, and frees the two buffers.
write_cleanup-Leads :
    (cmd data_dma : ℕ) (ret : ℕ) (l : List ℕ)
    → Leads held (cmd ∷ data_dma ∷ l) (Has free l) (write_cleanup (some cmd) (some data_dma) ret)
unfolding write_cleanup Leads
write_cleanup-Leads cmd data_dma ret l h s =
    (rw s.0 refl, rw (s.1, remove_head cmd (data_dma ∷ l), remove_head data_dma l) refl)

write_cleanup_one :
    (data_dma : ℕ) (ret : ℕ) (l : List ℕ)
    → Leads held (data_dma ∷ l) (Has free l) (write_cleanup none (some data_dma) ret)
unfolding write_cleanup Leads
write_cleanup_one data_dma ret l h s = (rw s.0 refl, rw (s.1, remove_head data_dma l) refl)

module _ (idf : Idf) (addr : ℕ) (bytes : List ℕ) (l : List ℕ) where
  write_with_cmd-Leads :
      (data_dma cmd : ℕ)
      → Leads held
          (cmd ∷ data_dma ∷ l)
          (Has free l)
          (write_with_cmd idf addr bytes data_dma (some cmd))
  unfolding write_with_cmd
  write_with_cmd-Leads data_dma cmd = search (leads, write_cleanup-Leads cmd data_dma)

  write_with_data-Leads :
      (n : ℕ) (h : IdfHistory)
      → 0 < length bytes
      → Has held l h
      → Has free l ((heap_caps_malloc idf n >>= write_with_data idf addr bytes) h).1
  unfolding write_with_data Leads
  write_with_data-Leads n h full s = cases (idf.malloc n h)
    where
      inner :
          (data_dma : ℕ)
          → Leads held
              (data_dma ∷ l)
              (Has free l)
              (heap_caps_malloc idf 1 >>= write_with_cmd idf addr bytes data_dma)
      inner data_dma =
          Leads-malloc held (data_dma ∷ l) (Has free l) idf 1
            (write_with_cmd idf addr bytes data_dma)
            (unfold write_with_cmd in write_cleanup_one data_dma esp_err_no_mem l)
            (λ cmd. write_with_cmd-Leads data_dma cmd)

      cases : (o : Option ℕ) → Has free l (write_with_data idf addr bytes o (allocated n o ∷ h)).1
      cases none = unfold write_cleanup in (rw s.0 refl, s.1)
      cases (some p) =
          rw (leb-false (length bytes) 0 full)
            (inner p (allocated n (some p) ∷ h) (s.0, rw s.1 refl))

-- Whatever ESP-IDF answers, from a free bus: a write of at least one byte leaves the bus free, and
-- every buffer that it allocated is freed again, on each way through the code.
pub esp_spi_write-Has :
    (idf : Idf) (addr : ℕ) (bytes : List ℕ) (l : List ℕ) (h : IdfHistory)
    → 0 < length bytes
    → Has free l h
    → Has free l (esp_spi_write idf addr bytes h).1
unfolding esp_spi_write
esp_spi_write-Has idf addr bytes l h full s =
    let start = bus_acquired (idf.acquire h) ∷ h in
    if-cases (λ (m : Run ℕ). Has free l (m start).1) (not (idf.acquire h == esp_ok))
      (λ bad. (rw (flipped_true _ bad) s.0, s.1))
      (λ good.
        write_with_data-Leads idf addr bytes l (length bytes) start full
          (rw (flipped_false _ good) (rw s.0 refl), s.1))

-- A write of no bytes, from a free bus, on each way through the code. If the bus is not given, or there is
-- no memory, then the write fails, and the bus is free. Otherwise it is answered with ESP_OK, and the
-- bus, and the buffer that was allocated, are kept.
pub esp_spi_write_empty :
    (idf : Idf) (addr : ℕ) (l : List ℕ) (h : IdfHistory)
    → Has free l h
    → let r = esp_spi_write idf addr [] h in
      let given = idf.malloc 0 (bus_acquired esp_ok ∷ h) in
      ((idf.acquire h ≢ esp_ok) × (r.0 ≡ idf.acquire h) × Has free l r.1)
      ⊎ (((idf.acquire h ≡ esp_ok) × (given ≡ none) × (r.0 ≡ esp_err_no_mem) × Has free l r.1)
          ⊎ ((idf.acquire h ≡ esp_ok)
              × (p : ℕ) × (given ≡ some p)
              × (r.0 ≡ esp_ok)
              × Has held (p ∷ l) r.1))
unfolding esp_spi_write write_with_data write_cleanup
esp_spi_write_empty idf addr l h s = elim (Bool-cases (idf.acquire h == esp_ok)) [
  | inr bad ↦ inl (λ e. ground (arith, bad, e), rw bad refl, rw bad (rw (bad, s.0) refl, s.1))
  | inl good ↦
      let ok : idf.acquire h ≡ esp_ok = ground (arith, good) in
      elim (Option-cases (idf.malloc 0 (bus_acquired esp_ok ∷ h))) [
        | inl nothing ↦
            inr (inl (ok, nothing, rw (ok, nothing) refl, rw (ok, nothing) (rw s.0 refl, s.1)))
        | inr (p, given) ↦
            inr (inr (ok, p, given, rw (ok, given) refl, rw (ok, given) (rw s.0 refl, rw s.1 refl)))
      ]
]
