-- ===== src/Examples/Spi/ReadBalance.antt =====
-- The bus and the heap after `esp_spi_read` of the examples.
use Prim.Native.Nat.{bit_and}
use lora_driver_with_network.Prelude.{
  ℕ, ◌<◌, ◌≡◌, refl, arith, Bool, true, false, not, ◌&&◌, Option, none, some, List, ◌∷◌, ◌==◌,
  if◌then◌else◌, leb-false, Bool-cases, inl, inr,
}
use lora_driver_with_network.Examples.Spi.{
  Idf, bus_acquired, allocated, IdfHistory, esp_ok, esp_err_no_mem, read_cleanup, read_with_rx,
  read_with_cmd, read_with_dummy, esp_spi_read, Transaction, ◌>>=◌, spi_device_transmit,
  heap_caps_malloc, command_transaction,
}
use lora_driver_with_network.Examples.Spi.Bus.{
  Bus, free, held, misused, remove, remove_head, Has, Leads, leads, given_back,
}

-- The buffers of the read are freed in another order than they were allocated in.
remove_second : (p q : ℕ) (l : List ℕ) → remove q (remove p (q ∷ p ∷ l)) ≡ l
remove_second p q l = ground arith

read_cleanup_all :
    (rx dummy cmd : ℕ) (r : ℕ × List ℕ) (l : List ℕ) (b : Bus)
    → Leads b
        (rx ∷ cmd ∷ dummy ∷ l)
        (Has (given_back b) l)
        (read_cleanup (some rx) (some dummy) (some cmd) r)
unfolding read_cleanup Leads
read_cleanup_all rx dummy cmd r l b h s =
    (rw s.0 refl, rw (s.1, remove_head rx (cmd ∷ dummy ∷ l), remove_second dummy cmd l) refl)

read_cleanup_two :
    (dummy cmd : ℕ) (r : ℕ × List ℕ) (l : List ℕ) (b : Bus)
    → Leads b (cmd ∷ dummy ∷ l) (Has (given_back b) l) (read_cleanup none (some dummy) (some cmd) r)
unfolding read_cleanup Leads
read_cleanup_two dummy cmd r l b h s = (rw s.0 refl, rw (s.1, remove_second dummy cmd l) refl)

read_cleanup_one :
    (dummy : ℕ) (r : ℕ × List ℕ) (l : List ℕ) (b : Bus)
    → Leads b (dummy ∷ l) (Has (given_back b) l) (read_cleanup none (some dummy) none r)
unfolding read_cleanup Leads
read_cleanup_one dummy r l b h s = (rw s.0 refl, rw (s.1, remove_head dummy l) refl)

module _ (idf : Idf) (addr : ℕ) (buffer : List ℕ) (len : ℕ) (l : List ℕ) where
  read_with_rx-Leads :
      (dummy cmd rx : ℕ) (b : Bus)
      → Leads b
          (rx ∷ cmd ∷ dummy ∷ l)
          (Has (given_back b) l)
          (read_with_rx idf addr buffer len dummy cmd (some rx))
  unfolding read_with_rx
  read_with_rx-Leads dummy cmd rx b = search (leads, read_cleanup_all rx dummy cmd)

  read_without_rx-Leads :
      (dummy cmd : ℕ) (b : Bus)
      → Leads b
          (cmd ∷ dummy ∷ l)
          (Has (given_back b) l)
          (read_with_rx idf addr buffer len dummy cmd none)
  unfolding read_with_rx
  read_without_rx-Leads dummy cmd b = search (read_cleanup_two dummy cmd)

  -- The transfer, after the bus was asked for.
  transfer-Leads :
      (dummy cmd : ℕ) (b : Bus) (t : Transaction)
      → Leads b (cmd ∷ dummy ∷ l) (Has (given_back b) l) (
          spi_device_transmit idf t >>= λ t0.
          if not (t0.0 == esp_ok)
          then read_cleanup none (some dummy) (some cmd) (t0.0, buffer)
          else (heap_caps_malloc idf len >>= read_with_rx idf addr buffer len dummy cmd))
  transfer-Leads dummy cmd b t = search (
    leads,
    read_with_rx-Leads dummy cmd,
    read_without_rx-Leads dummy cmd,
    read_cleanup_two dummy cmd,
  )

abbrev given : Option ℕ → Bool
given none = false
given (some p) = true

-- The read gets its first two buffers and the bus.
abbrev pub obtains : Idf → ℕ → IdfHistory → Bool
obtains idf len h =
    let h1 = allocated len (idf.malloc len h) ∷ h in
    let h2 = allocated 1 (idf.malloc 1 h1) ∷ h1 in
    given (idf.malloc len h) && (given (idf.malloc 1 h1) && idf.acquire h2 == esp_ok)

abbrev freed_if : Bool → Bus
freed_if b = if b then free else misused

module _ (idf : Idf) (addr : ℕ) (buffer : List ℕ) (len : ℕ) (l : List ℕ) where
  read_with_cmd-Has :
      (dummy : ℕ) (o : Option ℕ) (h : IdfHistory)
      → Has free (dummy ∷ l) h
      → let h2 = allocated 1 o ∷ h in
        Has
          (freed_if (given o && idf.acquire h2 == esp_ok))
          l
          (read_with_cmd idf addr buffer len dummy o h2).1
  unfolding read_with_cmd Leads
  read_with_cmd-Has dummy none h s =
      read_cleanup_one dummy (esp_err_no_mem, buffer) l free (allocated 1 none ∷ h) s
  read_with_cmd-Has dummy (some cmd) h s =
      let h2 = allocated 1 (some cmd) ∷ h in
      let start = bus_acquired (idf.acquire h2) ∷ h2 in
      let t = command_transaction (bit_and addr 0x7F) in
      elim (Bool-cases (idf.acquire h2 == esp_ok)) [
        | inl got ↦ rw got (
            transfer-Leads idf addr buffer len l dummy cmd held t start
              (rw got (rw s.0 refl), rw s.1 refl))
        | inr lost ↦
            rw lost (
              transfer-Leads idf addr buffer len l dummy cmd free t start
                (rw lost s.0, rw s.1 refl))
      ]

  read_with_dummy-Has :
      (o : Option ℕ) (h : IdfHistory)
      → Has free l h
      → let h1 = allocated len o ∷ h in
        let h2 = allocated 1 (idf.malloc 1 h1) ∷ h1 in
        Has
          (freed_if (given o && (given (idf.malloc 1 h1) && idf.acquire h2 == esp_ok)))
          l
          (read_with_dummy idf addr buffer len o h1).1
  unfolding read_with_dummy read_cleanup
  read_with_dummy-Has none h s = (rw s.0 refl, s.1)
  read_with_dummy-Has (some dummy) h s =
      let h1 = allocated len (some dummy) ∷ h in
      read_with_cmd-Has dummy (idf.malloc 1 h1) h1 (s.0, rw s.1 refl)

-- From a free bus, a read of at least one byte frees every buffer that it allocated, whatever ESP-IDF
-- answers. It leaves the bus free if it got its first two buffers and the bus; if it did not, it
-- gives back a bus that it does not have.
pub esp_spi_read-Has :
    (idf : Idf) (addr : ℕ) (buffer : List ℕ) (len : ℕ) (l : List ℕ) (h : IdfHistory)
    → 0 < len
    → Has free l h
    → Has (if obtains idf len h then free else misused) l (esp_spi_read idf addr buffer len h).1
unfolding esp_spi_read
esp_spi_read-Has idf addr buffer len l h full s =
    rw (leb-false len 0 full) (read_with_dummy-Has idf addr buffer len l (idf.malloc len h) h s)
