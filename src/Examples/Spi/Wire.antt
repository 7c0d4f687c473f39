-- ===== src/Examples/Spi/Wire.antt =====
-- The transactions on the SPI bus, and statements about those of a run.
use lora_driver_with_network.Prelude.{
  ℕ, ◌≡◌, refl, ap, ◌*◌, length, Bool, true, false, Option, List, [], ◌∷◌, if◌then◌else◌,
}
use lora_driver_with_network.Examples.Spi.{
  Idf, bus_acquired, bus_released, transmitted, allocated, freed, IdfHistory, Run, Transaction,
  return, ◌>>=◌, spi_device_acquire_bus, spi_device_transmit, heap_caps_malloc,
}

-- A transaction with its answer, the code and the bytes that came in.
abbrev pub Exchange : Type 0
Exchange = Transaction × (ℕ × List ℕ)

-- The transactions so far, the latest first.
abbrev pub wire : IdfHistory → List Exchange
wire [] = []
wire (bus_acquired ret ∷ h) = wire h
wire (bus_released ∷ h) = wire h
wire (transmitted t r ∷ h) = (t, r) ∷ wire h
wire (allocated n p ∷ h) = wire h
wire (freed p ∷ h) = wire h

-- The transaction that sends the number of a register and keeps the chip selected.
abbrev pub selects : ℕ → Transaction
selects byte = record { bits = 8; tx_buffer = byte ∷ []; has_rx_buffer = false; keep_active = true }

-- The transaction that sends these bytes, and receives as many if there is a buffer for them.
abbrev pub transfers : List ℕ → Bool → Transaction
transfers bytes receives = record {
  bits = length bytes * 8;
  tx_buffer = bytes;
  has_rx_buffer = receives;
  keep_active = false;
}

-- A run after the transactions `w` gives a result and transactions as `Q` says.
unfoldable pub Tells : {A : Type 0} → List Exchange → (A → List Exchange → Type 0) → Run A → Type 0
Tells w Q m = (h : IdfHistory) → wire h ≡ w → Q (m h).0 (wire (m h).1)

module _ {A : Type 0} (w : List Exchange) (Q : A → List Exchange → Type 0) where
  pub Tells-if :
      (t : Bool) (m n : Run A)
      → (t ≡ true → Tells w Q m)
      → (t ≡ false → Tells w Q n)
      → Tells w Q (if t then m else n)
  Tells-if true m n p q = p refl
  Tells-if false m n p q = q refl

  pub Tells-transmit :
      (idf : Idf) (t : Transaction) (f : ℕ × List ℕ → Run A)
      → ((r : ℕ × List ℕ) → Tells ((t, r) ∷ w) Q (f r))
      → Tells w Q (spi_device_transmit idf t >>= f)
  unfolding Tells
  Tells-transmit idf t f g h s =
      g (idf.transmit t h) (transmitted t (idf.transmit t h) ∷ h)
        (ap (λ (l : List Exchange). (t, idf.transmit t h) ∷ l) s)

  pub Tells-malloc :
      (idf : Idf) (n : ℕ) (f : Option ℕ → Run A)
      → ((o : Option ℕ) → Tells w Q (f o))
      → Tells w Q (heap_caps_malloc idf n >>= f)
  unfolding Tells
  Tells-malloc idf n f g h s = g (idf.malloc n h) (allocated n (idf.malloc n h) ∷ h) s

  pub Tells-acquire :
      (idf : Idf) (f : ℕ → Run A)
      → ((ret : ℕ) → Tells w Q (f ret))
      → Tells w Q (spi_device_acquire_bus idf >>= f)
  unfolding Tells
  Tells-acquire idf f g h s = g (idf.acquire h) (bus_acquired (idf.acquire h) ∷ h) s

  pub Tells-return : (a : A) → Q a w → Tells w Q (return a)
  unfolding Tells
  Tells-return a q h s = rw s q

pub ruleset tells = (Tells-if, Tells-transmit, Tells-malloc, Tells-acquire, Tells-return)
