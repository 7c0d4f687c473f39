-- ===== src/Examples/Spi/Bus.antt =====
-- The state of the SPI bus and of the heap, as the calls of ESP-IDF leave it.
use lora_driver_with_network.Prelude.{
  ℕ, ◌≡◌, refl, arith, Bool, true, false, Option, none, some, List, [], ◌∷◌, ◌==◌, if◌then◌else◌,
}
use lora_driver_with_network.Examples.Spi.{
  Idf, bus_acquired, bus_released, transmitted, allocated, freed, IdfHistory, Run, esp_ok,
  Transaction, ◌>>=◌, ◌>>◌, spi_device_transmit, heap_caps_malloc, free_if, spi_device_release_bus,
}

-- The bus lock of ESP-IDF: taking it twice waits for ever, and giving it back when it is not taken is
-- an error that stops the program.
pub data Bus : Type 0 where
  free : Bus
  held : Bus
  misused : Bus

abbrev pub taken : Bus → Bus
taken free = held
taken held = misused
taken misused = misused

abbrev pub given_back : Bus → Bus
given_back free = misused
given_back held = free
given_back misused = misused

abbrev pub bus : IdfHistory → Bus
bus [] = free
bus (bus_acquired ret ∷ h) = if ret == esp_ok then taken (bus h) else bus h
bus (bus_released ∷ h) = given_back (bus h)
bus (transmitted t ret ∷ h) = bus h
bus (allocated n p ∷ h) = bus h
bus (freed p ∷ h) = bus h

abbrev pub remove : ℕ → List ℕ → List ℕ
remove p [] = []
remove p (x ∷ xs) = if p == x then xs else x ∷ remove p xs

-- The buffers that were allocated and are not freed.
abbrev pub live : IdfHistory → List ℕ
live [] = []
live (bus_acquired ret ∷ h) = live h
live (bus_released ∷ h) = live h
live (transmitted t ret ∷ h) = live h
live (allocated n none ∷ h) = live h
live (allocated n (some p) ∷ h) = p ∷ live h
live (freed p ∷ h) = remove p (live h)

pub remove_head : (p : ℕ) (l : List ℕ) → remove p (p ∷ l) ≡ l
remove_head p l = ground arith

-- The state of the bus, and the buffers that are allocated.
abbrev pub Has : Bus → List ℕ → IdfHistory → Type 0
Has b l h = (bus h ≡ b) × (live h ≡ l)

-- A run from such a state ends as `Q` says.
unfoldable pub Leads : {A : Type 0} → Bus → List ℕ → (IdfHistory → Type 0) → Run A → Type 0
Leads b l Q m = (h : IdfHistory) → Has b l h → Q (m h).1

module _ {A : Type 0} (b : Bus) (l : List ℕ) (Q : IdfHistory → Type 0) where
  pub Leads-if :
      (t : Bool) (m n : Run A) → Leads b l Q m → Leads b l Q n → Leads b l Q (if t then m else n)
  Leads-if true m n p q = p
  Leads-if false m n p q = q

  pub Leads-transmit :
      (idf : Idf) (t : Transaction) (f : ℕ × List ℕ → Run A)
      → ((r : ℕ × List ℕ) → Leads b l Q (f r))
      → Leads b l Q (spi_device_transmit idf t >>= f)
  unfolding Leads
  Leads-transmit idf t f g h s = g (idf.transmit t h) (transmitted t (idf.transmit t h) ∷ h) s

  pub Leads-malloc :
      (idf : Idf) (n : ℕ) (f : Option ℕ → Run A)
      → Leads b l Q (f none)
      → ((p : ℕ) → Leads b (p ∷ l) Q (f (some p)))
      → Leads b l Q (heap_caps_malloc idf n >>= f)
  unfolding Leads
  Leads-malloc idf n f x y h s = cases (idf.malloc n h)
    where
      cases : (o : Option ℕ) → Q (f o (allocated n o ∷ h)).1
      cases none = x (allocated n none ∷ h) s
      cases (some p) = y p (allocated n (some p) ∷ h) (s.0, rw s.1 refl)

  pub Leads-release :
      (m : Run A) → Leads (given_back b) l Q m → Leads b l Q (spi_device_release_bus >> m)
  unfolding Leads
  Leads-release m x h s = x (bus_released ∷ h) (rw s.0 refl, s.1)

  pub Leads-free :
      (p : ℕ) (m : Run A) → Leads b (remove p l) Q m → Leads b l Q (free_if (some p) >> m)
  unfolding Leads
  Leads-free p m x h s = x (freed p ∷ h) (s.0, rw s.1 refl)

pub ruleset leads = (Leads-malloc, Leads-transmit, Leads-if)
