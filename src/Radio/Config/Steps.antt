-- ===== src/Radio/Config/Steps.antt =====
-- The steps of the initialisation of src/sx127x_config.c: exactly when each succeeds, and what it wrote.
use lora_driver_with_network.Prelude.{
  ℕ, ◌≡◌, refl, Bool, true, false, ◌||◌, List, [], ◌∷◌, ◌++◌, ltb, leb, if◌then◌else◌,
}
use lora_driver_with_network.Platform.{SxErr, sx_invalid_argument}
use lora_driver_with_network.Radio.{Radio, Io, pure, ◌>>?◌}
use lora_driver_with_network.Radio.Trace.{wrote_all}
use lora_driver_with_network.Radio.Config.{
  channels_of, frf, write_frf, spreading_byte, sx1278_switch_mode, sx_1278_switch_to_nth_channel,
  sx_1278_set_spreading_factor, configure,
}
use lora_driver_with_network.Radio.Config.Channel.{frequency}
use lora_driver_with_network.Radio.Config.Exactly.{
  Exactly, Exactly-same, Exactly-then, Exactly-if, exactly,
}

if_at : (b : Bool) (m n : Io SxErr) (s : Radio) → (if b then m s else n s) ≡ (if b then m else n) s
if_at true m n s = refl
if_at false m n s = refl

write_frf-Exactly :
    (f : ℕ) (s : Radio)
    → s.spi_port.initialized ≡ true
    → Exactly (write_frf f) s (Unit {0}) (frequency f)
unfolding write_frf
write_frf-Exactly f s on = search exactly

channel-Exactly :
    (n : ℕ) (s : Radio)
    → s.spi_port.initialized ≡ true
    → Exactly
        (sx_1278_switch_to_nth_channel n)
        s
        ((leb (channels_of s.lora_bandwidth_hz) n ≡ false) × Unit {0})
        (frequency (frf s.lora_bandwidth_hz n))
unfolding sx_1278_switch_to_nth_channel
channel-Exactly n s on =
    let f = write_frf (frf s.lora_bandwidth_hz n) in
    let full = leb (channels_of s.lora_bandwidth_hz) n in
    Exactly-same (sx_1278_switch_to_nth_channel n) (if full then pure sx_invalid_argument else f) s
      _ _ (if_at full (pure sx_invalid_argument) f s)
      (Exactly-if full f s (Unit {0}) _ (write_frf-Exactly (frf s.lora_bandwidth_hz n) s on))

-- The spreading factor, between the standby and the sleep mode.
abbrev pub spreading : ℕ → List (ℕ × List ℕ)
spreading sf = (0x01, 0x81 ∷ []) ∷ (0x1E, spreading_byte sf ∷ []) ∷ (0x01, 0x80 ∷ []) ∷ []

spreading-Exactly :
    (s : Radio)
    → s.spi_port.initialized ≡ true
    → Exactly
        (sx_1278_set_spreading_factor s.spreading_factor)
        s
        (((ltb s.spreading_factor 6 || ltb 12 s.spreading_factor) ≡ false) × Unit {0})
        (spreading s.spreading_factor)
unfolding sx_1278_set_spreading_factor sx1278_switch_mode
spreading-Exactly s on = search exactly depth 20

channel-then :
    (n : ℕ) (k : Io SxErr) (s : Radio) (Q : Type 0) (zs : List (ℕ × List ℕ))
    → s.spi_port.initialized ≡ true
    → Exactly k (wrote_all (frequency (frf s.lora_bandwidth_hz n)) s) Q zs
    → Exactly
        (sx_1278_switch_to_nth_channel n >>? k)
        s
        (((leb (channels_of s.lora_bandwidth_hz) n ≡ false) × Unit {0}) × Q)
        (frequency (frf s.lora_bandwidth_hz n) ++ zs)
channel-then n k s Q zs on ek =
    Exactly-then (sx_1278_switch_to_nth_channel n) k s _ Q (frequency (frf s.lora_bandwidth_hz n))
      zs (channel-Exactly n s on) ek

-- `initialize_sx_1278` sets the spreading factor that the driver has.
spreading-then :
    (k : Io SxErr) (s : Radio) (Q : Type 0) (zs : List (ℕ × List ℕ))
    → s.spi_port.initialized ≡ true
    → Exactly k (wrote_all (spreading s.spreading_factor) s) Q zs
    → Exactly
        ((λ t. sx_1278_set_spreading_factor t.spreading_factor t) >>? k)
        s
        ((((ltb s.spreading_factor 6 || ltb 12 s.spreading_factor) ≡ false) × Unit {0}) × Q)
        (spreading s.spreading_factor ++ zs)
spreading-then k s Q zs on ek =
    Exactly-then (λ t. sx_1278_set_spreading_factor t.spreading_factor t) k s _ Q
      (spreading s.spreading_factor) zs
      (Exactly-same (λ t. sx_1278_set_spreading_factor t.spreading_factor t)
        (sx_1278_set_spreading_factor s.spreading_factor) s _ _ refl (spreading-Exactly s on))
      ek

-- The writes of the initialisation for a bandwidth and a spreading factor: the reset to LoRa and the
-- FIFO's addresses, the channel, and the modem's registers.
abbrev pub setup_writes : ℕ → ℕ → List (ℕ × List ℕ)
setup_writes bw sf =
    (0x01, 0x80 ∷ [])
    ∷ (0x0D, 0x00 ∷ [])
    ∷ (0x0F, 0x00 ∷ [])
    ∷ (0x0E, 0x00 ∷ [])
    ∷ (0x01, 0x81 ∷ [])
    ∷ (frequency (frf bw 0)
        ++ (0x09, 0xFC ∷ [])
          ∷ (0x2B, 0x2B ∷ [])
          ∷ (0x4D, 0x84 ∷ [])
          ∷ (0x1D, 0x72 ∷ [])
          ∷ (spreading sf
              ++ (0x1F, 0xFF ∷ [])
                ∷ (0x20, 0x00 ∷ [])
                ∷ (0x21, 0x18 ∷ [])
                ∷ (0x39, 0xD3 ∷ [])
                ∷ []))

pub configure-Exactly :
    (s : Radio)
    → s.spi_port.initialized ≡ true
    → Exactly configure s
        (((leb (channels_of s.lora_bandwidth_hz) 0 ≡ false) × Unit {0})
          × ((((ltb s.spreading_factor 6 || ltb 12 s.spreading_factor) ≡ false) × Unit {0})
              × Unit {0}))
        (setup_writes s.lora_bandwidth_hz s.spreading_factor)
unfolding configure sx1278_switch_mode
configure-Exactly s on = search (exactly, channel-then, spreading-then) depth 60
