-- ===== src/Radio/Config/Registers.antt =====
-- The register bytes of src/sx127x_config.c as bit fields, and the runs of the functions that set
-- them, where the platform accepts every write.
use Prim.Native.Nat.{bit_or}
use lora_driver_with_network.Prelude.{
  ℕ, suc, ◌+◌, ◌*◌, ◌^◌, ◌≤◌, ◌<◌, ◌≡◌, refl, subst, inl, inr, Bool, [], ◌∷◌, arith, ltb-false,
  ◌==◌, ==→eq, Bool-cases, u8, if◌then◌else◌,
}
use lora_driver_with_network.Platform.{sx_ok}
use lora_driver_with_network.Radio.{Radio}
use lora_driver_with_network.Radio.Trace.{Accepts, wrote, wrote_all, accepted}
use lora_driver_with_network.Radio.Config.{
  Bandwidth, b62k5, b125k, b250k, b500k, CodingRate, bandwidth_code, coding_rate_code,
  spreading_byte, bandwidth_byte, sx_1278_set_spreading_factor, sx1278_set_bandwidth,
  set_spreading_factor_global, set_bandwidth_global, get_bw_value, channels_of, frf,
}
use lora_driver_with_network.Radio.Config.Channel.{tuned, sx_1278_switch_to_nth_channel-tuned}

-- One value of a bounded variable, and the values above it.
next_value : (P : ℕ → Type 0) (k n : ℕ) → P k → (suc k ≤ n → P n) → k ≤ n → P n
next_value P k n p above h = elim (Bool-cases (k == n)) [
  | inl e ↦ subst P (==→eq k n e) p
  | inr e ↦ above (ground arith)
]

-- A spreading factor from 6 to 12 is the high half of its register, and the low half turns the
-- payload's CRC on.
pub spreading_byte_fields : (sf : ℕ) → 6 ≤ sf → sf ≤ 12 → spreading_byte sf ≡ sf * 16 + 4
unfolding spreading_byte
spreading_byte_fields sf low high =
    next_value Fields 6 sf refl
      (next_value Fields 7 sf refl (
        next_value Fields 8 sf refl (
          next_value Fields 9 sf refl (
            next_value Fields 10 sf refl (
              next_value Fields 11 sf refl
                (next_value Fields 12 sf refl (λ h. absurd (omega arith))))))))
      low
  where
    Fields : ℕ → Type 0
    Fields n = u8 (bit_or 0x04 (u8 (n * 2 ^ 4))) ≡ n * 16 + 4

-- The register of the bandwidth holds its code in the high half, the coding rate's in the next
-- three bits, and in the last bit whether the header is left implicit.
pub bandwidth_byte_fields :
    (bw : Bandwidth) (cr : CodingRate) (explicit : Bool)
    → bandwidth_byte bw cr explicit
      ≡ bandwidth_code bw * 16 + coding_rate_code cr * 2 + (if explicit then 0 else 1)
unfolding bandwidth_byte bandwidth_code coding_rate_code
bandwidth_byte_fields bw cr explicit = ground arith

-- With a port that accepts writes, a spreading factor from 6 to 12 is written between a switch to
-- standby and one to sleep, and is the driver's from then on.
pub sx_1278_set_spreading_factor-Accepts :
    (sf : ℕ) (s : Radio)
    → Accepts s.spi_port
    → 6 ≤ sf
    → sf ≤ 12
    → sx_1278_set_spreading_factor sf s ≡ (
      sx_ok,
      record (wrote_all
          ((0x01, 0x81 ∷ []) ∷ (0x1E, (sf * 16 + 4) ∷ []) ∷ (0x01, 0x80 ∷ []) ∷ [])
          s) { spreading_factor = sf },
    )
unfolding sx_1278_set_spreading_factor set_spreading_factor_global
sx_1278_set_spreading_factor-Accepts sf s a low high =
    simp (accepted, ltb-false sf 6 low, ltb-false 12 sf high, spreading_byte_fields sf low high)

has_channel : (bw : Bandwidth) → 0 < channels_of (get_bw_value bw)
unfolding channels_of get_bw_value
has_channel b62k5 = omega arith
has_channel b125k = omega arith
has_channel b250k = omega arith
has_channel b500k = omega arith

-- With a port that accepts writes, setting the bandwidth writes the register between a switch to
-- standby and one to sleep, makes the bandwidth the driver's, and selects channel 0 of the new
-- bandwidth.
pub sx1278_set_bandwidth-Accepts :
    (bw : Bandwidth) (cr : CodingRate) (explicit : Bool) (s : Radio)
    → Accepts s.spi_port
    → sx1278_set_bandwidth bw cr explicit s ≡ (
      sx_ok,
      wrote 0x01 (0x80 ∷ []) (
          tuned
            (frf (get_bw_value bw) 0)
            (record (wrote 0x1D (bandwidth_byte bw cr explicit ∷ []) (wrote 0x01 (0x81 ∷ []) s)) {
              lora_bandwidth_hz = get_bw_value bw;
            })),
    )
unfolding sx1278_set_bandwidth set_bandwidth_global
sx1278_set_bandwidth-Accepts bw cr explicit s a =
    simp (accepted, sx_1278_switch_to_nth_channel-tuned, has_channel bw)
