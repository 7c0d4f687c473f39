-- ===== src/Radio/Config/Channel.antt =====
-- The channels of src/sx127x_config.c: how many there are, the frequency word of each, and what
-- `sx_1278_switch_to_nth_channel` writes.
use lora_driver_with_network.Prelude.{
  ℕ, ◌+◌, ◌*◌, ◌/◌, ◌^◌, ◌≤◌, ◌<◌, ◌≡◌, refl, ◌∙◌, List, [], ◌∷◌, arith, leb-false, u8,
}
use lora_driver_with_network.Platform.{sx_ok}
use lora_driver_with_network.Radio.{Radio}
use lora_driver_with_network.Radio.Trace.{Accepts, wrote_all, accepted}
use lora_driver_with_network.Radio.Config.{
  Bandwidth, b62k5, b125k, b250k, b500k, get_bw_value, channels_of, raw_freq, frf, fxosc,
  lora_frequency_hf, lora_frequency_lf, sx_1278_switch_to_nth_channel,
}

-- The band of two megahertz holds 32, 16, 8 or 4 channels, of which the last two are left out.
pub channels_of_table :
    (bw : Bandwidth) → (channels_of (get_bw_value bw) + 2) * get_bw_value bw ≡ 2000000
unfolding channels_of get_bw_value
channels_of_table b62k5 = refl
channels_of_table b125k = refl
channels_of_table b250k = refl
channels_of_table b500k = refl

-- The centre of a channel, without the wrap of the code's arithmetic.
abbrev pub centre : ℕ → ℕ → ℕ
centre v n = lora_frequency_lf + n * v + v / 2

pub record IsTuned (v n : ℕ) : Type 0 where
  pub at_most : frf v n * fxosc ≤ centre v n * 2 ^ 19
  pub next_above : centre v n * 2 ^ 19 < (frf v n + 1) * fxosc
  pub fits : frf v n < 2 ^ 24
  pub in_band : centre v n + v / 2 + 2 * v ≤ lora_frequency_hf

frf-IsTuned_at : (v n : ℕ) → n * v + 3 * v ≤ 2000000 → IsTuned v n
unfolding frf raw_freq
frf-IsTuned_at v n h = record {
  at_most = omega arith;
  next_above = omega arith;
  fits = omega arith;
  in_band = omega arith;
}

room :
    (bw : Bandwidth) (n : ℕ)
    → n < channels_of (get_bw_value bw)
    → n * get_bw_value bw + 3 * get_bw_value bw ≤ 2000000
unfolding channels_of get_bw_value
room b62k5 n h = omega arith
room b125k n h = omega arith
room b250k n h = omega arith
room b500k n h = omega arith

-- For each bandwidth and each of its channels, the frequency word is the centre of the channel in
-- steps of 2 ^ -19 of the oscillator, rounded down; it fits in the three registers; and the
-- channel lies in the band, two channels or more below its upper end.
pub frf-IsTuned :
    (bw : Bandwidth) (n : ℕ) → n < channels_of (get_bw_value bw) → IsTuned (get_bw_value bw) n
frf-IsTuned bw n h = frf-IsTuned_at (get_bw_value bw) n (room bw n h)

-- The three bytes of a frequency word.
bytes_of_word : (f : ℕ) → f < 2 ^ 24 → u8 (f / 2 ^ 16) * 2 ^ 16 + u8 (f / 2 ^ 8) * 2 ^ 8 + u8 f ≡ f
bytes_of_word f h = omega arith

-- The registers of the frequency, high byte first, and the byte of each.
abbrev pub frequency : ℕ → List (ℕ × List ℕ)
frequency f = (0x06, u8 (f / 2 ^ 16) ∷ []) ∷ (0x07, u8 (f / 2 ^ 8) ∷ []) ∷ (0x08, u8 f ∷ []) ∷ []

abbrev pub tuned : ℕ → Radio → Radio
tuned f s = wrote_all (frequency f) s

pub sx_1278_switch_to_nth_channel-tuned :
    (s : Radio) (n : ℕ)
    → Accepts s.spi_port
    → n < channels_of s.lora_bandwidth_hz
    → sx_1278_switch_to_nth_channel n s ≡ (sx_ok, tuned (frf s.lora_bandwidth_hz n) s)
unfolding sx_1278_switch_to_nth_channel
sx_1278_switch_to_nth_channel-tuned s n a h =
    simp (leb-false (channels_of s.lora_bandwidth_hz) n h, accepted)

frf-centre : (v n : ℕ) → IsTuned v n → frf v n ≡ centre v n * 2 ^ 19 / fxosc
frf-centre v n t = omega (arith, t.at_most, t.next_above)

-- With one of the four bandwidths and a port that accepts writes, a channel below the count is
-- selected by three writes, whose bytes put together are the centre of the channel in steps of
-- 2 ^ -19 of the oscillator, rounded down.
pub sx_1278_switch_to_nth_channel-centre :
    (bw : Bandwidth) (n : ℕ) (s : Radio)
    → Accepts s.spi_port
    → s.lora_bandwidth_hz ≡ get_bw_value bw
    → n < channels_of (get_bw_value bw)
    → (hi : ℕ) × (mid : ℕ) × (lo : ℕ) × (sx_1278_switch_to_nth_channel n s
        ≡ (sx_ok, wrote_all ((0x06, hi ∷ []) ∷ (0x07, mid ∷ []) ∷ (0x08, lo ∷ []) ∷ []) s))
      × (hi * 2 ^ 16 + mid * 2 ^ 8 + lo ≡ centre (get_bw_value bw) n * 2 ^ 19 / fxosc)
sx_1278_switch_to_nth_channel-centre bw n s a e h =
    let f = frf s.lora_bandwidth_hz n in
    let t = frf-IsTuned bw n h in
    (
      u8 (f / 2 ^ 16),
      u8 (f / 2 ^ 8),
      u8 f,
      sx_1278_switch_to_nth_channel-tuned s n a (rw e h),
      rw e (bytes_of_word (frf (get_bw_value bw) n) t.fits ∙ frf-centre (get_bw_value bw) n t),
    )
