-- ===== src/Radio/Config/Failure.antt =====
-- What src/sx127x_config.c makes of a register write that fails.
use lora_driver_with_network.Prelude.{ℕ, ◌≤◌, ◌≡◌, ltb-false, false, [], ◌∷◌}
use lora_driver_with_network.Platform.{SxErr, sx_ok, is_ok}
use lora_driver_with_network.Radio.{Radio}
use lora_driver_with_network.Radio.Trace.{
  Answers, wrote_all, write_reg-Answers, switch_mode-Answers,
}
use lora_driver_with_network.Radio.Config.{
  spreading_byte, bandwidth_byte, Bandwidth, CodingRate, sx_1278_set_spreading_factor,
  sx1278_set_bandwidth,
}

-- Where the modes can be switched and the write of the spreading factor fails, the failure is lost:
-- SX_OK is returned, and the driver keeps the old factor.
pub sx_1278_set_spreading_factor_lost :
    (f : ℕ → SxErr) (sf : ℕ) (s : Radio)
    → Answers f s.spi_port
    → f 0x01 ≡ sx_ok
    → is_ok (f 0x1E) ≡ false
    → 6 ≤ sf
    → sf ≤ 12
    → sx_1278_set_spreading_factor sf s ≡ (
      sx_ok,
      wrote_all ((0x01, 0x81 ∷ []) ∷ (0x1E, spreading_byte sf ∷ []) ∷ (0x01, 0x80 ∷ []) ∷ []) s,
    )
unfolding sx_1278_set_spreading_factor
sx_1278_set_spreading_factor_lost f sf s a mode fails low high = simp (
  switch_mode-Answers f,
  write_reg-Answers f,
  mode,
  fails,
  ltb-false sf 6 low,
  ltb-false 12 sf high,
)

-- Where the modes can be switched and the write of the bandwidth fails, the failure is lost: SX_OK is
-- returned, the driver keeps the old bandwidth, and the registers of the channel are not written.
pub sx1278_set_bandwidth_lost :
    (f : ℕ → SxErr) (bw : Bandwidth) (cr : CodingRate) (explicit : _) (s : Radio)
    → Answers f s.spi_port
    → f 0x01 ≡ sx_ok
    → is_ok (f 0x1D) ≡ false
    → sx1278_set_bandwidth bw cr explicit s ≡ (
      sx_ok,
      wrote_all
          ((0x01, 0x81 ∷ []) ∷ (0x1D, bandwidth_byte bw cr explicit ∷ []) ∷ (0x01, 0x80 ∷ []) ∷ [])
          s,
    )
unfolding sx1278_set_bandwidth
sx1278_set_bandwidth_lost f bw cr explicit s a mode fails =
    simp (switch_mode-Answers f, write_reg-Answers f, mode, fails)
