-- ===== src/Radio/Config/Started.antt =====
-- When the initialisation of src/sx127x_config.c succeeds, whatever the platform answers.
use lora_driver_with_network.Prelude.{
  ℕ, ◌≤◌, ◌<◌, ◌≡◌, ◌↔◌, refl, sym, ap, ◌∙◌, true, false, not, if-cases, leb-false, Bool-cases, inl,
  inr, ◌==◌, ◌||◌, List, [], ◌∷◌, arith, ltb, if◌then◌else◌, get_or,
}
use lora_driver_with_network.Platform.{
  SxErr, sx_ok, sx_invalid_response, sx_unit_unitialized, is_ok,
}
use lora_driver_with_network.Platform.SpiPort.{SpiPort, spi_burst_read_reg}
use lora_driver_with_network.Platform.Logger.{LoggerCtx}
use lora_driver_with_network.Platform.Timer.{TimerCtx}
use lora_driver_with_network.Radio.{Radio, Io, pure, log_err, ◌>>◌, read_byte, read_reg}
use lora_driver_with_network.Radio.Trace.{wrote_all, asked, read_byte-asked, bind_at}
use lora_driver_with_network.Radio.Config.{
  tag, channels_of, initialize_sx_1278, set_contexts, configure,
}
use lora_driver_with_network.Radio.Config.Setup.{connected}
use lora_driver_with_network.Radio.Config.Exactly.{Taken, Exactly}
use lora_driver_with_network.Radio.Config.Steps.{setup_writes, configure-Exactly}

-- What the platform answers to the read of the version.
abbrev version_read : SpiPort → Radio → SxErr × List ℕ
version_read spi s = spi.reader spi.spi_handle 0x42 (0 ∷ []) 1 s.history

-- The initialisation from `s` succeeds, and ends in `v`.
pub record Starts (spi : SpiPort) (logger : LoggerCtx) (timer : TimerCtx) (s v : Radio)
    : Type 0 where
  pub is_initialized : spi.initialized ≡ true
  pub read_ok : (version_read spi s).0 ≡ sx_ok
  pub version : get_or (version_read spi s).1 0 0 ≡ 0x12
  pub has_channel : 0 < channels_of s.lora_bandwidth_hz
  pub from_six : 6 ≤ s.spreading_factor
  pub to_twelve : s.spreading_factor ≤ 12
  pub taken :
      Taken
        (setup_writes s.lora_bandwidth_hz s.spreading_factor)
        (asked 0x42 1 (connected spi logger timer s))
  pub written :
      v
      ≡ wrote_all
          (setup_writes s.lora_bandwidth_hz s.spreading_factor)
          (asked 0x42 1 (connected spi logger timer s))

-- What follows the read of the version.
abbrev after_version : SxErr × ℕ → Io SxErr
after_version r =
    if not (is_ok r.0)
    then pure r.0
    else if not (r.1 == 0x12)
    then (log_err tag "sx1278 register version is not valid" >> pure sx_invalid_response)
    else configure

after_version_iff :
    (r : SxErr × ℕ) (s v : Radio)
    → (after_version r s ≡ (sx_ok, v))
      ↔ ((r.0 ≡ sx_ok) × ((r.1 ≡ 0x12) × (configure s ≡ (sx_ok, v))))
after_version_iff r s v = (
  if-cases Passed (not (is_ok r.0))
      (λ failed e. absurd (ground (arith, failed, ap (λ (x : SxErr × Radio). x.0) e)))
      (λ fine.
        if-cases Passed (not (r.1 == 0x12))
          (λ other e. absurd (ground (arith, ap is_ok (ap (λ (x : SxErr × Radio). x.0) e))))
          (λ same e. (ground arith, (ground arith, e)))),
  λ h. rw (h.0, h.1.0) h.1.1,
)
  where
    Passed : Io SxErr → Type 0
    Passed f = f s ≡ (sx_ok, v) → (r.0 ≡ sx_ok) × ((r.1 ≡ 0x12) × (configure s ≡ (sx_ok, v)))

initialize_at :
    (spi : SpiPort) (logger : LoggerCtx) (timer : TimerCtx) (s : Radio)
    → spi.initialized ≡ true
    → let r = version_read spi s in
      initialize_sx_1278 spi logger timer s
      ≡ after_version (r.0, get_or r.1 0 0) (asked 0x42 1 (connected spi logger timer s))
unfolding initialize_sx_1278 set_contexts
initialize_at spi logger timer s on =
    let t = connected spi logger timer s in
    let r = version_read spi s in
    bind_at (read_byte 0x42 0) after_version t (asked 0x42 1 t) (r.0, get_or r.1 0 0)
      (read_byte-asked 0x42 0 t on)

-- A port that was not initialised is reported.
initialize_off :
    (spi : SpiPort) (logger : LoggerCtx) (timer : TimerCtx) (s : Radio)
    → spi.initialized ≡ false
    → (initialize_sx_1278 spi logger timer s).0 ≡ sx_unit_unitialized
unfolding initialize_sx_1278 set_contexts read_byte read_reg spi_burst_read_reg
initialize_off spi logger timer s off = rw off refl

Starts-initialized :
    (spi : SpiPort) (logger : LoggerCtx) (timer : TimerCtx) (s v : Radio)
    → spi.initialized ≡ true
    → initialize_sx_1278 spi logger timer s ≡ (sx_ok, v)
    → Starts spi logger timer s v
unfolding Exactly
Starts-initialized spi logger timer s v on e =
    let t = asked 0x42 1 (connected spi logger timer s) in
    let r = version_read spi s in
    let version =
      (after_version_iff (r.0, get_or r.1 0 0) t v).0
        (sym (initialize_at spi logger timer s on) ∙ e) in
    let done = (configure-Exactly t on v).0 version.1.1 in
    record {
      is_initialized = on;
      read_ok = version.0;
      version = version.1.0;
      has_channel = ground (arith, done.0.0.0);
      from_six = ground (arith, done.0.1.0.0);
      to_twelve = ground (arith, done.0.1.0.0);
      taken = done.1.0;
      written = done.1.1;
    }

-- Whatever the platform answers: the initialisation returns SX_OK, in the state `v`, if and only if
-- the port is initialised, the read of the version succeeds and gives the chip's, the bandwidth
-- leaves a channel, the spreading factor is from 6 to 12, and the platform accepts the writes of
-- `setup_writes` one after the other, but for that of the spreading factor, whose answer is not
-- looked at; and `v` is the state with the contexts that were given, after the read and all these
-- writes.
pub initialize_sx_1278-Starts :
    (spi : SpiPort) (logger : LoggerCtx) (timer : TimerCtx) (s v : Radio)
    → (initialize_sx_1278 spi logger timer s ≡ (sx_ok, v)) ↔ Starts spi logger timer s v
unfolding Exactly
initialize_sx_1278-Starts spi logger timer s v = (
  λ e. elim (Bool-cases spi.initialized) [
    | inl on ↦ Starts-initialized spi logger timer s v on e
    | inr off ↦
        let ret = sym (initialize_off spi logger timer s off) ∙ ap (λ (r : SxErr × Radio). r.0) e in
        absurd (ground (arith, ap is_ok ret))
  ],
  λ h.
      let t = asked 0x42 1 (connected spi logger timer s) in
      let r = version_read spi s in
      initialize_at spi logger timer s h.is_initialized
      ∙ (after_version_iff (r.0, get_or r.1 0 0) t v).1 (
        h.read_ok,
        (
          h.version,
          (configure-Exactly t h.is_initialized v).1 (
            (
              (leb-false (channels_of s.lora_bandwidth_hz) 0 h.has_channel, tt),
              ((in_range s.spreading_factor h.from_six h.to_twelve, tt), tt),
            ),
            (h.taken, h.written),
          ),
        ),
      ),
)
  where
    in_range : (sf : ℕ) → 6 ≤ sf → sf ≤ 12 → (ltb sf 6 || ltb 12 sf) ≡ false
    in_range sf low high = ground arith
