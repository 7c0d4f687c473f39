-- ===== src/Radio/Driver/TakenOut.antt =====
-- What SX_OK of `sx1278_read_last_payload` of src/sx127x_driver.c says, whatever the platform answers.
use Prim.Native.Nat.{bit_and}
use lora_driver_with_network.Prelude.{
  ℕ, ◌≡◌, ◌≢◌, ◌↔◌, refl, sym, ap, ◌∙◌, inl, inr, true, false, not, List, [], ◌∷◌, arith, ◌==◌,
  if◌then◌else◌, Bool-cases, get_or,
}
use lora_driver_with_network.Platform.{
  SxErr, sx_ok, sx_invalid_state, sx_invalid_crc, sx_unit_unitialized, is_ok,
}
use lora_driver_with_network.Platform.SpiPort.{spi_burst_write_reg}
use lora_driver_with_network.Radio.{Radio, Io, pure, ◌>>=◌, ◌>>◌, write_reg, read_byte, log_err}
use lora_driver_with_network.Radio.Trace.{wrote, asked, answer, bind_at, read_byte-asked}
use lora_driver_with_network.Radio.Config.{sx1278_switch_mode}
use lora_driver_with_network.Radio.Driver.{tag, skip, sx1278_read_last_payload}
use lora_driver_with_network.Radio.Driver.ReadSteps.{
  Out, GivesOk, code_of, test_iff, write_iff, fifo_read, from_flags, from_address, read_steps,
  from_fifo_iff, from_address_iff,
}

-- What the platform answers to the read of a register of one byte in this state.
abbrev pub byte_read : ℕ → Radio → SxErr × List ℕ
byte_read reg s = s.spi_port.reader s.spi_port.spi_handle reg (0 ∷ []) 1 s.history

abbrev pub value : SxErr × List ℕ → ℕ
value r = get_or r.1 0 0

-- The states in which the flags, the length, the address and the FIFO are read.
abbrev pub at_flags : Radio → Radio
at_flags s = wrote 0x01 (0x81 ∷ []) s

abbrev pub at_length : Radio → Radio
at_length s = asked 0x12 1 (at_flags s)

abbrev pub at_address : Radio → Radio
at_address s = asked 0x13 1 (at_length s)

abbrev pub at_pointer : Radio → Radio
at_pointer s = asked 0x10 1 (at_address s)

abbrev pub at_fifo : Radio → Radio
at_fifo s = wrote 0x0D (value (byte_read 0x10 (at_address s)) ∷ []) (at_pointer s)

-- The number of bytes that the radio reports. The code of this read is not looked at.
abbrev pub reported : Radio → ℕ
reported s = value (byte_read 0x13 (at_length s))

-- The read from `s` gives this buffer and length, and ends in `v`.
pub record TakesOut (buf : List ℕ) (s : Radio) (out : List ℕ × ℕ) (v : Radio) : Type 0 where
  pub is_initialized : s.spi_port.initialized ≡ true
  pub standby : answer (0x01, 0x81 ∷ []) s ≡ sx_ok
  pub flags_ok : (byte_read 0x12 (at_flags s)).0 ≡ sx_ok
  pub is_done : bit_and (value (byte_read 0x12 (at_flags s))) 0x40 ≢ 0
  pub is_right : bit_and (value (byte_read 0x12 (at_flags s))) 0x20 ≡ 0
  pub address_ok : (byte_read 0x10 (at_address s)).0 ≡ sx_ok
  pub pointer : answer (0x0D, value (byte_read 0x10 (at_address s)) ∷ []) (at_pointer s) ≡ sx_ok
  pub fifo_ok : (fifo_read buf (reported s) (at_fifo s)).0 ≡ sx_ok
  pub given : out ≡ ((fifo_read buf (reported s) (at_fifo s)).1, reported s)
  pub ends : v ≡ wrote 0x12 (0xFF ∷ []) (asked 0x00 (reported s) (at_fifo s))

module _ (buf : List ℕ) (len : ℕ) where
  two_reads :
      (s : Radio)
      → s.spi_port.initialized ≡ true
      → (read_byte 0x13 0 >>= λ n. read_byte 0x10 0 >>= from_address buf len n.1) (at_length s)
        ≡ from_address buf len
            (reported s)
            ((byte_read 0x10 (at_address s)).0, value (byte_read 0x10 (at_address s)))
            (at_pointer s)
  two_reads s on =
      bind_at (read_byte 0x13 0) (λ n. read_byte 0x10 0 >>= from_address buf len n.1) (at_length s)
        (at_address s) ((byte_read 0x13 (at_length s)).0, reported s)
        (read_byte-asked 0x13 0 (at_length s) on)
      ∙ bind_at (read_byte 0x10 0) (from_address buf len (reported s)) (at_address s) (at_pointer s)
          ((byte_read 0x10 (at_address s)).0, value (byte_read 0x10 (at_address s)))
          (read_byte-asked 0x10 0 (at_address s) on)

  flags_at :
      (s : Radio)
      → s.spi_port.initialized ≡ true
      → (read_byte 0x12 0 >>= from_flags buf len) (at_flags s)
        ≡ from_flags buf len
            ((byte_read 0x12 (at_flags s)).0, value (byte_read 0x12 (at_flags s)))
            (at_length s)
  flags_at s on =
      bind_at (read_byte 0x12 0) (from_flags buf len) (at_flags s) (at_length s) _
        (read_byte-asked 0x12 0 (at_flags s) on)

  -- The tests on the flags.
  from_flags_iff :
      (irq : SxErr × ℕ) (s : Radio) (out : List ℕ × ℕ) (v : Radio)
      → GivesOk (from_flags buf len irq) s out v ↔ (
          (irq.0 ≡ sx_ok)
          × ((bit_and irq.1 0x40 ≢ 0)
              × ((bit_and irq.1 0x20 ≡ 0)
                  × GivesOk
                      (read_byte 0x13 0 >>= λ n. read_byte 0x10 0 >>= from_address buf len n.1)
                      s
                      out
                      v)))
  unfolding from_flags
  from_flags_iff irq s out v =
      let k : Io Out = read_byte 0x13 0 >>= λ n. read_byte 0x10 0 >>= from_address buf len n.1 in
      let no_crc = not (bit_and irq.1 0x20 == 0) in
      let bad_crc : Io Out =
        skip "rx crc failed, discarding packet\n" (sx_invalid_crc, (buf, len)) in
      let crc = test_iff no_crc bad_crc k s out v (λ bad. refl) in
      let unset = bit_and irq.1 0x40 == 0 in
      let not_done : Io Out = skip "rx read not done\n" (sx_invalid_state, (buf, len)) in
      let done = test_iff unset not_done (if no_crc then bad_crc else k) s out v (λ bad. refl) in
      let first =
        test_iff (not (is_ok irq.0)) (pure (irq.0, (buf, len)))
          (if unset then not_done else if no_crc then bad_crc else k) s out v
          (λ bad. ground (arith, bad)) in
      (
        λ e.
            let f = first.0 e in
            let d = done.0 f.1 in
            let c = crc.0 d.1 in
            (ground (arith, f.0), ((λ z. ground (arith, d.0, z)), (ground (arith, c.0), c.1))),
        λ h. first.1 (
          ground (arith, h.0),
          done.1 (ground (arith, h.1.0), crc.1 (ground (arith, h.1.1.0), h.1.1.1)),
        ),
      )

  -- On a port that was not initialised the first write fails.
  read_off :
      (s : Radio)
      → s.spi_port.initialized ≡ false
      → (sx1278_read_last_payload buf len s).0.0 ≡ sx_unit_unitialized
  unfolding sx1278_read_last_payload sx1278_switch_mode write_reg spi_burst_write_reg
  read_off s off = rw off refl

  complaint : SxErr → Io Out
  complaint ret = log_err tag "error occured while switching mode" >> pure (ret, (buf, len))

  first_iff :
      (s : Radio) (out : List ℕ × ℕ) (v : Radio)
      → s.spi_port.initialized ≡ true
      → GivesOk (sx1278_read_last_payload buf len) s out v ↔ (
          (answer (0x01, 0x81 ∷ []) s ≡ sx_ok)
          × GivesOk
              (from_flags buf len
                ((byte_read 0x12 (at_flags s)).0, value (byte_read 0x12 (at_flags s))))
              (at_length s)
              out
              v)
  unfolding complaint
  first_iff s out v on =
      let same = flags_at s on in
      let start = read_steps buf len s in
      let step =
        write_iff 0x01 (0x81 ∷ []) complaint (read_byte 0x12 0 >>= from_flags buf len) s out v on
          (λ ret t. refl) in
      (
        λ e. let h = step.0 (sym start ∙ e) in (h.0, sym same ∙ h.1),
        λ h. start ∙ step.1 (h.0, same ∙ h.1),
      )

  TakesOut-initialized :
      (s : Radio) (out : List ℕ × ℕ) (v : Radio)
      → s.spi_port.initialized ≡ true
      → GivesOk (sx1278_read_last_payload buf len) s out v
      → TakesOut buf s out v
  TakesOut-initialized s out v on e =
      let first = (first_iff s out v on).0 e in
      let flags = (from_flags_iff _ (at_length s) out v).0 first.1 in
      let address =
        (from_address_iff buf len (reported s) _ (at_pointer s) out v on).0
          (sym (two_reads s on) ∙ flags.1.1.1) in
      let fifo = (from_fifo_iff buf len (reported s) _ _ out v on).0 address.1.1 in
      record {
        is_initialized = on;
        standby = first.0;
        flags_ok = flags.0;
        is_done = flags.1.0;
        is_right = flags.1.1.0;
        address_ok = address.0;
        pointer = address.1.0;
        fifo_ok = fifo.0;
        given = fifo.1.0;
        ends = fifo.1.1;
      }

  -- Whatever the platform answers: reading the last payload returns SX_OK, with a buffer and a length and
  -- in the state `v`, if and only if the port is initialised, the radio went to standby, the flags
  -- were read and say that a frame was received and that its checksum is right, the address of the
  -- frame was read and accepted as the pointer, and the read of the FIFO succeeded; the buffer is
  -- then the answer to that read, for as many bytes as the read of the length gave, whether or not
  -- that read failed.
  pub sx1278_read_last_payload-TakesOut :
      (s : Radio) (out : List ℕ × ℕ) (v : Radio)
      → (sx1278_read_last_payload buf len s ≡ ((sx_ok, out), v)) ↔ TakesOut buf s out v
  sx1278_read_last_payload-TakesOut s out v = (
    λ e. elim (Bool-cases s.spi_port.initialized) [
      | inl on ↦ TakesOut-initialized s out v on e
      | inr off ↦
          let ret = sym (read_off s off) ∙ code_of _ _ _ _ e in
          absurd (ground (arith, ap is_ok ret))
    ],
    λ h.
        let on = h.is_initialized in
        let fifo =
          (from_fifo_iff buf len (reported s) _ _ out v on).1 (h.fifo_ok, (h.given, h.ends)) in
        let address =
          (from_address_iff buf len (reported s) _ (at_pointer s) out v on).1
            (h.address_ok, (h.pointer, fifo)) in
        (first_iff s out v on).1 (
          h.standby,
          (from_flags_iff _ (at_length s) out v).1
              (h.flags_ok, (h.is_done, (h.is_right, two_reads s on ∙ address))),
        ),
  )
