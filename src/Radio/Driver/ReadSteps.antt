-- ===== src/Radio/Driver/ReadSteps.antt =====
-- When the steps of `sx1278_read_last_payload` of src/sx127x_driver.c succeed, whatever the
-- platform answers.
use Prim.Native.Nat.{bit_and}
use lora_driver_with_network.Prelude.{
  ℕ, ◌≡◌, ◌↔◌, refl, sym, ap, ap₂, subst, ◌∙◌, Bool, true, false, not, List, [], ◌∷◌, arith, ◌==◌,
  if◌then◌else◌, if-cases,
}
use lora_driver_with_network.Platform.{SxErr, sx_ok, sx_invalid_state, sx_invalid_crc, is_ok}
use lora_driver_with_network.Radio.{
  Radio, Io, pure, ◌>>=◌, ◌>>◌, attempt, write_reg, read_reg, read_byte, log_err,
}
use lora_driver_with_network.Radio.Cases.{is_ok→eq}
use lora_driver_with_network.Radio.Trace.{
  wrote, asked, answer, write_reg-answer, attempt_ok, bind_at, read_reg-asked,
}
use lora_driver_with_network.Radio.Config.{sx1278_switch_mode, sx1278_read_irq, sx1278_clear_irq}
use lora_driver_with_network.Radio.Driver.{tag, skip, sx1278_read_last_payload}

-- The returned code, the buffer and `*len`.
abbrev pub Out : Type 0
Out = SxErr × (List ℕ × ℕ)

-- The call returned SX_OK with this buffer and length, in the state `v`.
abbrev pub GivesOk : Io Out → Radio → List ℕ × ℕ → Radio → Type 0
GivesOk m s out v = m s ≡ ((sx_ok, out), v)

pub code_of :
    (r : Out × Radio) (e : SxErr) (out : List ℕ × ℕ) (v : Radio) → r ≡ ((e, out), v) → r.0.0 ≡ e
code_of r e out v h = ap (λ (x : Out × Radio). x.0.0) h

-- A test that ends the call, with a code that is not SX_OK.
pub test_iff :
    (b : Bool) (stop k : Io Out) (s : Radio) (out : List ℕ × ℕ) (v : Radio)
    → (b ≡ true → is_ok (stop s).0.0 ≡ false)
    → GivesOk (if b then stop else k) s out v ↔ ((b ≡ false) × GivesOk k s out v)
test_iff true stop k s out v bad =
    (λ e. absurd (ground (arith, bad refl, code_of _ _ _ _ e)), λ h. absurd (ground (arith, h.0)))
test_iff false stop k s out v bad = (λ e. (refl, e), λ h. h.1)

-- A step whose failure ends the call, with its code.
step_iff :
    (m : Io SxErr) (fail : SxErr → Io Out) (k : Io Out) (s : Radio) (out : List ℕ × ℕ) (v : Radio)
    → ((ret : SxErr) (t : Radio) → (fail ret t).0.0 ≡ ret)
    → GivesOk (attempt m fail k) s out v ↔ (((m s).0 ≡ sx_ok) × GivesOk k (m s).1 out v)
step_iff m fail k s out v fails = (
  if-cases (λ (f : Io Out). GivesOk f (m s).1 out v → ((m s).0 ≡ sx_ok) × GivesOk k (m s).1 out v)
      (is_ok (m s).0) (λ good e. (is_ok→eq (m s).0 good, e))
      (λ bad e.
        let ret = sym (fails (m s).0 (m s).1) ∙ code_of _ _ _ _ e in
        absurd (ground (arith, sym (ap is_ok ret) ∙ bad))),
  λ h. attempt_ok m fail k s (m s).1 (ap (λ (r : SxErr). (r, (m s).1)) h.0) ∙ h.1,
)

-- A write whose failure ends the call.
pub write_iff :
    (reg : ℕ) (bytes : List ℕ) (fail : SxErr → Io Out) (k : Io Out) (s : Radio) (out : List ℕ × ℕ)
    (v : Radio)
    → s.spi_port.initialized ≡ true
    → ((ret : SxErr) (t : Radio) → (fail ret t).0.0 ≡ ret)
    → GivesOk (attempt (write_reg reg bytes) fail k) s out v
      ↔ ((answer (reg, bytes) s ≡ sx_ok) × GivesOk k (wrote reg bytes s) out v)
write_iff reg bytes fail k s out v on fails =
    subst
      (λ (r : SxErr × Radio).
        GivesOk (attempt (write_reg reg bytes) fail k) s out v
        ↔ ((r.0 ≡ sx_ok) × GivesOk k r.1 out v))
      (write_reg-answer reg bytes s on) (step_iff (write_reg reg bytes) fail k s out v fails)

-- What the platform answers to the read of the FIFO.
abbrev pub fifo_read : List ℕ → ℕ → Radio → SxErr × List ℕ
fifo_read buf n s = s.spi_port.reader s.spi_port.spi_handle 0x00 buf n s.history

module _ (buf : List ℕ) (len : ℕ) where
  -- The call after each of its reads.

  unfoldable pub from_fifo : ℕ → SxErr × List ℕ → Io Out
  from_fifo n r =
      if not (is_ok r.0)
      then skip "couldnt read rx fifo, skipping packet\n" (r.0, (r.1, len))
      else (sx1278_clear_irq >> pure (sx_ok, (r.1, n)))

  unfoldable pub from_address : ℕ → SxErr × ℕ → Io Out
  unfolding from_fifo
  from_address n addr =
      if not (is_ok addr.0)
      then skip "couldnt get rx fifo pointer, skipping packet\n" (addr.0, (buf, len))
      else attempt (write_reg 0x0D (addr.1 ∷ []))
          (λ ret. skip "couldnt set rx fifo pointer, skipping packet\n" (ret, (buf, len)))
          (read_reg 0x00 buf n >>= from_fifo n)

  unfoldable pub from_flags : SxErr × ℕ → Io Out
  unfolding from_address
  from_flags irq =
      if not (is_ok irq.0)
      then pure (irq.0, (buf, len))
      else if bit_and irq.1 0x40 == 0
      then skip "rx read not done\n" (sx_invalid_state, (buf, len))
      else if not (bit_and irq.1 0x20 == 0)
      then skip "rx crc failed, discarding packet\n" (sx_invalid_crc, (buf, len))
      else (read_byte 0x13 0 >>= λ n. read_byte 0x10 0 >>= from_address n.1)

  pub read_steps :
      (s : Radio)
      → sx1278_read_last_payload buf len s
        ≡ attempt
            (write_reg 0x01 (0x81 ∷ []))
            (λ ret. log_err tag "error occured while switching mode" >> pure (ret, (buf, len)))
            (read_byte 0x12 0 >>= from_flags)
            s
  unfolding sx1278_read_last_payload sx1278_switch_mode sx1278_read_irq from_flags
  read_steps s = refl

  pub from_fifo_iff :
      (n : ℕ) (r : SxErr × List ℕ) (s : Radio) (out : List ℕ × ℕ) (v : Radio)
      → s.spi_port.initialized ≡ true
      → GivesOk (from_fifo n r) s out v
        ↔ ((r.0 ≡ sx_ok) × ((out ≡ (r.1, n)) × (v ≡ wrote 0x12 (0xFF ∷ []) s)))
  unfolding from_fifo sx1278_clear_irq
  from_fifo_iff n r s out v on =
      let cleared : (sx1278_clear_irq s).1 ≡ wrote 0x12 (0xFF ∷ []) s =
        ap (λ (x : SxErr × Radio). x.1) (write_reg-answer 0x12 (0xFF ∷ []) s on) in
      let test =
        test_iff (not (is_ok r.0))
          (skip "couldnt read rx fifo, skipping packet\n" (r.0, (r.1, len)))
          (sx1278_clear_irq >> pure (sx_ok, (r.1, n))) s out v (λ bad. ground (arith, bad)) in
      (
        λ e.
            let h = test.0 e in
            (
              ground (arith, h.0),
              (
                sym (ap (λ (x : Out × Radio). x.0.1) h.1),
                sym (ap (λ (x : Out × Radio). x.1) h.1) ∙ cleared,
              ),
            ),
        λ h. test.1 (
          ground (arith, h.0),
          ap₂ (λ (o : List ℕ × ℕ) (t : Radio). ((sx_ok, o), t)) (sym h.1.0) (cleared ∙ sym h.1.1),
        ),
      )

  fifo_at :
      (n : ℕ) (s : Radio)
      → s.spi_port.initialized ≡ true
      → (read_reg 0x00 buf n >>= from_fifo n) s ≡ from_fifo n (fifo_read buf n s) (asked 0x00 n s)
  fifo_at n s on =
      bind_at (read_reg 0x00 buf n) (from_fifo n) s (asked 0x00 n s) (fifo_read buf n s)
        (read_reg-asked 0x00 buf n s on)

  pub from_address_iff :
      (n : ℕ) (addr : SxErr × ℕ) (s : Radio) (out : List ℕ × ℕ) (v : Radio)
      → s.spi_port.initialized ≡ true
      → GivesOk (from_address n addr) s out v ↔ (
          (addr.0 ≡ sx_ok)
          × ((answer (0x0D, addr.1 ∷ []) s ≡ sx_ok)
              × GivesOk
                  (from_fifo n (fifo_read buf n (wrote 0x0D (addr.1 ∷ []) s)))
                  (asked 0x00 n (wrote 0x0D (addr.1 ∷ []) s))
                  out
                  v))
  unfolding from_address
  from_address_iff n addr s out v on =
      let fail : SxErr → Io Out =
        λ ret. skip "couldnt set rx fifo pointer, skipping packet\n" (ret, (buf, len)) in
      let k = read_reg 0x00 buf n >>= from_fifo n in
      let step = write_iff 0x0D (addr.1 ∷ []) fail k s out v on (λ ret t. refl) in
      let test =
        test_iff (not (is_ok addr.0))
          (skip "couldnt get rx fifo pointer, skipping packet\n" (addr.0, (buf, len)))
          (attempt (write_reg 0x0D (addr.1 ∷ [])) fail k) s out v (λ bad. ground (arith, bad)) in
      let same = fifo_at n (wrote 0x0D (addr.1 ∷ []) s) on in
      (
        λ e. let h = test.0 e in let w = step.0 h.1 in (ground (arith, h.0), (w.0, sym same ∙ w.1)),
        λ h. test.1 (ground (arith, h.0), step.1 (h.1.0, same ∙ h.1.1)),
      )
