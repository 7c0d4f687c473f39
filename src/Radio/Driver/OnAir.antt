-- ===== src/Radio/Driver/OnAir.antt =====
-- What SX_OK of `sx1278_send_payload` of src/sx127x_driver.c says, whatever the platform answers.
use Prim.Native.String.{String}
use lora_driver_with_network.Prelude.{
  ℕ, ◌≡◌, ◌↔◌, refl, sym, ap, subst, ◌∙◌, inl, inr, Bool, true, false, Option, some, List, [], ◌∷◌,
  arith, Bool-cases, get_or, take,
}
use lora_driver_with_network.Platform.{SxErr, sx_ok, sx_unit_unitialized}
use lora_driver_with_network.Platform.SpiPort.{SpiPort, spi_burst_write_reg}
use lora_driver_with_network.Radio.{Radio, Io, pure, ◌>>=◌, ◌>>=?◌, attempt, write_reg, read_byte}
use lora_driver_with_network.Radio.Trace.{
  wrote, wrote_all, asked, bind_at, some_at, read_byte-asked,
}
use lora_driver_with_network.Radio.Config.{sx1278_switch_mode, sx1278_clear_irq}
use lora_driver_with_network.Radio.Driver.{
  tag, give_up, poll_for_irq_flag, finish_send, sx1278_send_payload,
}
use lora_driver_with_network.Radio.Kept.{Keeps}
use lora_driver_with_network.Radio.Happened.{some-cases}
use lora_driver_with_network.Radio.Driver.Keeping.{Keeps-poll_for_irq_flag}
use lora_driver_with_network.Radio.Driver.Accepted.{
  ReturnsOk, code_of, Accepted, attempt_iff, write_each, write_each_iff, loading, closing,
  finish_send_iff, Shown, poll_for_irq_flag-Shown,
}

-- The state in which the FIFO's base address is read, and the answer.
abbrev pub at_standby : Radio → Radio
at_standby s = wrote 0x01 (0x81 ∷ []) s

abbrev pub base_read : Radio → SxErr × List ℕ
base_read s = s.spi_port.reader s.spi_port.spi_handle 0x0E (0 ∷ []) 1 (at_standby s).history

-- The writes of a payload of `bytes` with the length `len`, and the state after them.
abbrev pub load : List ℕ → ℕ → Radio → List (ℕ × List ℕ)
load bytes len s = loading (get_or (base_read s).1 0 0) bytes len

abbrev pub after_load : List ℕ → ℕ → Radio → Radio
after_load bytes len s = wrote_all (load bytes len s) (asked 0x0E 1 (at_standby s))

-- The send from `s` put the bytes on the air, and ends in `v`.
pub record Sends (fuel : ℕ) (bytes : List ℕ) (len : ℕ) (rx : Bool) (s v : Radio) : Type 0 where
  pub is_initialized : s.spi_port.initialized ≡ true
  pub standby : Accepted ((0x01, 0x81 ∷ []) ∷ []) s
  pub base_ok : (base_read s).0 ≡ sx_ok
  pub loads : Accepted (load bytes len s) (asked 0x0E 1 (at_standby s))
  pub waited : Radio
  pub waits : ReturnsOk (poll_for_irq_flag fuel 3000 3 8 true) (after_load bytes len s) waited
  pub is_done : Shown 8 (after_load bytes len s) waited
  pub closes : Accepted (closing rx) waited
  pub ends : v ≡ wrote_all (closing rx) waited

abbrev wait : ℕ → Io (Option SxErr)
wait fuel = poll_for_irq_flag fuel 3000 3 8 true

wait-initialized :
    (fuel : ℕ) (s : Radio)
    → s.spi_port.initialized ≡ true
    → (wait fuel s).1.spi_port.initialized ≡ true
unfolding Keeps
wait-initialized fuel s on =
    ap (λ (p : SpiPort). p.initialized) (Keeps-poll_for_irq_flag fuel 3000 3 8 true s).spi_port ∙ on

-- The wait for the end of the transmission succeeded, and what follows it.
abbrev Waited : ℕ → Bool → Radio → Radio → Type 0
Waited fuel rx s v =
    (waited : Radio) × (ReturnsOk (wait fuel) s waited
      × (Accepted (closing rx) waited × (v ≡ wrote_all (closing rx) waited)))

wait_then_iff :
    (fuel : ℕ) (rx : Bool) (s v : Radio)
    → s.spi_port.initialized ≡ true
    → ReturnsOk (wait fuel >>=? finish_send rx) s v ↔ Waited fuel rx s v
wait_then_iff fuel rx s v on = (
  some-cases (λ r. r ≡ (some sx_ok, v) → Waited fuel rx s v) (wait fuel) (finish_send rx) s
      (λ t e. absurd (ground (arith, code_of _ _ _ e)))
      (λ ret h e.
        let end = (finish_send_iff rx ret (wait fuel s).1 v (wait-initialized fuel s on)).0 e in
        (
          (wait fuel s).1,
          (ap (λ (o : Option SxErr). (o, (wait fuel s).1)) (h ∙ ap some end.0), end.1),
        )),
  λ h.
      let still : h.0.spi_port.initialized ≡ true =
        subst (λ (r : Option SxErr × Radio). r.1.spi_port.initialized ≡ true) h.1.0
          (wait-initialized fuel s on) in
      some_at (wait fuel) (finish_send rx) s h.0 sx_ok h.1.0
      ∙ (finish_send_iff rx sx_ok h.0 v still).1 (refl, h.1.1),
)

-- The writes of `load`, with what is logged if one fails.
abbrev load_texts : ℕ → List ℕ → ℕ → List ((ℕ × List ℕ) × String)
load_texts base bytes len =
    ((0x0D, base ∷ []), "couldnt set fifo address\n")
    ∷ ((0x22, len ∷ []), "couldnt write packet length\n")
    ∷ ((0x00, bytes), "couldnt write packet to tx fifo\n")
    ∷ ((0x12, 0xFF ∷ []), "couldnt reset irq flags\n")
    ∷ ((0x01, 0x83 ∷ []), "couldnt switch to transmit mode\n")
    ∷ []

-- The send after the switch to standby.
abbrev from_base : ℕ → List ℕ → ℕ → Bool → SxErr × ℕ → Io (Option SxErr)
from_base fuel bytes len rx addr =
    attempt (pure addr.0) (give_up tag "couldnt set fifo address\n")
      (write_each (load_texts addr.1 bytes len) (wait fuel >>=? finish_send rx))

abbrev standby_text : List ((ℕ × List ℕ) × String)
standby_text = ((0x01, 0x81 ∷ []), "couldnt put sx1278 in standby mode\n") ∷ []

send_steps :
    (fuel : ℕ) (buf : List ℕ) (len : ℕ) (rx : Bool) (s : Radio)
    → sx1278_send_payload fuel buf len rx s
      ≡ write_each standby_text (read_byte 0x0E 0 >>= from_base fuel (take len buf) len rx) s
unfolding sx1278_send_payload sx1278_switch_mode sx1278_clear_irq
send_steps fuel buf len rx s = refl

base_at :
    (fuel : ℕ) (bytes : List ℕ) (len : ℕ) (rx : Bool) (s : Radio)
    → s.spi_port.initialized ≡ true
    → let r = base_read s in
      (read_byte 0x0E 0 >>= from_base fuel bytes len rx) (at_standby s)
      ≡ from_base fuel bytes len rx (r.0, get_or r.1 0 0) (asked 0x0E 1 (at_standby s))
base_at fuel bytes len rx s on =
    let r = base_read s in
    bind_at (read_byte 0x0E 0) (from_base fuel bytes len rx) (at_standby s)
      (asked 0x0E 1 (at_standby s)) (r.0, get_or r.1 0 0) (read_byte-asked 0x0E 0 (at_standby s) on)

-- On a port that was not initialised the first write fails.
send_off :
    (fuel : ℕ) (buf : List ℕ) (len : ℕ) (rx : Bool) (s : Radio)
    → s.spi_port.initialized ≡ false
    → (sx1278_send_payload fuel buf len rx s).0 ≡ some sx_unit_unitialized
unfolding sx1278_send_payload sx1278_switch_mode write_reg spi_burst_write_reg
send_off fuel buf len rx s off = rw off refl

Sends-initialized :
    (fuel : ℕ) (buf : List ℕ) (len : ℕ) (rx : Bool) (s v : Radio)
    → s.spi_port.initialized ≡ true
    → ReturnsOk (sx1278_send_payload fuel buf len rx) s v
    → Sends fuel (take len buf) len rx s v
Sends-initialized fuel buf len rx s v on e =
    let bytes = take len buf in
    let r = base_read s in
    let t = asked 0x0E 1 (at_standby s) in
    let texts = load_texts (get_or r.1 0 0) bytes len in
    let k = wait fuel >>=? finish_send rx in
    let standby =
      (write_each_iff standby_text (read_byte 0x0E 0 >>= from_base fuel bytes len rx) s v on).0
        (sym (send_steps fuel buf len rx s) ∙ e) in
    let base =
      (attempt_iff (pure r.0) "couldnt set fifo address\n" (write_each texts k) t v).0
        (sym (base_at fuel bytes len rx s on) ∙ standby.1) in
    let loaded = (write_each_iff texts k t v on).0 base.1 in
    let end = (wait_then_iff fuel rx (after_load bytes len s) v on).0 loaded.1 in
    record {
      is_initialized = on;
      standby = standby.0;
      base_ok = base.0;
      loads = loaded.0;
      waited = end.0;
      waits = end.1.0;
      is_done =
          subst (λ (r : Option SxErr × Radio). Shown 8 (after_load bytes len s) r.1) end.1.0
            (poll_for_irq_flag-Shown fuel 3000 3 8 true (after_load bytes len s) on
              (code_of _ _ _ end.1.0));
      closes = end.1.1.0;
      ends = end.1.1.1;
    }

-- Whatever the platform answers: the send returns SX_OK, in the state `v`, if and only if every step of
-- it succeeded, in order, from the switch to standby to the mode that follows, and then a read of
-- the flags during the wait showed that the transmission is done.
pub sx1278_send_payload-Sends :
    (fuel : ℕ) (buf : List ℕ) (len : ℕ) (rx : Bool) (s v : Radio)
    → (sx1278_send_payload fuel buf len rx s ≡ (some sx_ok, v))
      ↔ Sends fuel (take len buf) len rx s v
sx1278_send_payload-Sends fuel buf len rx s v = (
  λ e. elim (Bool-cases s.spi_port.initialized) [
    | inl on ↦ Sends-initialized fuel buf len rx s v on e
    | inr off ↦ absurd (ground (arith, sym (send_off fuel buf len rx s off) ∙ code_of _ _ _ e))
  ],
  λ h.
      let bytes = take len buf in
      let r = base_read s in
      let t = asked 0x0E 1 (at_standby s) in
      let texts = load_texts (get_or r.1 0 0) bytes len in
      let k = wait fuel >>=? finish_send rx in
      let on = h.is_initialized in
      let end =
        (wait_then_iff fuel rx (after_load bytes len s) v on).1
          (h.waited, (h.waits, (h.closes, h.ends))) in
      let base =
        (attempt_iff (pure r.0) "couldnt set fifo address\n" (write_each texts k) t v).1
          (h.base_ok, (write_each_iff texts k t v on).1 (h.loads, end)) in
      send_steps fuel buf len rx s
      ∙ (write_each_iff standby_text (read_byte 0x0E 0 >>= from_base fuel bytes len rx) s v on).1
          (h.standby, base_at fuel bytes len rx s on ∙ base),
)
