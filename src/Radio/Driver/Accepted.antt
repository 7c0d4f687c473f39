-- ===== src/Radio/Driver/Accepted.antt =====
-- When the steps of `sx1278_send_payload` of src/sx127x_driver.c succeed, whatever the platform
-- answers.
use Prim.Native.Nat.{bit_or, bit_and}
use Prim.Native.String.{String}
use lora_driver_with_network.Prelude.{
  ℕ, zero, suc, ◌-◌, ◌≡◌, ◌≢◌, ◌↔◌, sym, ap, subst, ◌∙◌, Bool, true, not, Option, some, List, [],
  ◌∷◌, arith, ltb, ◌==◌, if◌then◌else◌, if-cases, get_or,
}
use lora_driver_with_network.Platform.{SxErr, sx_ok, is_ok}
use lora_driver_with_network.Radio.{
  Radio, Io, ◌>>◌, read_byte, pure, attempt, finish, write_reg, get_time_us, delay_ms,
}
use lora_driver_with_network.Radio.Cases.{is_ok→eq}
use lora_driver_with_network.Radio.Trace.{
  wrote, wrote_all, answer, write_reg-answer, asked, attempt_ok, read_byte-asked,
}
use lora_driver_with_network.Radio.Config.{
  mode_lora, mode_rx_continuous, mode_sleep, sx1278_switch_mode, sx1278_clear_irq,
}
use lora_driver_with_network.Radio.Happened.{Happened}
use lora_driver_with_network.Radio.Kept.{Kept, Keeps, Kept-trans}
use lora_driver_with_network.Radio.Driver.Keeping.{driver_kept}
use lora_driver_with_network.Radio.Driver.Poll.{
  timed, later, looked, Kept-asked, Kept-timed, Kept-later,
}
use lora_driver_with_network.Radio.Driver.{
  clean, tag, give_up, poll_rounds, poll_for_irq_flag, finish_send,
}

-- The call returned SX_OK, in the state `v`.
abbrev pub ReturnsOk : Io (Option SxErr) → Radio → Radio → Type 0
ReturnsOk m s v = m s ≡ (some sx_ok, v)

pub code_of : (r : Option SxErr × Radio) (o : Option SxErr) (v : Radio) → r ≡ (o, v) → r.0 ≡ o
code_of r o v e = ap (λ (x : Option SxErr × Radio). x.0) e

-- The platform accepts these writes, one after the other.
abbrev pub Accepted : List (ℕ × List ℕ) → Radio → Type 0
Accepted [] s = Unit {0}
Accepted (w ∷ ws) s = (answer w s ≡ sx_ok) × Accepted ws (wrote w.0 w.1 s)

pub attempt_iff :
    (m : Io SxErr) (text : String) (k : Io (Option SxErr)) (s v : Radio)
    → ReturnsOk (attempt m (give_up tag text) k) s v ↔ (((m s).0 ≡ sx_ok) × ReturnsOk k (m s).1 v)
attempt_iff m text k s v = (
  if-cases
      (λ (f : Io (Option SxErr)). ReturnsOk f (m s).1 v → ((m s).0 ≡ sx_ok) × ReturnsOk k (m s).1 v)
      (is_ok (m s).0) (λ good e. (is_ok→eq (m s).0 good, e))
      (λ bad e. absurd (ground (arith, bad, code_of _ _ _ e))),
  λ h. attempt_ok m (give_up tag text) k s (m s).1 (ap (λ (r : SxErr). (r, (m s).1)) h.0) ∙ h.1,
)

-- Several writes, each with what is logged if it fails, and what follows them.
abbrev pub write_each : List ((ℕ × List ℕ) × String) → Io (Option SxErr) → Io (Option SxErr)
write_each [] k = k
write_each (w ∷ ws) k = attempt (write_reg w.0.0 w.0.1) (give_up tag w.1) (write_each ws k)

abbrev pub writes_of : List ((ℕ × List ℕ) × String) → List (ℕ × List ℕ)
writes_of [] = []
writes_of (w ∷ ws) = w.0 ∷ writes_of ws

pub write_each_iff :
    (ws : List ((ℕ × List ℕ) × String)) (k : Io (Option SxErr)) (s v : Radio)
    → s.spi_port.initialized ≡ true
    → ReturnsOk (write_each ws k) s v
      ↔ (Accepted (writes_of ws) s × ReturnsOk k (wrote_all (writes_of ws) s) v)
write_each_iff [] k s v on = (λ e. (tt, e), λ h. h.1)
write_each_iff (w ∷ ws) k s v on =
    let t = wrote w.0.0 w.0.1 s in
    let rest = write_each_iff ws k t v on in
    let first =
      subst
        (λ (r : SxErr × Radio).
          ReturnsOk (write_each (w ∷ ws) k) s v
          ↔ ((r.0 ≡ sx_ok) × ReturnsOk (write_each ws k) r.1 v))
        (write_reg-answer w.0.0 w.0.1 s on)
        (attempt_iff (write_reg w.0.0 w.0.1) w.1 (write_each ws k) s v) in
    (
      λ e. let h = first.0 e in let more = rest.0 h.1 in ((h.0, more.0), more.1),
      λ h. first.1 (h.0.0, rest.1 (h.0.1, h.1)),
    )

-- What is written before the transmission, and after it.
abbrev pub loading : ℕ → List ℕ → ℕ → List (ℕ × List ℕ)
loading base bytes len =
    (0x0D, base ∷ [])
    ∷ (0x22, len ∷ [])
    ∷ (0x00, bytes)
    ∷ (0x12, 0xFF ∷ [])
    ∷ (0x01, 0x83 ∷ [])
    ∷ []

abbrev pub closing : Bool → List (ℕ × List ℕ)
closing rx =
    (0x12, 0xFF ∷ [])
    ∷ (0x01, bit_or mode_lora (if rx then mode_rx_continuous else mode_sleep) ∷ [])
    ∷ []

pub finish_send_iff :
    (rx : Bool) (ret : SxErr) (s v : Radio)
    → s.spi_port.initialized ≡ true
    → ReturnsOk (finish_send rx ret) s v
      ↔ ((ret ≡ sx_ok) × (Accepted (closing rx) s × (v ≡ wrote_all (closing rx) s)))
unfolding finish_send sx1278_clear_irq sx1278_switch_mode
finish_send_iff rx ret s v on =
    let texts : List ((ℕ × List ℕ) × String) =
      ((0x12, 0xFF ∷ []), "couldnt reset irq flags\n")
      ∷ (
        (0x01, bit_or mode_lora (if rx then mode_rx_continuous else mode_sleep) ∷ []),
        "couldnt put sx1278 in next mode after tx is complete\n",
      )
      ∷ [] in
    let rest = write_each_iff texts (finish sx_ok) s v on in
    let first =
      attempt_iff (pure ret) "failed while polling for irq tx done flag\n"
        (write_each texts (finish sx_ok)) s v in
    (
      λ e.
          let h = first.0 e in
          let more = rest.0 h.1 in
          (h.0, (more.0, sym (ap (λ (x : Option SxErr × Radio). x.1) more.1))),
      λ h. first.1 (h.0, rest.1 (h.1.0, ap (λ (t : Radio). (some sx_ok, t)) (sym h.1.1))),
    )

-- In the run from `s` to `t` a read of the flags succeeded, and showed one of the mask.
abbrev pub Shown : ℕ → Radio → Radio → Type 0
Shown mask s t =
    (old : ℕ) × (irq : ℕ) × (Happened (read_byte 0x12 old) (sx_ok, irq) s t)
    × (bit_and irq mask ≢ 0)

module _ (timeout_us interval mask start : ℕ) (cleanup : Bool) (s : Radio) where
  poll_rounds-Shown :
      (n irq : ℕ) (u : Radio)
      → Kept s u
      → u.spi_port.initialized ≡ true
      → let r = poll_rounds n timeout_us interval mask cleanup start irq u in
        r.0 ≡ some sx_ok → Shown mask s r.1
  unfolding poll_rounds get_time_us delay_ms Keeps
  poll_rounds-Shown zero irq u k on = λ e. absurd (ground (arith, e))
  poll_rounds-Shown (suc n) irq u k on =
      let r = u.spi_port.reader u.spi_port.spi_handle 0x12 (irq ∷ []) 1 u.history in
      let read = asked 0x12 1 u in
      let time = timed read in
      let next = later interval time in
      let shown : Keeps (clean cleanup >> finish sx_ok) = search driver_kept in
      simp (read_byte-asked, on)
        (if-cases (λ (m : Io (Option SxErr)). Says (m read)) (not (is_ok r.0))
          (λ bad e. absurd (ground (arith, bad, e)))
          λ good.
            if-cases (λ (m : Io (Option SxErr)). Says (m read))
              (not (bit_and (get_or r.1 0 irq) mask == 0))
              (λ flag e. (
                irq,
                get_or r.1 0 irq,
                looked irq sx_ok s u _ on (is_ok→eq r.0 (ground arith)) k (shown read),
                λ z. ground arith,
              ))
              λ unset.
                if-cases (λ (m : Io (Option SxErr)). Says (m time))
                  (ltb timeout_us (u.timer_ctx.timer read.history - start))
                  (λ up e. absurd (ground (arith, e)))
                  (λ early.
                    poll_rounds-Shown n (get_or r.1 0 irq) next
                      (Kept-trans s time next
                        (Kept-trans s read time (Kept-trans s u read k (Kept-asked 0x12 1 u))
                          (Kept-timed read))
                        (Kept-later interval time))
                      on))
    where
      Says : Option SxErr × Radio → Type 0
      Says r = r.0 ≡ some sx_ok → Shown mask s r.1

-- Whatever the platform answers: SX_OK from the wait says that a read of the flags during the wait
-- showed one of the mask.
pub poll_for_irq_flag-Shown :
    (fuel timeout_ms poll_interval_ms mask : ℕ) (cleanup : Bool) (s : Radio)
    → s.spi_port.initialized ≡ true
    → let r = poll_for_irq_flag fuel timeout_ms poll_interval_ms mask cleanup s in
      r.0 ≡ some sx_ok → Shown mask s r.1
unfolding poll_for_irq_flag get_time_us
poll_for_irq_flag-Shown fuel timeout_ms poll_interval_ms mask cleanup s on =
    poll_rounds-Shown _ _ mask _ cleanup s fuel 0 (timed s) (Kept-timed s) on
