-- ===== src/Radio/Driver/Sent.antt =====
-- What `sx1278_send_payload` of src/sx127x_driver.c asks of the platform when all goes well.
use Prim.Native.Nat.{bit_and}
use lora_driver_with_network.Prelude.{
  ℕ, suc, ◌≡◌, ◌≢◌, ap, ◌∙◌, Bool, true, false, Option, none, some, List, [], ◌∷◌, ==-false, get_or,
  take, if◌then◌else◌,
}
use lora_driver_with_network.Platform.{SxErr, sx_ok, clock_read}
use lora_driver_with_network.Radio.{Radio, Io, pure, ◌>>=?◌, get_time_us}
use lora_driver_with_network.Radio.Trace.{
  Accepts, Reads, wrote, wrote_all, asked, accepted, write_reg-Accepts, switch_mode-Accepts,
  read_byte-Reads, clear_irq-Accepts,
}
use lora_driver_with_network.Radio.Driver.{
  clean, poll_rounds, poll_for_irq_flag, finish_send, sx1278_send_payload,
}

-- The state after the clock was read.
abbrev pub timed : Radio → Radio
timed s = record s { history = clock_read ∷ s.history }

poll-flagged :
    (g : ℕ → List ℕ) (fuel timeout interval mask : ℕ) (s : Radio)
    → Accepts s.spi_port
    → Reads g s.spi_port
    → bit_and (get_or (g 0x12) 0 0) mask ≢ 0
    → poll_for_irq_flag (suc fuel) timeout interval mask true s
      ≡ (some sx_ok, wrote 0x12 (0xFF ∷ []) (asked 0x12 1 (timed s)))
unfolding poll_for_irq_flag poll_rounds get_time_us clean
poll-flagged g fuel timeout interval mask s a reads flag =
    simp (accepted, read_byte-Reads g, ==-false (bit_and (get_or (g 0x12) 0 0) mask) 0 flag)

some_next :
    (m : Io (Option SxErr)) (f : SxErr → Io (Option SxErr)) (s t : Radio) (e : SxErr)
    → m s ≡ (some e, t)
    → (m >>=? f) s ≡ f e t
some_next m f s t e h =
    ap
      (λ (r : Option SxErr × Radio).
        (elim r.0 as (λ _. Io (Option SxErr)) [ none ↦ pure none | some a ↦ f a ]) r.1)
      h

finish_send-sent :
    (rx : Bool) (s : Radio)
    → Accepts s.spi_port
    → finish_send rx sx_ok s
      ≡ (some sx_ok, wrote 0x01 ((if rx then 0x85 else 0x80) ∷ []) (wrote 0x12 (0xFF ∷ []) s))
unfolding finish_send
finish_send-sent true s a = simp (accepted, clear_irq-Accepts)
finish_send-sent false s a = simp (accepted, clear_irq-Accepts)

-- The registers before the transmission, and after it.
abbrev pub loaded : ℕ → List ℕ → ℕ → Radio → Radio
loaded base bytes len s =
    wrote_all
      ((0x0D, base ∷ [])
        ∷ (0x22, len ∷ [])
        ∷ (0x00, bytes)
        ∷ (0x12, 0xFF ∷ [])
        ∷ (0x01, 0x83 ∷ [])
        ∷ [])
      (asked 0x0E 1 (wrote 0x01 (0x81 ∷ []) s))

abbrev pub sent : Bool → Radio → Radio
sent rx s =
    wrote_all
      ((0x12, 0xFF ∷ []) ∷ (0x12, 0xFF ∷ []) ∷ (0x01, (if rx then 0x85 else 0x80) ∷ []) ∷ [])
      (asked 0x12 1 (timed s))

-- With a port that accepts writes, and whose reads report that the transmission is done: the send
-- returns SX_OK, and what it asks of the platform is, in order: standby, the FIFO's base address as its
-- pointer, the length, the bytes, the flags cleared, transmission, one look at the clock and the
-- flags, the flags cleared twice, and the mode that follows.
pub sx1278_send_payload-sent :
    (g : ℕ → List ℕ) (fuel : ℕ) (buf : List ℕ) (len : ℕ) (rx : Bool) (s : Radio)
    → Accepts s.spi_port
    → Reads g s.spi_port
    → bit_and (get_or (g 0x12) 0 0) 8 ≢ 0
    → sx1278_send_payload (suc fuel) buf len rx s
      ≡ (some sx_ok, sent rx (loaded (get_or (g 0x0E) 0 0) (take len buf) len s))
unfolding sx1278_send_payload
sx1278_send_payload-sent g fuel buf len rx s a reads flag =
    let base = get_or (g 0x0E) 0 0 in
    let ready = asked 0x0E 1 (wrote 0x01 (0x81 ∷ []) s) in
    let at_base = wrote 0x0D (base ∷ []) ready in
    let with_length = wrote 0x22 (len ∷ []) at_base in
    let filled = wrote 0x00 (take len buf) with_length in
    let cleared = wrote 0x12 (0xFF ∷ []) filled in
    let started = wrote 0x01 (0x83 ∷ []) cleared in
    rw
      (
        switch_mode-Accepts 0x81 s a,
        read_byte-Reads g 0x0E 0 (wrote 0x01 (0x81 ∷ []) s) reads,
        write_reg-Accepts 0x0D (base ∷ []) ready a,
        write_reg-Accepts 0x22 (len ∷ []) at_base a,
        write_reg-Accepts 0x00 (take len buf) with_length a,
        clear_irq-Accepts filled a,
        switch_mode-Accepts 0x83 cleared a,
      )
      (some_next (poll_for_irq_flag (suc fuel) 3000 3 8 true) (finish_send rx) started
          (wrote 0x12 (0xFF ∷ []) (asked 0x12 1 (timed started))) sx_ok
          (poll-flagged g fuel 3000 3 8 started a reads flag)
        ∙ finish_send-sent rx (wrote 0x12 (0xFF ∷ []) (asked 0x12 1 (timed started))) a)
