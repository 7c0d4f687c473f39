-- ===== src/Radio/Driver/Poll.antt =====
-- `poll_for_irq_flag` of src/sx127x_driver.c: what its result says, and that it ends.
use Prim.Native.Nat.{bit_and}
use lora_driver_with_network.Prelude.{
  ℕ, zero, suc, ◌+◌, ◌-◌, ◌*◌, ◌≤◌, ◌<◌, ◌≡◌, ◌≢◌, refl, ap, sym, subst, ◌∙◌, true, false, not,
  Bool, Option, some, [], ◌∷◌, arith, ltb, ltb→lt, ◌==◌, if-cases, if◌then◌else◌, get_or,
}
use lora_driver_with_network.Platform.{
  SxErr, sx_ok, sx_timeout, is_ok, Event, History, clock_read, delayed, spi_read,
}
use lora_driver_with_network.Radio.{
  Radio, Io, get_time_us, delay_ms, read_byte, log_err, ◌>>◌, finish,
}
use lora_driver_with_network.Radio.Cases.{is_ok→eq}
use lora_driver_with_network.Radio.Kept.{Kept, Keeps, Kept-refl, Kept-trans, Kept-history}
use lora_driver_with_network.Radio.Happened.{Happened}
use lora_driver_with_network.Radio.Driver.Keeping.{driver_kept}
use lora_driver_with_network.Radio.Trace.{asked, read_byte-asked}
use lora_driver_with_network.Radio.Driver.{tag, clean, poll_rounds, poll_for_irq_flag}

-- A clock does not go back, and a delay takes at least as long as it was asked to.
pub record IsClock (timer : History → ℕ) : Type 0 where
  pub no_way_back : (e : Event) (h : History) → timer h ≤ timer (e ∷ h)
  pub delay_lasts : (ms : ℕ) (h : History) → timer h + ms * 1000 ≤ timer (delayed ms ∷ h)

-- Why the wait ended in the run from `s` to `t`: a read of the register showed a flag of the mask; or the
-- last read showed none, and a look at the clock then found that the time was up; or the register
-- could not be read.
pub data Ended (timeout_us mask start : ℕ) (s t : Radio) : SxErr → Type 0 where
  flagged :
      (old irq : ℕ)
      → Happened (read_byte 0x12 old) (sx_ok, irq) s t
      → bit_and irq mask ≢ 0
      → Ended timeout_us mask start s t sx_ok
  expired :
      (old irq now : ℕ) (u : Radio)
      → Happened (read_byte 0x12 old) (sx_ok, irq) s u
      → bit_and irq mask ≡ 0
      → Happened get_time_us now u t
      → timeout_us < now - start
      → Ended timeout_us mask start s t sx_timeout
  failed :
      (old irq : ℕ) (ret : SxErr)
      → Happened (read_byte 0x12 old) (ret, irq) s t
      → is_ok ret ≡ false
      → Ended timeout_us mask start s t ret

-- The wait is over, for one of the three reasons.
abbrev pub Decided : ℕ → ℕ → ℕ → Radio → Option SxErr × Radio → Type 0
Decided timeout_us mask start s r =
    (ret : SxErr) × (r.0 ≡ some ret) × Ended timeout_us mask start s r.1 ret

-- The states after the reads and the delay of a round.
abbrev pub timed : Radio → Radio
timed s = record s { history = clock_read ∷ s.history }

abbrev pub later : ℕ → Radio → Radio
later ms s = record s { history = delayed ms ∷ s.history }

pub Kept-asked : (reg len : ℕ) (s : Radio) → Kept s (asked reg len s)
Kept-asked reg len s =
    Kept-history s (asked reg len s).history (spi_read s.spi_port.spi_handle reg len ∷ [], refl)

pub Kept-timed : (s : Radio) → Kept s (timed s)
Kept-timed s = Kept-history s (timed s).history (clock_read ∷ [], refl)

pub Kept-later : (ms : ℕ) (s : Radio) → Kept s (later ms s)
Kept-later ms s = Kept-history s (later ms s).history (delayed ms ∷ [], refl)

-- A read of the flags that succeeded or not, in a run that goes on.
pub looked :
    (old : ℕ) (ret : SxErr) (s u t : Radio)
    → u.spi_port.initialized ≡ true
    → let r = u.spi_port.reader u.spi_port.spi_handle 0x12 (old ∷ []) 1 u.history in
      r.0 ≡ ret
      → Kept s u
      → Kept (asked 0x12 1 u) t
      → Happened (read_byte 0x12 old) (ret, get_or r.1 0 old) s t
looked old ret s u t on e k more =
    let read = read_byte-asked 0x12 old u on in
    record {
      at = u;
      from_start = k;
      returned =
          ap (λ (x : (SxErr × ℕ) × Radio). x.0) read
          ∙ ap
              (λ (x : SxErr). (
                x,
                get_or (u.spi_port.reader u.spi_port.spi_handle 0x12 (old ∷ []) 1 u.history).1 0
                    old,
              ))
              e;
      to_end =
          subst (λ (x : Radio). Kept x t) (sym (ap (λ (x : (SxErr × ℕ) × Radio). x.1) read)) more;
    }

product : (n x : ℕ) → 0 < n → (suc n - 1) * x ≡ (n - 1) * x + x
product zero x h = absurd (omega arith)
product (suc n) x h =
    let outer : suc (suc n) - 1 ≡ suc n = omega arith in
    let inner : suc n - 1 ≡ n = omega arith in rw outer (rw inner (grind arith))

ltb-false→le : (a b : ℕ) → ltb a b ≡ false → b ≤ a
ltb-false→le a b h = ground arith

-- A round that is not the last leaves fuel.
left_over :
    (n x a b timeout_us start : ℕ)
    → timeout_us + start < a + (suc n - 1) * x
    → b - start ≤ timeout_us
    → a ≤ b
    → 0 < n
left_over zero x a b timeout_us start late not_up passed = absurd (omega arith)
left_over (suc n) x a b timeout_us start late not_up passed = omega arith

module _ (timeout_us interval mask start : ℕ) (cleanup : Bool) (s : Radio) where
  pub poll_rounds-Decided :
      (n : ℕ) (u : Radio) (irq : ℕ)
      → Kept s u
      → IsClock u.timer_ctx.timer
      → u.spi_port.initialized ≡ true
      → 0 < n
      → timeout_us + start < u.timer_ctx.timer u.history + (n - 1) * (interval * 1000)
      → Decided timeout_us mask start s (poll_rounds n timeout_us interval mask cleanup start irq u)
  unfolding poll_rounds get_time_us delay_ms Keeps
  poll_rounds-Decided zero u irq k clock on some_fuel late = absurd (omega arith)
  poll_rounds-Decided (suc n) u irq k clock on some_fuel late =
      let r = u.spi_port.reader u.spi_port.spi_handle 0x12 (irq ∷ []) 1 u.history in
      let read = asked 0x12 1 u in
      let time = timed read in
      let next = later interval time in
      let unread : Keeps
          (log_err tag "couldnt read irq register\n" >> clean cleanup >> finish r.0) =
        search driver_kept in
      let shown : Keeps (clean cleanup >> finish sx_ok) = search driver_kept in
      let up : Keeps (clean cleanup >> log_err tag "polling timeout" >> finish sx_timeout) =
        search driver_kept in
      simp (read_byte-asked, on)
        (if-cases (λ (m : Io (Option SxErr)). Done (m read)) (not (is_ok r.0))
          (λ bad. (
            r.0,
            refl,
            failed irq (get_or r.1 0 irq) r.0 (looked irq r.0 s u _ on refl k (unread read))
                (ground arith),
          ))
          λ good.
            if-cases (λ (m : Io (Option SxErr)). Done (m read))
              (not (bit_and (get_or r.1 0 irq) mask == 0))
              (λ flag. (
                sx_ok,
                refl,
                flagged irq (get_or r.1 0 irq)
                    (looked irq sx_ok s u _ on (is_ok→eq r.0 (ground arith)) k (shown read))
                    (λ e. ground arith),
              ))
              λ unset.
                if-cases (λ (m : Io (Option SxErr)). Done (m time))
                  (ltb timeout_us (u.timer_ctx.timer read.history - start))
                  (λ over. (
                    sx_timeout,
                    refl,
                    expired irq (get_or r.1 0 irq) (u.timer_ctx.timer read.history) read
                        (looked irq sx_ok s u read on (is_ok→eq r.0 (ground arith)) k
                          (Kept-refl read))
                        (ground arith)
                        (record {
                          at = read;
                          from_start = Kept-refl read;
                          returned = refl;
                          to_end = up time;
                        })
                        (ltb→lt _ _ over),
                  ))
                  λ early.
                    let not_up : u.timer_ctx.timer read.history - start ≤ timeout_us =
                      ltb-false→le _ _ early in
                    let passed : u.timer_ctx.timer u.history ≤ u.timer_ctx.timer read.history =
                      clock.no_way_back _ u.history in
                    let again : u.timer_ctx.timer read.history ≤ u.timer_ctx.timer time.history =
                      clock.no_way_back _ read.history in
                    let waited : u.timer_ctx.timer time.history + interval * 1000
                        ≤ u.timer_ctx.timer next.history =
                      clock.delay_lasts interval time.history in
                    let more : 0 < n =
                      left_over n (interval * 1000) _ _ timeout_us start late not_up passed in
                    poll_rounds-Decided n next (get_or r.1 0 irq)
                      (Kept-trans s time next
                        (Kept-trans s read time (Kept-trans s u read k (Kept-asked 0x12 1 u))
                          (Kept-timed read))
                        (Kept-later interval time))
                      clock on more (omega (arith, product n (interval * 1000) more)))
    where
      Done : Option SxErr × Radio → Type 0
      Done r = Decided timeout_us mask start s r

scale : (t n i : ℕ) → t < n * i → t * 1000 < n * (i * 1000)
scale t n i h = grind arith

-- The two arguments that are 0 stand for the code's defaults.
abbrev pub or_default : ℕ → ℕ → ℕ
or_default given default = if given == 0 then default else given

-- With a clock that does not go back, and that a delay moves on by what was asked, the wait ends within
-- as many rounds as intervals fit in the timeout, and two more; and it ends because a read of the
-- register during the wait showed the flag (SX_OK), or because a read showed no flag and the clock,
-- read after that, was more than the timeout past the start (SX_TIMEOUT), or because a read of the
-- register failed (its code).
pub poll_for_irq_flag-Decided :
    (fuel timeout_ms poll_interval_ms mask : ℕ) (cleanup : Bool) (s : Radio)
    → IsClock s.timer_ctx.timer
    → s.spi_port.initialized ≡ true
    → 0 < fuel
    → or_default timeout_ms 3000 < (fuel - 1) * or_default poll_interval_ms 2
    → Decided
        (or_default timeout_ms 3000 * 1000)
        mask
        (s.timer_ctx.timer s.history)
        s
        (poll_for_irq_flag fuel timeout_ms poll_interval_ms mask cleanup s)
unfolding poll_for_irq_flag get_time_us
poll_for_irq_flag-Decided fuel timeout_ms poll_interval_ms mask cleanup s clock on some_fuel
      enough =
    let timeout = or_default timeout_ms 3000 in
    let interval = or_default poll_interval_ms 2 in
    let scaled : timeout * 1000 < (fuel - 1) * (interval * 1000) =
      scale timeout (fuel - 1) interval enough in
    let passed : s.timer_ctx.timer s.history ≤ s.timer_ctx.timer (clock_read ∷ s.history) =
      clock.no_way_back clock_read s.history in
    poll_rounds-Decided (timeout * 1000) interval mask (s.timer_ctx.timer s.history) cleanup s fuel
      (timed s) 0 (Kept-timed s) clock on some_fuel (omega arith)
