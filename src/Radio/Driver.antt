-- ===== src/Radio/Driver.antt =====
-- Sending and reading a payload, and waiting for an interrupt flag: src/sx127x_driver.c.
-- The wait has no bound in the code but the platform's clock, so it takes fuel, the number of its
-- rounds; `none` is a wait that is not over within the fuel.
pub mod Poll
pub mod Keeping
pub mod Sent
pub mod Accepted
pub mod OnAir
pub mod ReadSteps
pub mod TakenOut
use Prim.Native.Nat.{bit_or, bit_and}
use Prim.Native.String.{String}
use lora_driver_with_network.Prelude.{
  ℕ, zero, suc, ◌-◌, ◌*◌, Bool, true, false, not, Option, none, some, List, [], ◌∷◌, ltb, ◌==◌,
  if◌then◌else◌, take,
}
use lora_driver_with_network.Platform.{
  SxErr, sx_ok, sx_timeout, sx_invalid_state, sx_invalid_crc, is_ok,
}
use lora_driver_with_network.Radio.{
  Radio, Io, pure, ◌>>=◌, ◌>>◌, attempt, finish, ◌>>=?◌, write_reg, read_reg, read_byte, log_err,
  get_time_us, delay_ms,
}
use lora_driver_with_network.Radio.Config.{
  mode_lora, mode_stdby, mode_tx, mode_rx_continuous, mode_sleep, sx1278_switch_mode,
  sx1278_read_irq, sx1278_clear_irq,
}

abbrev tag : String
tag = "sx_1278_driver"

-- The end of a read that failed: the flags are cleared, and that this may fail is not looked at.
abbrev skip : {A : Type 0} → String → A → Io A
skip text r = sx1278_clear_irq >> log_err tag text >> pure r

-- The answer is the returned code, the buffer and `*len`.
unfoldable pub sx1278_read_last_payload : List ℕ → ℕ → Io (SxErr × (List ℕ × ℕ))
sx1278_read_last_payload buf len =
    attempt (sx1278_switch_mode (bit_or mode_lora mode_stdby))
      (λ ret. log_err tag "error occured while switching mode" >> pure (ret, (buf, len)))
      (sx1278_read_irq 0 >>= λ irq.
        if not (is_ok irq.0)
        then pure (irq.0, (buf, len))
        else if bit_and irq.1 0x40 == 0
        then skip "rx read not done\n" (sx_invalid_state, (buf, len))
        else if not (bit_and irq.1 0x20 == 0)
        then skip "rx crc failed, discarding packet\n" (sx_invalid_crc, (buf, len))
        else (read_byte 0x13 0 >>= λ n. read_byte 0x10 0 >>= λ addr.
            if not (is_ok addr.0)
            then skip "couldnt get rx fifo pointer, skipping packet\n" (addr.0, (buf, len))
            else attempt (write_reg 0x0D (addr.1 ∷ []))
                (λ ret. skip "couldnt set rx fifo pointer, skipping packet\n" (ret, (buf, len)))
                (read_reg 0x00 buf n.1 >>= λ r.
                  if not (is_ok r.0)
                  then skip "couldnt read rx fifo, skipping packet\n" (r.0, (r.1, len))
                  else (sx1278_clear_irq >> pure (sx_ok, (r.1, n.1))))))

-- `if (cleanup) { data = 0xFF; write(0x12, &data); }`
unfoldable pub clean : Bool → Io (Unit {0})
clean cleanup = if cleanup then (write_reg 0x12 (0xFF ∷ []) >> pure tt) else pure tt

-- The `while (1)` of the wait; `irq` is the variable that the register is read into.
unfoldable pub poll_rounds : ℕ → ℕ → ℕ → ℕ → Bool → ℕ → ℕ → Io (Option SxErr)
poll_rounds zero timeout_us interval mask cleanup start irq = pure none
poll_rounds (suc fuel) timeout_us interval mask cleanup start irq = read_byte 0x12 irq >>= λ r.
    if not (is_ok r.0)
    then (log_err tag "couldnt read irq register\n" >> clean cleanup >> finish r.0)
    else if not (bit_and r.1 mask == 0)
    then (clean cleanup >> finish sx_ok)
    else (get_time_us >>= λ now.
        if ltb timeout_us (now - start)
        then (clean cleanup >> log_err tag "polling timeout" >> finish sx_timeout)
        else (delay_ms interval >> poll_rounds fuel timeout_us interval mask cleanup start r.1))

unfoldable pub poll_for_irq_flag : ℕ → ℕ → ℕ → ℕ → Bool → Io (Option SxErr)
poll_for_irq_flag fuel timeout_ms poll_interval_ms irq_and_mask cleanup =
    let timeout = if timeout_ms == 0 then 3000 else timeout_ms in
    let interval = if poll_interval_ms == 0 then 2 else poll_interval_ms in
    get_time_us >>= λ start. poll_rounds fuel (timeout * 1000) interval irq_and_mask cleanup start 0

-- `{ network_log_err(...); return ret; }`
abbrev pub give_up : String → String → SxErr → Io (Option SxErr)
give_up tag text ret = log_err tag text >> finish ret

-- The end of a send, by the code of the wait for the flag of a transmission that is done.
unfoldable pub finish_send : Bool → SxErr → Io (Option SxErr)
finish_send switch_to_rx_after_tx ret =
    attempt (pure ret) (give_up tag "failed while polling for irq tx done flag\n") (
      attempt sx1278_clear_irq (give_up tag "couldnt reset irq flags\n") (
        attempt
          (sx1278_switch_mode
            (bit_or mode_lora (if switch_to_rx_after_tx then mode_rx_continuous else mode_sleep)))
          (give_up tag "couldnt put sx1278 in next mode after tx is complete\n") (finish sx_ok)))

unfoldable pub sx1278_send_payload : ℕ → List ℕ → ℕ → Bool → Io (Option SxErr)
unfolding finish_send
sx1278_send_payload fuel buf len switch_to_rx_after_tx =
    attempt (sx1278_switch_mode (bit_or mode_lora mode_stdby))
      (give_up tag "couldnt put sx1278 in standby mode\n")
      (read_byte 0x0E 0 >>= λ addr.
        attempt (pure addr.0) (give_up tag "couldnt set fifo address\n") (
          attempt (write_reg 0x0D (addr.1 ∷ [])) (give_up tag "couldnt set fifo address\n") (
            attempt (write_reg 0x22 (len ∷ [])) (give_up tag "couldnt write packet length\n") (
              attempt (write_reg 0x00 (take len buf))
                (give_up tag "couldnt write packet to tx fifo\n")
                (attempt sx1278_clear_irq (give_up tag "couldnt reset irq flags\n") (
                  attempt (sx1278_switch_mode (bit_or mode_lora mode_tx))
                    (give_up tag "couldnt switch to transmit mode\n")
                    (poll_for_irq_flag fuel 3000 3 8 true
                      >>=? finish_send switch_to_rx_after_tx)))))))
