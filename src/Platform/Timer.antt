-- ===== src/Platform/Timer.antt =====
-- The timer: src/sx127x_timer.c and include/sx127x_timer.h. The timer answers with microseconds,
-- which are not negative.
use lora_driver_with_network.Prelude.{ℕ, Bool, true, ◌∷◌}
use lora_driver_with_network.Platform.{History, clock_read, delayed}

-- The delayer gives no answer, so the field that holds it shows only in the events.
pub record TimerCtx : Type 0 where
  pub timer : History → ℕ
  pub configured : Bool

unfoldable pub sx127x_timer_init : (History → ℕ) → TimerCtx
sx127x_timer_init timer = record { timer = timer; configured = true }

unfoldable pub sx127x_timer_get_time_us : TimerCtx → History → ℕ × History
sx127x_timer_get_time_us ctx h = (ctx.timer h, clock_read ∷ h)

unfoldable pub sx127x_task_delay_ms : TimerCtx → ℕ → History → History
sx127x_task_delay_ms ctx delay_ms h = delayed delay_ms ∷ h
