-- ===== src/Examples/Burst/App.antt =====
-- The start of examples/esp32c3_6/burst/main/main.c: `app_task`.
use lora_driver_with_network.Prelude.{ℕ, Bool, if◌then◌else◌}
use lora_driver_with_network.RxHandler.{RxHandlerCtx}
use lora_driver_with_network.Platform.{SxErr, History}
use lora_driver_with_network.Platform.Timer.{sx127x_timer_init}
use lora_driver_with_network.Radio.{Io, pure, attempt}
use lora_driver_with_network.Radio.Config.{initialize_sx_1278}
use lora_driver_with_network.Examples.Spi.{Idf}
use lora_driver_with_network.Examples.Spi.Port.{lora_port, no_logger}
use lora_driver_with_network.Examples.Burst.Receiver.{run_receiver}

-- What `app_task` starts: nothing after a failure, whose code it prints, or a task for its role.
pub data Started : Type 0 where
  init_failed : SxErr → Started
  sender_started : Started
  receiver_started : RxHandlerCtx → Started

-- After `spi_init`, which gave the handle. The role is a setting of the build.
unfoldable pub app_task : Bool → Idf → ℕ → (History → ℕ) → Io Started
unfolding run_receiver
app_task is_sender idf spi_handle get_time_us =
    attempt
      (initialize_sx_1278 (lora_port idf spi_handle) no_logger (sx127x_timer_init get_time_us))
      (λ ret. pure (init_failed ret))
      (pure (if is_sender then sender_started else receiver_started run_receiver))
