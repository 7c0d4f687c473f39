-- ===== src/Radio/Driver/Keeping.antt =====
-- The functions of src/sx127x_driver.c and the small ones of src/sx127x_config.c keep the setup, whatever the
-- platform answers.
use lora_driver_with_network.Prelude.{ℕ, zero, suc, Bool, List}
use Prim.Native.String.{String}
use lora_driver_with_network.Platform.{SxErr}
use lora_driver_with_network.Radio.Kept.{Keeps, kept}
use lora_driver_with_network.Radio.Config.{sx1278_switch_mode, sx1278_read_irq, sx1278_clear_irq}
use lora_driver_with_network.Radio.Driver.{
  give_up, clean, poll_rounds, poll_for_irq_flag, sx1278_send_payload, sx1278_read_last_payload,
}

pub Keeps-switch_mode : (mode : ℕ) → Keeps (sx1278_switch_mode mode)
unfolding sx1278_switch_mode
Keeps-switch_mode mode = search kept

pub Keeps-clear_irq : Keeps sx1278_clear_irq
unfolding sx1278_clear_irq
Keeps-clear_irq = search kept

pub Keeps-read_irq : (irq : ℕ) → Keeps (sx1278_read_irq irq)
unfolding sx1278_read_irq
Keeps-read_irq irq = search kept

pub Keeps-clean : (cleanup : Bool) → Keeps (clean cleanup)
unfolding clean
Keeps-clean cleanup = search kept

pub Keeps-poll_rounds :
    (fuel t i mask : ℕ) (cleanup : Bool) (start irq : ℕ)
    → Keeps (poll_rounds fuel t i mask cleanup start irq)
unfolding poll_rounds
Keeps-poll_rounds zero t i mask cleanup start irq = search kept
Keeps-poll_rounds (suc fuel) t i mask cleanup start irq =
    search (kept, Keeps-clean, Keeps-poll_rounds fuel t i mask cleanup start) depth 20

pub Keeps-poll_for_irq_flag :
    (fuel timeout interval mask : ℕ) (cleanup : Bool)
    → Keeps (poll_for_irq_flag fuel timeout interval mask cleanup)
unfolding poll_for_irq_flag
Keeps-poll_for_irq_flag fuel timeout interval mask cleanup =
    search (kept, Keeps-poll_rounds) depth 20

pub ruleset driver_kept =
    (kept, Keeps-switch_mode, Keeps-clear_irq, Keeps-read_irq, Keeps-clean, Keeps-poll_for_irq_flag)

pub Keeps-give_up : (tag text : String) (ret : SxErr) → Keeps (give_up tag text ret)
Keeps-give_up tag text ret = search kept

pub Keeps-send_payload :
    (fuel : ℕ) (buf : List ℕ) (len : ℕ) (rx : Bool) → Keeps (sx1278_send_payload fuel buf len rx)
unfolding sx1278_send_payload
Keeps-send_payload fuel buf len rx = search (Keeps-give_up, driver_kept) depth 40 fits 20000

pub Keeps-read_last_payload : (buf : List ℕ) (len : ℕ) → Keeps (sx1278_read_last_payload buf len)
unfolding sx1278_read_last_payload
Keeps-read_last_payload buf len = search driver_kept depth 40
