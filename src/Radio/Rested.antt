-- ===== src/Radio/Rested.antt =====
-- The state between two calls of the driver, as its users see it.
use lora_driver_with_network.Prelude.{◌≡◌, ◌∙◌, length, replicate}
use lora_driver_with_network.Radio.{Radio, Io}
use lora_driver_with_network.Radio.Kept.{Keeps}

-- The static buffers have their sizes, and the receive buffer is empty.
pub record IsRested (s : Radio) : Type 0 where
  pub rx_empty : s.rx_buffer ≡ replicate 255 0
  pub tx_length : length s.tx_buffer ≡ 255

-- The contexts and the settings are the same, and the buffers are at rest.
pub record Rests (a b : Radio) : Type 0 where
  pub spi_port : b.spi_port ≡ a.spi_port
  pub logger : b.logger ≡ a.logger
  pub timer_ctx : b.timer_ctx ≡ a.timer_ctx
  pub lora_bandwidth_hz : b.lora_bandwidth_hz ≡ a.lora_bandwidth_hz
  pub spreading_factor : b.spreading_factor ≡ a.spreading_factor
  pub rested : IsRested b

pub Keeps-Rests : {A : Type 0} (m : Io A) (s : Radio) → Keeps m → IsRested s → Rests s (m s).1
unfolding Keeps
Keeps-Rests m s k r =
    let h = k s in
    record {
      spi_port = h.spi_port;
      logger = h.logger;
      timer_ctx = h.timer_ctx;
      lora_bandwidth_hz = h.lora_bandwidth_hz;
      spreading_factor = h.spreading_factor;
      rested = record { rx_empty = h.rx_empty r.rx_empty; tx_length = h.tx_length ∙ r.tx_length };
    }
