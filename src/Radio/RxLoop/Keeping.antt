-- ===== src/Radio/RxLoop/Keeping.antt =====
-- The receive loop keeps the setup of the driver, whatever the platform answers.
use lora_driver_with_network.Prelude.{ℕ, zero, suc, Option, none, some}
use lora_driver_with_network.Packet.{Packet}
use lora_driver_with_network.Platform.{SxErr}
use lora_driver_with_network.RxHandler.{RxHandlerCtx}
use lora_driver_with_network.Radio.{Radio, Io}
use lora_driver_with_network.Radio.Rested.{IsRested, Rests, Keeps-Rests}
use lora_driver_with_network.Radio.Kept.{Keeps, kept}
use lora_driver_with_network.Radio.Driver.Keeping.{driver_kept}
use lora_driver_with_network.Radio.Utils.Keeping.{
  Keeps-poll_rounds_for_ever, Keeps-read_last_packet, Keeps-send_packet,
}
use lora_driver_with_network.Radio.RxLoop.{
  Round, stop, again, deliver, Served, after_ack, acknowledge, after_read, rx_round, serve,
  rx_rounds, start_rx_loop,
}

pub Keeps-after_ack : (p : Packet) (ret : SxErr) → Keeps (after_ack p ret)
unfolding after_ack
Keeps-after_ack p ret = search kept

Keeps-acknowledge : (fuel : ℕ) (p : Packet) (ack : Option Packet) → Keeps (acknowledge fuel p ack)
unfolding acknowledge
Keeps-acknowledge fuel p none = search kept
Keeps-acknowledge fuel p (some ack) = search (Keeps-after_ack, Keeps-send_packet, kept)

Keeps-after_read : (fuel : ℕ) (r : SxErr × Packet) → Keeps (after_read fuel r)
unfolding after_read
Keeps-after_read fuel r = search (Keeps-acknowledge, kept)

pub Keeps-rx_round : (fuel : ℕ) → Keeps (rx_round fuel)
unfolding rx_round
Keeps-rx_round fuel =
    search (Keeps-after_read, Keeps-read_last_packet, Keeps-poll_rounds_for_ever, driver_kept) depth
      30 fits 20000

Keeps-serve :
    (next : RxHandlerCtx → Io Served) (handler : RxHandlerCtx) (o : Option Round)
    → ((h : RxHandlerCtx) → Keeps (next h))
    → Keeps (serve next handler o)
unfolding serve
Keeps-serve next handler none h = search kept
Keeps-serve next handler (some (stop ret)) h = search kept
Keeps-serve next handler (some again) h = h handler
Keeps-serve next handler (some (deliver p)) h = search (h, kept)

Keeps-rx_rounds : (fuel n : ℕ) (handler : RxHandlerCtx) → Keeps (rx_rounds fuel n handler)
unfolding rx_rounds
Keeps-rx_rounds fuel zero handler = search kept
Keeps-rx_rounds fuel (suc n) handler =
    search (Keeps-serve (rx_rounds fuel n) handler, Keeps-rx_rounds fuel n, Keeps-rx_round, kept)

Keeps-start_rx_loop : (fuel n : ℕ) (handler : RxHandlerCtx) → Keeps (start_rx_loop fuel n handler)
unfolding start_rx_loop
Keeps-start_rx_loop fuel n handler = search (Keeps-rx_rounds, driver_kept) depth 20

-- Whatever the platform answers, and wherever the receive loop is, if it started with an empty
-- receive buffer and a transmit buffer of 255 bytes: the buffers are so again, and the contexts, the
-- bandwidth and the spreading factor are those at its start.
pub start_rx_loop-Rests :
    (fuel n : ℕ) (handler : RxHandlerCtx) (s : Radio)
    → IsRested s
    → Rests s (start_rx_loop fuel n handler s).1
start_rx_loop-Rests fuel n handler s r =
    Keeps-Rests (start_rx_loop fuel n handler) s (Keeps-start_rx_loop fuel n handler) r
