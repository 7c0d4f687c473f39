-- ===== src/Examples/Burst/Listening.antt =====
-- The receiver's task of examples/esp32c3_6/burst/main/main.c.
use lora_driver_with_network.Prelude.{
  ℕ, ◌≡◌, false, Option, none, some, List, [], ◌∷◌, if◌then◌else◌,
}
use lora_driver_with_network.Packet.{Packet}
use lora_driver_with_network.Packet.Kind.{ack_of}
use lora_driver_with_network.Platform.{SxErr, sx_ok}
use lora_driver_with_network.RxHandler.{RxHandlerCtx, rx_packet_handler}
use lora_driver_with_network.RxHandler.Stream.{receive}
use lora_driver_with_network.Radio.{Radio}
use lora_driver_with_network.Radio.Happened.{Happened}
use lora_driver_with_network.Radio.Kept.{Kept}
use lora_driver_with_network.Radio.RxUtils.{read_last_packet}
use lora_driver_with_network.Radio.Utils.{sx_1278_send_packet}
use lora_driver_with_network.Examples.Burst.Receiver.{Listened, is_capture_end}

-- In the run from `s` to `t` a `read_last_packet` gave the packet with SX_OK, and a send of its
-- acknowledgement returned.
abbrev pub IsHeard : ℕ → Packet → Radio → Radio → Type 0
IsHeard fuel p s t =
    Happened read_last_packet (sx_ok, p) s t
    × ((ret : SxErr) × Happened (sx_1278_send_packet fuel (ack_of p) false) (some ret) s t)

abbrev Hears : ℕ → Radio → Option (Option Packet) × Radio → Type 0
Hears fuel s (none, t) = Unit
Hears fuel s (some none, t) = Unit
Hears fuel s (some (some p), t) = IsHeard fuel p s t

-- In the run from the state to `v` the packets were heard, one after the other.
pub data AllHeard (fuel : ℕ) (v : Radio) : List Packet → Radio → Type 0 where
  none_heard : {s : Radio} → Kept s v → AllHeard fuel v [] s
  one_heard :
      {p : Packet} {ps : List Packet} {s : Radio} (t u : Radio)
      → Kept s t
      → IsHeard fuel p t u
      → AllHeard fuel v ps u
      → AllHeard fuel v (p ∷ ps) s

-- The packets that are left after the first that the handler answers with CAPTURE_END, if any is.
abbrev pub after_end : RxHandlerCtx → List Packet → Option (List Packet)
after_end ctx [] = none
after_end ctx (p ∷ ps) =
    let h = rx_packet_handler ctx (some p) in
    if is_capture_end h.ret then some ps else after_end h.ctx ps

-- What was done to the handler and the application is what handling some packets does that were
-- heard, and the task is done just if the last of them ended the transfer, and no other did.
abbrev pub TakesIn : ℕ → RxHandlerCtx → Radio → Listened × Radio → Type 0
TakesIn fuel handler s r =
    (ps : List Packet) × AllHeard fuel r.1 ps s
    × (receive handler ps ≡ record { ctx = r.0.handler; calls = r.0.calls })
    × (after_end handler ps ≡ (if r.0.done then some [] else none))
