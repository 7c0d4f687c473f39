-- ===== src/RxHandler/Tests.antt =====
-- Runs of the receive handler of src/rx_packet_handler.c, and the theorems at those inputs.
use lora_driver_with_network.Prelude.{
  ℕ, ◌≡◌, ◌≢◌, ◌⊎◌, refl, true, none, some, List, [], ◌∷◌, map, arith,
}
use lora_driver_with_network.Packet.{Packet, check_packet_type, copy_packet, uint8_max}
use lora_driver_with_network.NetworkData.Fragments.{fragment, fragments, marker, burst}
use lora_driver_with_network.RxHandler.{
  RxHandlerCtx, command_call, command_packet, packet_rejected, rx_handler_init, rx_packet_handler,
}
use lora_driver_with_network.RxHandler.Session.{idle, accept, view}
use lora_driver_with_network.RxHandler.Invariant.{
  IsValid, rx_handler_init-IsValid, rx_packet_handler-IsValid,
}
use lora_driver_with_network.RxHandler.Refine.{seen, Passes, rx_packet_handler-accept}
use lora_driver_with_network.RxHandler.Stream.{receive}
use lora_driver_with_network.RxHandler.Echoes.{
  heard, receive_heard, drop_echoes, said_once, said_once-normal,
}
use lora_driver_with_network.RxHandler.Burst.{Open}
use lora_driver_with_network.RxHandler.Delivery.{Delivers, receive-burst}
use lora_driver_with_network.RxHandler.Loss.{burst_lost}
use lora_driver_with_network.RxHandler.Command.{rx_packet_handler-Unframed}

-- A handler at address 2 that listens to address 1.
abbrev start : RxHandlerCtx
start = rx_handler_init none (some 9) 2 1

start-IsValid : IsValid start
start-IsValid = rx_handler_init-IsValid none (some 9) 2 1

view-start : view start ≡ idle
unfolding rx_handler_init
view-start = refl

begin-Passes : Passes start (marker 2 1 5 0)
unfolding rx_handler_init
begin-Passes = record {
  is_configured = refl;
  to_host = refl;
  from_remote = refl;
  is_new = λ e. omega (arith, e.0);
}

abbrev small : List ℕ
small = 1 ∷ 2 ∷ 3 ∷ []

rx_packet_handler-IsValid_example : IsValid (rx_packet_handler start (some (marker 2 1 5 0))).ctx
rx_packet_handler-IsValid_example =
    rx_packet_handler-IsValid start (some (marker 2 1 5 0)) start-IsValid

rx_packet_handler-accept_example :
    seen (rx_packet_handler start (some (marker 2 1 5 0)))
    ≡ accept (view start) (check_packet_type (marker 2 1 5 0)) (marker 2 1 5 0)
rx_packet_handler-accept_example =
    rx_packet_handler-accept start (marker 2 1 5 0) start-IsValid begin-Passes
      (λ _ type. unfold check_packet_type in cc type)

-- A fragment that was sent twice, the next one, and the first one again.
abbrev with_echo : List Packet
with_echo =
    fragment 2 1 5 1 small
    ∷ fragment 2 1 5 1 small
    ∷ fragment 2 1 5 2 small
    ∷ fragment 2 1 5 1 small
    ∷ []

abbrev without_echo : List Packet
without_echo = fragment 2 1 5 1 small ∷ fragment 2 1 5 2 small ∷ fragment 2 1 5 1 small ∷ []

drop-echo : drop_echoes with_echo ≡ without_echo
unfolding drop_echoes
drop-echo = refl

said_once-normal_example :
    let ps = said_once (heard with_echo) in
    (heard ps ≡ heard with_echo)
    × (drop_echoes ps ≡ ps)
    × ((ctx : RxHandlerCtx) → receive_heard ctx (heard with_echo) ≡ receive ctx ps)
said_once-normal_example = said_once-normal (heard with_echo)

receive-burst_example :
    Delivers
      (some 9)
      (map some (fragments 2 1 5 1 1 small))
      (receive start (burst 2 1 5 true small)).calls
    × Open 2 1 5 (some 9) idle uint8_max (receive start (burst 2 1 5 true small)).ctx
unfolding rx_handler_init
receive-burst_example =
    receive-burst 2 1 5 (some 9) start small start-IsValid view-start begin-Passes refl
      (omega arith)

late-Passes : Passes start (fragment 2 1 0 1 small)
unfolding rx_handler_init
late-Passes = record {
  is_configured = refl;
  to_host = refl;
  from_remote = refl;
  is_new = λ e. omega (arith, e.1);
}

rx_packet_handler-Unframed_example :
    let p = fragment 2 1 0 1 small in
    let r = rx_packet_handler start (some p) in
    ((p.ack_id ≢ 0)
      × (r.ret ≡ command_packet)
      × (r.calls ≡ command_call start.command_packet_handler (copy_packet p) ∷ []))
    ⊎ ((p.ack_id ≡ 0) × (r.ret ≡ packet_rejected) × (r.calls ≡ []))
unfolding rx_handler_init check_packet_type
rx_packet_handler-Unframed_example =
    rx_packet_handler-Unframed start (fragment 2 1 0 1 small) start-IsValid late-Passes refl refl

burst_lost_example :
    (receive (rx_handler_init none (some 9) 2 1) (burst 2 1 0 true small)).calls ≡ []
burst_lost_example = burst_lost 2 1 none (some 9) small

-- A data packet outside a transfer goes to the command handler, which is NULL here.
null_command :
    (rx_packet_handler start (some (fragment 2 1 5 1 small))).calls
    ≡ command_call none (fragment 2 1 5 1 small) ∷ []
unfolding rx_handler_init rx_packet_handler check_packet_type
null_command = refl
