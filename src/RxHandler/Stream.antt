-- ===== src/RxHandler/Stream.antt =====
-- A sequence of packets given to the handler one by one, as the receive loops of
-- src/sx127x_rx_utils.c and examples/esp32c3_6/burst/main/main.c do, and retransmissions in it.
use lora_driver_with_network.Prelude.{◌≡◌, refl, some, List, [], ◌∷◌, ◌++◌, append_assoc}
use lora_driver_with_network.Packet.{Packet}
use lora_driver_with_network.RxHandler.{RxHandlerCtx, Call, rx_packet_handler}

pub record Reception : Type 0 where
  pub ctx : RxHandlerCtx
  pub calls : List Call

unfoldable pub receive : RxHandlerCtx → List Packet → Reception
receive ctx [] = record { ctx = ctx; calls = [] }
receive ctx (p ∷ ps) =
    let r = rx_packet_handler ctx (some p) in
    let rest = receive r.ctx ps in record { ctx = rest.ctx; calls = r.calls ++ rest.calls }

-- `Resent ps qs`: in `qs` each packet of `ps` is delivered once, or several times in a row.
pub data Resent : List Packet → List Packet → Type 0 where
  done : Resent [] []
  first : {ps qs : List Packet} (p : Packet) → Resent ps qs → Resent (p ∷ ps) (p ∷ qs)
  again : {ps qs : List Packet} (p : Packet) → Resent ps (p ∷ qs) → Resent ps (p ∷ p ∷ qs)

pub receive-append :
    (ctx : RxHandlerCtx) (ps qs : List Packet)
    → receive ctx (ps ++ qs) ≡ record {
      ctx = (receive (receive ctx ps).ctx qs).ctx;
      calls = (receive ctx ps).calls ++ (receive (receive ctx ps).ctx qs).calls;
    }
unfolding receive
receive-append ctx [] qs = refl
receive-append ctx (p ∷ ps) qs =
    let r = rx_packet_handler ctx (some p) in rw (receive-append r.ctx ps qs, append_assoc)
