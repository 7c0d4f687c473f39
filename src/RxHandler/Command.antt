-- ===== src/RxHandler/Command.antt =====
-- What the receive handler of src/rx_packet_handler.c does with a data packet outside of a transfer.
use lora_driver_with_network.Prelude.{
  ◌≡◌, ◌≢◌, ◌⊎◌, inl, inr, refl, some, Bool-cases, false, [], ◌∷◌, arith, ◌==◌,
}
use lora_driver_with_network.Packet.{Packet, packet_data, check_packet_type, copy_packet}
use lora_driver_with_network.RxHandler.{
  RxHandlerCtx, Handled, packet_rejected, command_packet, command_call, rx_packet_handler, on_data,
  dispatch,
}
use lora_driver_with_network.RxHandler.Invariant.{IsValid, seen-IsValid}
use lora_driver_with_network.RxHandler.Refine.{Passes}
use lora_driver_with_network.RxHandler.Filter.{noted, rx_packet_handler-dispatch}

-- The packet is a command for the application, or is rejected.
abbrev Unframed : RxHandlerCtx → Packet → Handled → Type 0
Unframed ctx p r =
    ((p.ack_id ≢ 0)
      × (r.ret ≡ command_packet)
      × (r.calls ≡ command_call ctx.command_packet_handler (copy_packet p) ∷ []))
    ⊎ ((p.ack_id ≡ 0) × (r.ret ≡ packet_rejected) × (r.calls ≡ []))

on_data-Unframed :
    (ctx : RxHandlerCtx) (p : Packet)
    → IsValid ctx
    → ctx.capture ≡ false
    → Unframed ctx p (on_data ctx p)
unfolding on_data
on_data-Unframed ctx p v off =
    let free : ctx.capture_ack_id ≡ 0 = v.idle_no_id off in
    elim (Bool-cases (p.ack_id == 0)) [
      | inl zero_id ↦
          inr (ground (arith, zero_id), rw (off, free, zero_id) refl, rw (off, free, zero_id) refl)
      | inr other ↦
          inl (
            (λ e. ground (arith, other, e)),
            rw (off, free, other) refl,
            rw (off, free, other) refl,
          )
    ]

-- In a valid state with no transfer open, a data packet that passes the filter is handed to the command
-- handler as the only call if its identifier is not 0. If it is 0, then the packet is rejected, and
-- the application is not called.
pub rx_packet_handler-Unframed :
    (ctx : RxHandlerCtx) (p : Packet)
    → IsValid ctx
    → Passes ctx p
    → ctx.capture ≡ false
    → check_packet_type p ≡ packet_data
    → let r = rx_packet_handler ctx (some p) in
      ((p.ack_id ≢ 0)
        × (r.ret ≡ command_packet)
        × (r.calls ≡ command_call ctx.command_packet_handler (copy_packet p) ∷ []))
      ⊎ ((p.ack_id ≡ 0) × (r.ret ≡ packet_rejected) × (r.calls ≡ []))
unfolding dispatch
rx_packet_handler-Unframed ctx p v passes off type =
    rw (rx_packet_handler-dispatch ctx p passes, type)
      (on_data-Unframed (noted ctx p) p (seen-IsValid ctx p.ack_id p.sequence_number v) off)
