-- ===== src/RxHandler/Refine.antt =====
-- The handler of src/rx_packet_handler.c does what the session promises.
use lora_driver_with_network.Prelude.{
  ◌≡◌, ◌≢◌, refl, true, false, some, [], map, arith, length-take, take-set_next,
}
use lora_driver_with_network.Packet.{
  Packet, PacketType, packet_ack, packet_begin, packet_end, packet_data, copy_packet,
  check_packet_type,
}
use lora_driver_with_network.RxHandler.{
  RxHandlerCtx, Handled, unknown_packet, rx_packet_handler, on_begin, on_data, on_end, dispatch,
}
use lora_driver_with_network.RxHandler.Invariant.{IsValid, seen-IsValid}
use lora_driver_with_network.RxHandler.Session.{
  Session, idle, capturing, Outcome, accept, view, notice,
}

-- The handler's result, as the application and the session see it.
abbrev pub seen : Handled → Outcome
seen r = record { session = view r.ctx; ret = r.ret; notices = map notice r.calls }

on_begin-accept :
    (ctx : RxHandlerCtx) (p : Packet) → seen (on_begin ctx p) ≡ accept (view ctx) packet_begin p
unfolding on_begin accept
on_begin-accept ctx p = ground arith

on_end-accept :
    (ctx : RxHandlerCtx) (p : Packet) → seen (on_end ctx) ≡ accept (view ctx) packet_end p
unfolding on_end accept
on_end-accept ctx p = ground arith

on_data-accept :
    (ctx : RxHandlerCtx) (p : Packet)
    → IsValid ctx
    → (ctx.capture ≡ false → p.ack_id ≢ 0)
    → seen (on_data ctx p) ≡ accept (view ctx) packet_data p
unfolding on_data accept
on_data-accept ctx p v marked = ground (
  arith,
  marked,
  take-set_next ctx.captured_n ctx.captured_packet_arr (some (copy_packet p)),
  length-take ctx.captured_n ctx.captured_packet_arr,
)

-- With no transfer open, a data packet has another identifier than 0.
abbrev pub Marked : RxHandlerCtx → PacketType → Packet → Type 0
Marked ctx t p = view ctx ≡ idle → t ≡ packet_data → p.ack_id ≢ 0

dispatch-accept :
    (t : PacketType) (ctx : RxHandlerCtx) (p : Packet)
    → IsValid ctx
    → Marked ctx t p
    → seen (dispatch t ctx p) ≡ accept (view ctx) t p
unfolding dispatch
dispatch-accept packet_begin ctx p v m = on_begin-accept ctx p
dispatch-accept packet_data ctx p v m = on_data-accept ctx p v (λ off. m (rw off refl) refl)
dispatch-accept packet_end ctx p v m = on_end-accept ctx p
dispatch-accept packet_ack ctx p v m = ack_case (view ctx)
  where
    ack_case :
        (s : Session)
        → record { session = s; ret = unknown_packet; notices = [] } ≡ accept s packet_ack p
    ack_case idle = unfold accept in refl
    ack_case (capturing id ps) = unfold accept in refl

-- The packets that pass the filter: the handler is configured, the addresses are the expected ones,
-- and the identifier and the number are not both those of the packet before.
pub record Passes (ctx : RxHandlerCtx) (p : Packet) : Type 0 where
  pub is_configured : ctx.configured ≡ true
  pub to_host : p.dest_address ≡ ctx.host_addr
  pub from_remote : p.src_address ≡ ctx.remote_src_addr
  pub is_new :
      ¬ ((p.ack_id ≡ ctx.last_received_ack_id) × (p.sequence_number ≡ ctx.last_received_seq_number))

-- From a valid state, a packet that passes the filter moves the session, is answered and is told to
-- the application exactly as the session promises. With no transfer open, a data packet must have
-- another identifier than 0.
pub rx_packet_handler-accept :
    (ctx : RxHandlerCtx) (p : Packet)
    → IsValid ctx
    → Passes ctx p
    → Marked ctx (check_packet_type p) p
    → seen (rx_packet_handler ctx (some p)) ≡ accept (view ctx) (check_packet_type p) p
unfolding rx_packet_handler
rx_packet_handler-accept ctx p v f m = ground (
  arith,
  f.is_new,
  dispatch-accept (check_packet_type p)
      (record ctx { last_received_ack_id = p.ack_id; last_received_seq_number = p.sequence_number })
      p (seen-IsValid ctx p.ack_id p.sequence_number v) m,
)
