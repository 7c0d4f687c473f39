-- ===== src/RxHandler/Invariant.antt =====
-- What holds of the handler's state between two calls (src/rx_packet_handler.c).
use lora_driver_with_network.Prelude.{
  ℕ, suc, ◌+◌, ◌≤◌, ◌<◌, ◌≡◌, ◌≢◌, refl, ◌∙◌, true, false, Option, none, some, List, [], ◌∷◌, ◌++◌,
  arith, take, set, length, length-set, length-take, length-replicate, take-set_next, if-cases, not,
  ◌&&◌, leb, ◌==◌,
}
use lora_driver_with_network.Packet.{
  Packet, PacketType, packet_ack, packet_begin, packet_end, packet_data, copy_packet,
  check_packet_type,
}
use lora_driver_with_network.RxHandler.{
  RxHandlerCtx, Handled, rx_handler_init, rx_handler_reset, rx_handler_set_remote_addr,
  rx_packet_handler, handle_packet, on_begin, on_data, on_end, dispatch, packet_capture_max_count,
}

-- Data packets of one transfer, numbered one by one from `k`.
abbrev pub InOrder : ℕ → ℕ → List (Option Packet) → Type 0
InOrder id k [] = Unit
InOrder id k (none ∷ ps) = ⊥
InOrder id k (some p ∷ ps) =
    (p.ack_id ≡ id) × (p.sequence_number ≡ k) × (p.payload_length ≢ 0) × InOrder id (suc k) ps

InOrder-append :
    (id k m : ℕ) (ps : List (Option Packet)) (p : Packet)
    → InOrder id k ps
    → m ≡ k + length ps
    → p.ack_id ≡ id
    → p.sequence_number ≡ m
    → p.payload_length ≢ 0
    → InOrder id k (ps ++ some p ∷ [])
InOrder-append id k m [] p h e a s l = (a, omega arith, l, tt)
InOrder-append id k m (none ∷ ps) p h e a s l = absurd h
InOrder-append id k m (some q ∷ ps) p h e a s l =
    (h.0, h.1, h.2, InOrder-append id (suc k) m ps p h.3 (omega arith) a s l)

pub record IsValid (ctx : RxHandlerCtx) : Type 0 where
  pub array_size : length ctx.captured_packet_arr ≡ packet_capture_max_count
  pub room : ctx.captured_n ≤ packet_capture_max_count
  pub idle_empty : ctx.capture ≡ false → ctx.captured_n ≡ 0
  pub idle_no_id : ctx.capture ≡ false → ctx.capture_ack_id ≡ 0
  pub ordered : InOrder ctx.capture_ack_id 1 (take ctx.captured_n ctx.captured_packet_arr)

pub rx_handler_init-IsValid :
    (cmd end : Option ℕ) (host remote : ℕ) → IsValid (rx_handler_init cmd end host remote)
unfolding rx_handler_init
rx_handler_init-IsValid cmd end host remote = record {
  array_size = length-replicate {A = Option Packet} packet_capture_max_count none;
  room = omega arith;
  idle_empty = λ _. refl;
  idle_no_id = λ _. refl;
  ordered = tt;
}

pub rx_handler_reset-IsValid : (ctx : RxHandlerCtx) → IsValid ctx → IsValid (rx_handler_reset ctx)
unfolding rx_handler_reset
rx_handler_reset-IsValid ctx v = record {
  array_size = v.array_size;
  room = omega arith;
  idle_empty = λ _. refl;
  idle_no_id = λ _. refl;
  ordered = tt;
}

pub rx_handler_set_remote_addr-IsValid :
    (ctx : RxHandlerCtx) (remote : ℕ)
    → IsValid ctx
    → IsValid (rx_handler_set_remote_addr ctx remote)
unfolding rx_handler_set_remote_addr
rx_handler_set_remote_addr-IsValid ctx remote v = record {
  array_size = v.array_size;
  room = v.room;
  idle_empty = v.idle_empty;
  idle_no_id = v.idle_no_id;
  ordered = v.ordered;
}

on_begin-IsValid : (ctx : RxHandlerCtx) (p : Packet) → IsValid ctx → IsValid (on_begin ctx p).ctx
unfolding on_begin
on_begin-IsValid ctx p v =
    if-cases (λ (r : Handled). IsValid r.ctx) (not ctx.capture)
      (λ off. record {
        array_size = v.array_size;
        room = omega arith;
        idle_empty = λ _. refl;
        idle_no_id = λ e. cc;
        ordered = tt;
      })
      (λ on. v)

on_end-IsValid : (ctx : RxHandlerCtx) → IsValid ctx → IsValid (on_end ctx).ctx
unfolding on_end
on_end-IsValid ctx v =
    if-cases (λ (r : Handled). IsValid r.ctx) (not ctx.capture) (λ off. v)
      (λ on. rx_handler_reset-IsValid ctx v)

-- Storing the next data packet in the first free cell.
store-IsValid :
    (ctx : RxHandlerCtx) (p : Packet)
    → IsValid ctx
    → ctx.capture ≡ true
    → p.ack_id ≡ ctx.capture_ack_id
    → p.sequence_number ≡ ctx.captured_n + 1
    → p.payload_length ≢ 0
    → ctx.captured_n < packet_capture_max_count
    → IsValid (record ctx {
      captured_packet_arr = set ctx.captured_packet_arr ctx.captured_n (some (copy_packet p));
      captured_n = ctx.captured_n + 1;
    })
unfolding copy_packet
store-IsValid ctx p v on id seq big below = record {
  array_size = length-set ctx.captured_packet_arr ctx.captured_n _ ∙ v.array_size;
  room = omega arith;
  idle_empty = λ e. cc;
  idle_no_id = λ e. cc;
  ordered =
      rw (take-set_next ctx.captured_n ctx.captured_packet_arr (some (copy_packet p)) (omega arith))
        (InOrder-append ctx.capture_ack_id 1 (ctx.captured_n + 1)
          (take ctx.captured_n ctx.captured_packet_arr) (copy_packet p) v.ordered
          (omega (arith, length-take ctx.captured_n ctx.captured_packet_arr)) id seq big);
}

on_data-IsValid :
    (ctx : RxHandlerCtx) (p : Packet)
    → IsValid ctx
    → p.payload_length ≢ 0
    → IsValid (on_data ctx p).ctx
unfolding on_data
on_data-IsValid ctx p v big =
    if-cases Keeps (ctx.capture && p.ack_id == ctx.capture_ack_id)
      (λ mine.
        if-cases Keeps (leb packet_capture_max_count ctx.captured_n) (λ _. v)
          λ below.
            if-cases Keeps (not (p.sequence_number == ctx.captured_n + 1)) (λ _. v)
              λ next.
                store-IsValid ctx p v (ground arith) (ground arith) (ground arith) big
                  (ground arith))
      (λ other. if-cases Keeps (not (p.ack_id == ctx.capture_ack_id)) (λ _. v) (λ _. v))
  where
    Keeps : Handled → Type 0
    Keeps r = IsValid r.ctx

data_has_payload : (p : Packet) → check_packet_type p ≡ packet_data → p.payload_length ≢ 0
unfolding check_packet_type
data_has_payload p e = ground arith

dispatch-IsValid :
    (t : PacketType) (ctx : RxHandlerCtx) (p : Packet)
    → check_packet_type p ≡ t
    → IsValid ctx
    → IsValid (dispatch t ctx p).ctx
unfolding dispatch
dispatch-IsValid packet_begin ctx p e v = on_begin-IsValid ctx p v
dispatch-IsValid packet_data ctx p e v = on_data-IsValid ctx p v (data_has_payload p e)
dispatch-IsValid packet_end ctx p e v = on_end-IsValid ctx v
dispatch-IsValid packet_ack ctx p e v = v

pub seen-IsValid :
    (ctx : RxHandlerCtx) (id seq : ℕ)
    → IsValid ctx
    → IsValid (record ctx { last_received_ack_id = id; last_received_seq_number = seq })
seen-IsValid ctx id seq v = record {
  array_size = v.array_size;
  room = v.room;
  idle_empty = v.idle_empty;
  idle_no_id = v.idle_no_id;
  ordered = v.ordered;
}

handle_packet-IsValid :
    (ctx : RxHandlerCtx) (p : Packet) → IsValid ctx → IsValid (handle_packet ctx p).ctx
unfolding handle_packet
handle_packet-IsValid ctx p v =
    if-cases Keeps (not (p.dest_address == ctx.host_addr)) (λ _. v)
      λ _.
        if-cases Keeps (not (p.src_address == ctx.remote_src_addr)) (λ _. v)
          λ _.
            if-cases Keeps
              (p.ack_id == ctx.last_received_ack_id
                && p.sequence_number == ctx.last_received_seq_number)
              (λ _. v)
              λ _.
                dispatch-IsValid (check_packet_type p) _ p refl
                  (seen-IsValid ctx p.ack_id p.sequence_number v)
  where
    Keeps : Handled → Type 0
    Keeps r = IsValid r.ctx

-- Every call of the handler, whatever the packet, keeps the invariant: the array has its size, at
-- most 254 cells are in use, they hold the data packets of the open transfer numbered from 1 on,
-- and nothing is held while no transfer is open.
pub rx_packet_handler-IsValid :
    (ctx : RxHandlerCtx) (p : Option Packet) → IsValid ctx → IsValid (rx_packet_handler ctx p).ctx
unfolding rx_packet_handler
rx_packet_handler-IsValid ctx none v =
    if-cases (λ (r : Handled). IsValid r.ctx) (not ctx.configured) (λ _. v) (λ _. v)
rx_packet_handler-IsValid ctx (some p) v =
    if-cases (λ (r : Handled). IsValid r.ctx) (not ctx.configured) (λ _. v)
      (λ _. handle_packet-IsValid ctx p v)
