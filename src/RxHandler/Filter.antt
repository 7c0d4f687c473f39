-- ===== src/RxHandler/Filter.antt =====
-- Which packets the handler of src/rx_packet_handler.c ignores, and what a packet that is delivered
-- twice does.
use lora_driver_with_network.Prelude.{
  ◌∙◌, subst, ◌≡◌, refl, sym, ◌⊎◌, inl, inr, not, ◌&&◌, some, [], arith, ◌==◌, if-cases,
}
use lora_driver_with_network.Packet.{
  Packet, PacketType, packet_ack, packet_begin, packet_end, packet_data, check_packet_type,
}
use lora_driver_with_network.RxHandler.{RxHandlerCtx, Handled, rx_packet_handler, dispatch}
use lora_driver_with_network.RxHandler.Refine.{Passes}

-- Nothing changes and nothing is called.
abbrev pub Quiet : RxHandlerCtx → Handled → Type 0
Quiet ctx r = (r.ctx ≡ ctx) × (r.calls ≡ [])

-- The state in which the `switch` is reached.
abbrev pub noted : RxHandlerCtx → Packet → RxHandlerCtx
noted ctx p = record ctx {
  last_received_ack_id = p.ack_id;
  last_received_seq_number = p.sequence_number;
}

-- Either the packet is ignored, or it passes the filter and the `switch` is reached.
pub rx_packet_handler-cases :
    (ctx : RxHandlerCtx) (p : Packet)
    → Quiet ctx (rx_packet_handler ctx (some p))
      ⊎ (Passes ctx p
          × (rx_packet_handler ctx (some p) ≡ dispatch (check_packet_type p) (noted ctx p) p))
unfolding rx_packet_handler
rx_packet_handler-cases ctx p =
    if-cases Either (not ctx.configured) (λ _. inl (refl, refl))
      λ on.
        if-cases Either (not (p.dest_address == ctx.host_addr)) (λ _. inl (refl, refl))
          λ here.
            if-cases Either (not (p.src_address == ctx.remote_src_addr)) (λ _. inl (refl, refl))
              λ there.
                if-cases Either
                  (p.ack_id == ctx.last_received_ack_id
                    && p.sequence_number == ctx.last_received_seq_number)
                  (λ _. inl (refl, refl))
                  λ fresh. inr (
                    record {
                      is_configured = ground arith;
                      to_host = ground arith;
                      from_remote = ground arith;
                      is_new = λ both. ground (arith, both.0, both.1);
                    },
                    refl,
                  )
  where
    Either : Handled → Type 0
    Either r = Quiet ctx r ⊎ (Passes ctx p × (r ≡ dispatch (check_packet_type p) (noted ctx p) p))

-- A packet that does not pass the filter changes nothing in the handler, and nothing is called.
pub rx_packet_handler-refused :
    (ctx : RxHandlerCtx) (p : Packet) → ¬ Passes ctx p → Quiet ctx (rx_packet_handler ctx (some p))
rx_packet_handler-refused ctx p h = elim (rx_packet_handler-cases ctx p) [
  | inl quiet ↦ quiet
  | inr (passes, _) ↦ absurd (h passes)
]

-- What a call of the handler never changes.
pub record SameSetup (a b : RxHandlerCtx) : Type 0 where
  pub configured : a.configured ≡ b.configured
  pub host_addr : a.host_addr ≡ b.host_addr
  pub remote_src_addr : a.remote_src_addr ≡ b.remote_src_addr
  pub command_packet_handler : a.command_packet_handler ≡ b.command_packet_handler
  pub capture_end_handler : a.capture_end_handler ≡ b.capture_end_handler

-- The dispatch changes neither the setup nor what was seen last.
pub record Kept (a b : RxHandlerCtx) : Type 0 where
  pub setup : SameSetup a b
  pub last_id : a.last_received_ack_id ≡ b.last_received_ack_id
  pub last_seq : a.last_received_seq_number ≡ b.last_received_seq_number

dispatch-Kept : (t : PacketType) (ctx : RxHandlerCtx) (p : Packet) → Kept (dispatch t ctx p).ctx ctx
unfolding dispatch
dispatch-Kept packet_begin ctx p = ground arith
dispatch-Kept packet_data ctx p = ground arith
dispatch-Kept packet_end ctx p = ground arith
dispatch-Kept packet_ack ctx p = ground arith

-- A packet that passes the filter reaches the `switch`.
pub rx_packet_handler-dispatch :
    (ctx : RxHandlerCtx) (p : Packet)
    → Passes ctx p
    → rx_packet_handler ctx (some p) ≡ dispatch (check_packet_type p) (noted ctx p) p
unfolding rx_packet_handler
rx_packet_handler-dispatch ctx p f = ground (arith, f.is_new)

pub rx_packet_handler-Kept :
    (ctx : RxHandlerCtx) (p : Packet)
    → Passes ctx p
    → Kept (rx_packet_handler ctx (some p)).ctx (noted ctx p)
rx_packet_handler-Kept ctx p f =
    rw (rx_packet_handler-dispatch ctx p f) (dispatch-Kept (check_packet_type p) (noted ctx p) p)

-- The same addresses, identifier and number, which is all that the handler tells a retransmission
-- by.
pub record SameIds (p q : Packet) : Type 0 where
  pub dest : p.dest_address ≡ q.dest_address
  pub src : p.src_address ≡ q.src_address
  pub id : p.ack_id ≡ q.ack_id
  pub number : p.sequence_number ≡ q.sequence_number

pub SameIds-refl : (p : Packet) → SameIds p p
SameIds-refl p = record { dest = refl; src = refl; id = refl; number = refl }

Passes-SameIds : (ctx : RxHandlerCtx) (p q : Packet) → SameIds p q → Passes ctx q → Passes ctx p
Passes-SameIds ctx p q s f = record {
  is_configured = f.is_configured;
  to_host = s.dest ∙ f.to_host;
  from_remote = s.src ∙ f.from_remote;
  is_new = λ e. f.is_new (sym s.id ∙ e.0, sym s.number ∙ e.1);
}

-- After a packet that passes the filter, a packet with the same numbers does not.
Passes-after :
    (ctx : RxHandlerCtx) (p q : Packet)
    → SameIds p q
    → Passes ctx p
    → ¬ Passes (rx_packet_handler ctx (some p)).ctx q
Passes-after ctx p q s passes f =
    let k = rx_packet_handler-Kept ctx p passes in
    f.is_new (sym s.id ∙ sym k.last_id, sym s.number ∙ sym k.last_seq)

-- Delivering a packet with the addresses, the identifier and the number of the one before changes
-- nothing and calls nothing, whatever the first delivery did.
pub rx_packet_handler-echo :
    (ctx : RxHandlerCtx) (p q : Packet)
    → SameIds p q
    → let r = rx_packet_handler ctx (some p) in Quiet r.ctx (rx_packet_handler r.ctx (some q))
rx_packet_handler-echo ctx p q s =
    let r = rx_packet_handler ctx (some p) in
    elim (rx_packet_handler-cases ctx p) [
      | inl quiet ↦ rx_packet_handler-refused r.ctx q λ f.
          let g = subst (λ c. Passes c q) quiet.0 f in
          Passes-after ctx p q s (Passes-SameIds ctx p q s g) f
      | inr (passes, _) ↦ rx_packet_handler-refused r.ctx q (Passes-after ctx p q s passes)
    ]

-- No packet changes the addresses that the handler listens to.
pub rx_packet_handler_addresses :
    (ctx : RxHandlerCtx) (p : Packet)
    → let r = rx_packet_handler ctx (some p) in
      (r.ctx.host_addr ≡ ctx.host_addr) × (r.ctx.remote_src_addr ≡ ctx.remote_src_addr)
rx_packet_handler_addresses ctx p = elim (rx_packet_handler-cases ctx p) [
  | inl (same, _) ↦ rw same (refl, refl)
  | inr (passes, _) ↦
      let k = (rx_packet_handler-Kept ctx p passes).setup in (k.host_addr, k.remote_src_addr)
]
