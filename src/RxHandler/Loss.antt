-- ===== src/RxHandler/Loss.antt =====
-- What the receive handler of src/rx_packet_handler.c does with a burst whose identifier is 0.
use lora_driver_with_network.Prelude.{
  ℕ, zero, suc, ◌≡◌, ◌≢◌, refl, inl, inr, length-take, length-drop, true, false, Option, some, List,
  [], ◌∷◌, ◌++◌, arith, u8, take, drop, length,
}
use lora_driver_with_network.Packet.{
  Packet, PacketType, packet_ack, packet_begin, packet_data, packet_end, check_packet_type,
  uint8_max,
}
use lora_driver_with_network.NetworkData.{packet_count}
use lora_driver_with_network.NetworkData.Fragments.{fragment, fragments, marker, burst}
use lora_driver_with_network.RxHandler.{RxHandlerCtx, rx_handler_init, rx_packet_handler, dispatch}
use lora_driver_with_network.RxHandler.Filter.{
  Quiet, rx_packet_handler-cases, rx_packet_handler-refused, noted,
}
use lora_driver_with_network.RxHandler.Stream.{receive}

-- No transfer is open, as the flag and the identifier say it.
abbrev Closed : RxHandlerCtx → Type 0
Closed ctx = (ctx.capture ≡ false) × (ctx.capture_ack_id ≡ 0)

Closed-dispatch :
    (t : PacketType) (ctx : RxHandlerCtx) (p : Packet)
    → Closed ctx
    → p.ack_id ≡ 0
    → t ≢ packet_begin
    → Closed (dispatch t ctx p).ctx × ((dispatch t ctx p).calls ≡ [])
unfolding dispatch
Closed-dispatch packet_begin ctx p c i t = absurd (t refl)
Closed-dispatch packet_data ctx p c i t = ground arith
Closed-dispatch packet_end ctx p c i t = ground arith
Closed-dispatch packet_ack ctx p c i t = (c, refl)

data_no_begin : (p : Packet) → p.payload_length ≢ 0 → check_packet_type p ≢ packet_begin
unfolding check_packet_type
data_no_begin p h e = ground arith

-- A packet with identifier 0 that is no BEGIN is dropped while no transfer is open.
Closed-step :
    (ctx : RxHandlerCtx) (p : Packet)
    → Closed ctx
    → p.ack_id ≡ 0
    → check_packet_type p ≢ packet_begin
    → Closed (rx_packet_handler ctx (some p)).ctx × ((rx_packet_handler ctx (some p)).calls ≡ [])
Closed-step ctx p c i t = elim (rx_packet_handler-cases ctx p) [
  | inl (same, quiet) ↦ rw (same, quiet) (c, refl)
  | inr (_, e) ↦
      rw e (unfold dispatch in Closed-dispatch (check_packet_type p) (noted ctx p) p c i t)
]

-- Packets with identifier 0, none of them a BEGIN.
abbrev NoBegin : List Packet → Type 0
NoBegin [] = Unit
NoBegin (p ∷ ps) = (p.ack_id ≡ 0) × (check_packet_type p ≢ packet_begin) × NoBegin ps

receive-Closed :
    (ps : List Packet) (ctx : RxHandlerCtx) → NoBegin ps → Closed ctx → (receive ctx ps).calls ≡ []
unfolding receive
receive-Closed [] ctx n c = refl
receive-Closed (p ∷ ps) ctx n c =
    let step = Closed-step ctx p c n.0 n.1 in rw step.1 (receive-Closed ps _ n.2 step.0)

module _ (dest src : ℕ) where
  end-NoBegin : NoBegin (marker dest src 0 uint8_max ∷ [])
  end-NoBegin = (refl, (λ e. unfold check_packet_type in cc e), tt)

  fragments-NoBegin :
      (n seq : ℕ) (bytes : List ℕ)
      → n ≡ packet_count (length bytes)
      → NoBegin (fragments dest src 0 n seq bytes ++ marker dest src 0 uint8_max ∷ [])
  fragments-NoBegin zero seq bytes count = end-NoBegin
  fragments-NoBegin (suc n) seq bytes count = (
    refl,
    data_no_begin (fragment dest src 0 (u8 seq) (take 8 bytes))
        (omega (arith, length-take 8 bytes)),
    fragments-NoBegin n (suc seq) (drop 8 bytes) (omega (arith, length-drop 8 bytes)),
  )

  init-Closed : (cmd end : Option ℕ) → Closed (rx_handler_init cmd end dest src)
  unfolding rx_handler_init
  init-Closed cmd end = (refl, refl)

  begin-Quiet :
      (cmd end : Option ℕ)
      → let ctx = rx_handler_init cmd end dest src in
        Quiet ctx (rx_packet_handler ctx (some (marker dest src 0 0)))
  unfolding rx_handler_init
  begin-Quiet cmd end =
      rx_packet_handler-refused _ (marker dest src 0 0) (λ f. f.is_new (refl, refl))

  -- A handler that was just initialised takes the BEGIN of a burst with identifier 0 for a
  -- duplicate, and then drops the whole burst: the application is called for none of its packets.
  pub burst_lost :
      (cmd end : Option ℕ) (bytes : List ℕ)
      → (receive (rx_handler_init cmd end dest src) (burst dest src 0 true bytes)).calls ≡ []
  unfolding receive
  burst_lost cmd end bytes =
      let n = packet_count (length bytes) in
      let ctx = rx_handler_init cmd end dest src in
      let q : Quiet ctx (rx_packet_handler ctx (some (marker dest src 0 0))) =
        begin-Quiet cmd end in
      rw (q.0, q.1) (receive-Closed _ ctx (fragments-NoBegin n 1 bytes refl) (init-Closed cmd end))
