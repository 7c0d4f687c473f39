-- ===== src/RxHandler/Delivery.antt =====
-- A whole burst of src/network_data_operations.c, from BEGIN to END, at the receive handler.
use lora_driver_with_network.Prelude.{
  ℕ, ◌≤◌, ◌≡◌, ◌≢◌, refl, sym, subst, ap, ◌∙◌, true, Option, some, List, [], ◌∷◌, map, append-nil,
  arith, take, length, length-take,
}
use lora_driver_with_network.Packet.{Packet, packet_end, check_packet_type, uint8_max}
use lora_driver_with_network.NetworkData.{packet_count}
use lora_driver_with_network.NetworkData.Fragments.{fragments, marker, burst}
use lora_driver_with_network.RxHandler.{
  RxHandlerCtx, Call, capture_end_call, rx_packet_handler, packet_capture_max_count, dispatch,
}
use lora_driver_with_network.RxHandler.Invariant.{IsValid}
use lora_driver_with_network.RxHandler.Session.{idle, capturing, accept, view}
use lora_driver_with_network.RxHandler.Refine.{Passes}
use lora_driver_with_network.RxHandler.Filter.{rx_packet_handler-dispatch}
use lora_driver_with_network.RxHandler.Stream.{Reception, receive, receive-append}
use lora_driver_with_network.RxHandler.Burst.{
  Open, Open-step, Open-Passes, fragments-captured, begin-captured,
}

-- The calls that end a transfer of `ps`: one, with an array that begins with `ps`, and their number.
pub record Delivers (fn : Option ℕ) (ps : List (Option Packet)) (calls : List Call) : Type 0 where
  pub array : List (Option Packet)
  pub once : calls ≡ capture_end_call fn array (length ps) ∷ []
  pub holds : take (length ps) array ≡ ps

-- What the flag, the array and the counter are when packets are held.
held_fields :
    (ctx : RxHandlerCtx) (id : ℕ) (ps : List (Option Packet))
    → IsValid ctx
    → view ctx ≡ capturing id ps
    → (ctx.capture ≡ true)
      × (take ctx.captured_n ctx.captured_packet_arr ≡ ps)
      × (ctx.captured_n ≡ length ps)
held_fields ctx id ps v e =
    let on : ctx.capture ≡ true = ground arith in
    let same : take ctx.captured_n ctx.captured_packet_arr ≡ ps = ground arith in
    (
      on,
      same,
      omega (
        arith,
        ap (λ (l : List (Option Packet)). length l) same,
        length-take ctx.captured_n ctx.captured_packet_arr,
        v.array_size,
        v.room,
      ),
    )

end_calls :
    (ctx : RxHandlerCtx) (p : Packet)
    → Passes ctx p
    → check_packet_type p ≡ packet_end
    → ctx.capture ≡ true
    → (rx_packet_handler ctx (some p)).calls
      ≡ capture_end_call ctx.capture_end_handler ctx.captured_packet_arr ctx.captured_n ∷ []
end_calls ctx p f type on =
    rw (rx_packet_handler-dispatch ctx p f, type) (unfold dispatch in ground arith)

module _ (dest src id : ℕ) (fn : Option ℕ) where
  -- END closes the open transfer and hands over what was captured.
  end-delivered :
      (k : ℕ) (ctx : RxHandlerCtx) (ps : List (Option Packet))
      → Open dest src id fn (capturing id ps) k ctx
      → k ≢ uint8_max
      → let r = rx_packet_handler ctx (some (marker dest src id uint8_max)) in
        Open dest src id fn idle uint8_max r.ctx × Delivers fn ps r.calls
  end-delivered k ctx ps h small =
      let p = marker dest src id uint8_max in
      let f =
        Open-Passes dest src id fn (capturing id ps) k ctx p h refl refl (λ e. small (sym e)) in
      let (on, same, count) = held_fields ctx id ps h.valid h.held in
      let closed : (accept (view ctx) (check_packet_type p) p).session ≡ idle =
        rw h.held (unfold accept check_packet_type in refl) in
      (
        (Open-step dest src id fn ctx p idle f refl refl refl h.end_handler h.valid
            (λ none_open _. cc (none_open, h.held)) closed).0,
        record {
          array = ctx.captured_packet_arr;
          once =
              end_calls ctx p f (unfold check_packet_type in refl) on ∙ (rw (h.end_handler, count));
          holds = rw (← count) same;
        },
      )

  -- From a handler with no open transfer that listens to the sender, a burst of at most 254 data
  -- packets leads to exactly one call, of the handler for the end of a transfer, with all the data
  -- packets of the burst in order; afterwards no transfer is open.
  pub receive-burst :
      (ctx : RxHandlerCtx) (bytes : List ℕ)
      → IsValid ctx
      → view ctx ≡ idle
      → Passes ctx (marker dest src id 0)
      → ctx.capture_end_handler ≡ fn
      → packet_count (length bytes) ≤ packet_capture_max_count
      → let r = receive ctx (burst dest src id true bytes) in
        Delivers fn (map some (fragments dest src id (packet_count (length bytes)) 1 bytes)) r.calls
        × Open dest src id fn idle uint8_max r.ctx
  unfolding receive
  receive-burst ctx bytes v held f c room =
      let n = packet_count (length bytes) in
      let fs = fragments dest src id n 1 bytes in
      let opened = begin-captured dest src id fn ctx v f c held in
      let ctx1 = (rx_packet_handler ctx (some (marker dest src id 0))).ctx in
      let filled =
        fragments-captured dest src id fn n 0 {m = n} ctx1 [] bytes opened.0 refl refl (omega arith)
          room in
      let ended = end-delivered n (receive ctx1 fs).ctx (map some fs) filled.0 (omega arith) in
      let split = receive-append ctx1 fs (marker dest src id uint8_max ∷ []) in
      (
        rw (opened.1, split, filled.1, append-nil) ended.1,
        subst (λ (x : Reception). Open dest src id fn idle uint8_max x.ctx) (sym split) ended.0,
      )
