-- ===== src/Link/Delivery.antt =====
-- What the receiving application is told of a burst over the link, at every moment.
use lora_driver_with_network.Prelude.{
  ℕ, ◌≤◌, ◌<◌, ◌≡◌, ◌≢◌, refl, subst, ap, sym, ◌∙◌, ◌⊎◌, inl, inr, true, Option, some, List, [],
  ◌∷◌, ◌++◌, append-nil, append_assoc, map, take, drop, length, length-map,
}
use lora_driver_with_network.Packet.{Packet}
use lora_driver_with_network.NetworkData.{packet_count, packet_array_to_data}
use lora_driver_with_network.NetworkData.Fragments.{fragments, marker, burst}
use lora_driver_with_network.NetworkData.Reassembly.{
  packet_array_to_data-fragments, length-fragments,
}
use lora_driver_with_network.RxHandler.{
  RxHandlerCtx, Call, capture_end_call, packet_capture_max_count,
}
use lora_driver_with_network.RxHandler.Invariant.{IsValid}
use lora_driver_with_network.RxHandler.Session.{idle, view}
use lora_driver_with_network.RxHandler.Refine.{Passes}
use lora_driver_with_network.RxHandler.Stream.{Reception, receive, receive-append}
use lora_driver_with_network.RxHandler.Delivery.{receive-burst}
use lora_driver_with_network.Link.{Link, Outcome, Honest, start, run}
use lora_driver_with_network.Link.Travel.{burst-AllTravel}
use lora_driver_with_network.Link.Invariant.{
  Heard, Front, level, ahead, IsSound, run-IsSound, start-IsSound,
}

-- A part of a list of one element.
part_of_one : (xs ys : List Call) (c : Call) → xs ++ ys ≡ c ∷ [] → (xs ≡ []) ⊎ (xs ≡ c ∷ [])
part_of_one [] ys c e = inl refl
part_of_one (x ∷ []) ys c e = inr (cc)
part_of_one (x ∷ y ∷ xs) ys c e = absurd (cc)

-- Nothing yet, and something is pending; or this one call.
abbrev ToldOnce : Call → Link → Type 0
ToldOnce c l = ((l.calls ≡ []) × (l.pending ≢ [])) ⊎ (l.calls ≡ c ∷ [])

module _ (packets : List Packet) (ctx : RxHandlerCtx) (c : Call)
    (whole : (receive ctx packets).calls ≡ c ∷ []) where
  front_calls :
      (front back : List Packet)
      → packets ≡ front ++ back
      → ((receive ctx front).calls ≡ []) ⊎ ((receive ctx front).calls ≡ c ∷ [])
  front_calls front back e =
      part_of_one (receive ctx front).calls (receive (receive ctx front).ctx back).calls c (
        ap (λ (r : Reception). r.calls) (sym (receive-append ctx front back))
        ∙ ap (λ ps. (receive ctx ps).calls) (sym e)
        ∙ whole)

  -- A front part without a call is not all of the packets.
  no_call :
      (front back : List Packet)
      → packets ≡ front ++ back
      → (receive ctx front).calls ≡ []
      → back ≢ []
  no_call front back e none_yet empty =
      let all : packets ≡ front = e ∙ ap (λ ps. front ++ ps) empty ∙ append-nil front in
      let one : (receive ctx front).calls ≡ c ∷ [] =
        ap (λ ps. (receive ctx ps).calls) (sym all) ∙ whole in
      cc

  cons_nonempty : (p : Packet) (ps : List Packet) (l : Link) → l.pending ≡ p ∷ ps → l.pending ≢ []
  cons_nonempty p ps l e f = cc

  IsSound-ToldOnce : (l : Link) → IsSound packets ctx l → ToldOnce c l
  IsSound-ToldOnce l s = cases s.front
    where
      by_front :
          (front back : List Packet)
          → packets ≡ front ++ back
          → Heard ctx front l
          → (back ≢ [] → l.pending ≢ [])
          → ToldOnce c l
      by_front front back e h more =
          let calls : (receive ctx front).calls ≡ l.calls = ap (λ (r : Reception). r.calls) h in
          elim (front_calls front back e) [
            | inl quiet ↦ inl (sym calls ∙ quiet, more (no_call front back e quiet))
            | inr one ↦ inr (sym calls ∙ one)
          ]

      cases : Front ctx s.acked l → ToldOnce c l
      cases (level h) = by_front s.acked l.pending s.whole h (λ n. n)
      cases (ahead p ps e h) =
          by_front (s.acked ++ p ∷ []) ps
            (s.whole ∙ ap (λ qs. s.acked ++ qs) e ∙ sym (append_assoc s.acked (p ∷ []) ps)) h
            (λ _. cons_nonempty p ps l e)

-- A burst over a link that loses frames and acknowledgements in any way, and on which the receiver may
-- read any packets that do not pretend to be of this sender for it, at every moment: the receiving application was told nothing, and then the sender still has packets pending; or it got
-- exactly one call, of the handler for the end of a transfer, with an array and a count from which
-- `packet_array_to_data` puts all the data at the start of a buffer that has room. The receiver
-- listens to this sender, has no open transfer at the start, and does not take the BEGIN for a
-- duplicate; the data has at most 254 packets.
pub run_told :
    (dest src id len : ℕ) (bytes out : List ℕ) (ctx : RxHandlerCtx) (os : List Outcome)
    → dest < 65536
    → src < 65536
    → id < 256
    → packet_count (length bytes) ≤ packet_capture_max_count
    → length bytes ≤ length out
    → IsValid ctx
    → view ctx ≡ idle
    → Passes ctx (marker dest src id 0)
    → Honest dest src os
    → let n = packet_count (length bytes) in
      let l = run len os (start (burst dest src id true bytes) ctx) in
      ((l.calls ≡ []) × (l.pending ≢ []))
      ⊎ ((array : List (Option Packet)) × (l.calls
            ≡ capture_end_call ctx.capture_end_handler array n ∷ [])
          × (packet_array_to_data array out n ≡ some (bytes ++ drop (length bytes) out)))
run_told dest src id len bytes out ctx os df sf idf few room v held f honest =
    let n = packet_count (length bytes) in
    let fs = fragments dest src id n 1 bytes in
    let packets = burst dest src id true bytes in
    let d = (receive-burst dest src id ctx.capture_end_handler ctx bytes v held f refl few).0 in
    let count : length (map some fs) ≡ n =
      length-map some fs ∙ length-fragments dest src id n 1 bytes in
    let call = capture_end_call ctx.capture_end_handler d.array n in
    let once : (receive ctx packets).calls ≡ call ∷ [] =
      d.once ∙ ap (λ k. capture_end_call ctx.capture_end_handler d.array k ∷ []) count in
    let here : Honest ctx.host_addr ctx.remote_src_addr os =
      subst (λ a. Honest a ctx.remote_src_addr os) f.to_host
        (subst (λ b. Honest dest b os) f.from_remote honest) in
    let sound =
      run-IsSound packets ctx len os (start packets ctx) here
        (start-IsSound packets ctx len (burst-AllTravel dest src id df sf idf bytes)) in
    elim (IsSound-ToldOnce packets ctx call once (run len os (start packets ctx)) sound) [
      | inl quiet ↦ inl quiet
      | inr told ↦ inr (
        d.array,
        told,
        packet_array_to_data-fragments dest src id 1 bytes out d.array
            (ap (λ k. take k d.array) (sym count) ∙ d.holds) room,
      )
    ]
