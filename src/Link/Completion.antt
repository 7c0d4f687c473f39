-- ===== src/Link/Completion.antt =====
-- A burst over a link that is fair arrives.
use lora_driver_with_network.Prelude.{
  ℕ, ◌≤◌, ◌<◌, ◌≡◌, inl, inr, arith, true, Option, some, List, [], ◌∷◌, ◌++◌, drop, length,
}
use lora_driver_with_network.Packet.{Packet}
use lora_driver_with_network.NetworkData.{packet_count, packet_array_to_data}
use lora_driver_with_network.NetworkData.Fragments.{marker, burst}
use lora_driver_with_network.RxHandler.{RxHandlerCtx, capture_end_call}
use lora_driver_with_network.RxHandler.Invariant.{IsValid}
use lora_driver_with_network.RxHandler.Session.{idle, view}
use lora_driver_with_network.RxHandler.Refine.{Passes}
use lora_driver_with_network.Link.{Outcome, Honest, start, run}
use lora_driver_with_network.Link.Delivery.{run_told}
use lora_driver_with_network.Link.Fairness.{Fair, run-Fair_completes}

-- When the link lets at least one of the four tries for each packet of a burst through, together with
-- its acknowledgement, and other packets that the receiver reads do not pretend to be of this sender
-- for it: the sender gets to the end of the burst, and the receiving application gets
-- exactly one call, of the handler for the end of a transfer, with an array and a count from which
-- `packet_array_to_data` puts all the data at the start of a buffer that has room. The receiver listens
-- to this sender, has no open transfer at the start, and does not take the BEGIN for a duplicate; the
-- data has at most 2032 bytes.
pub run-Fair_delivers :
    (dest src id : ℕ) (bytes out : List ℕ) (ctx : RxHandlerCtx) (os : List Outcome)
    → dest < 65536
    → src < 65536
    → id < 256
    → length bytes ≤ 2032
    → length bytes ≤ length out
    → IsValid ctx
    → view ctx ≡ idle
    → Passes ctx (marker dest src id 0)
    → let packets = burst dest src id true bytes in
      let n = packet_count (length bytes) in
      let l = run (length packets) os (start packets ctx) in
      Honest dest src os
      → Fair (length packets) os
      → (l.pending ≡ [])
        × ((array : List (Option Packet)) × (l.calls
              ≡ capture_end_call ctx.capture_end_handler array n ∷ [])
            × (packet_array_to_data array out n ≡ some (bytes ++ drop (length bytes) out)))
run-Fair_delivers dest src id bytes out ctx os df sf idf small room v held f honest fair =
    let len = length (burst dest src id true bytes) in
    let done = run-Fair_completes dest src id bytes ctx os df sf idf small fair in
    elim (run_told dest src id len bytes out ctx os df sf idf (omega arith) room v held f honest) [
      | inl (_, more) ↦ absurd (more done)
      | inr told ↦ (done, told)
    ]
