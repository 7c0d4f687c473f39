-- ===== src/Examples/Burst/Sender.antt =====
-- The sender's task of examples/esp32c3_6/burst/main/main.c.
use lora_driver_with_network.Prelude.{
  ℕ, ◌⊎◌, inl, inr, ◌+◌, ◌*◌, ◌<◌, ◌≡◌, refl, ap, sym, subst, ◌∙◌, arith, Bool, true, false, not,
  Option, none, some, List, [], ◌∷◌, map, if◌then◌else◌, if-cases, length,
}
use lora_driver_with_network.Packet.{Packet, payload_length_max}
use lora_driver_with_network.NetworkData.{packet_count, sizeof_pointer}
use lora_driver_with_network.NetworkData.Fragments.{burst, data_to_packet_array-burst}
use lora_driver_with_network.Platform.{SxErr, is_ok}
use lora_driver_with_network.Radio.{Radio, Io, ◌>>=?◌}
use lora_driver_with_network.Radio.Cases.{is_ok→eq}
use lora_driver_with_network.Radio.Trace.{some_at}
use lora_driver_with_network.Radio.Utils.{send_burst}
use lora_driver_with_network.Radio.Utils.Ack.{AllAnswered, send_burst-AllAnswered}
use lora_driver_with_network.Radio.Utils.Ending.{IsLive, Overran, Overran-some, send_burst-Ends}
use lora_driver_with_network.Examples.Burst.{
  sender_addr, receiver_addr, burst_ack_id, burst_data, SenderEnd, out_of_memory, not_built,
  burst_send_failed, burst_sent, after_burst, dereferenced, send_packets, send_built, sender_task,
}

dereferenced-map : (ps : List Packet) → dereferenced (map some ps) ≡ some ps
unfolding dereferenced
dereferenced-map [] = refl
dereferenced-map (p ∷ ps) = rw (dereferenced-map ps) refl

-- The packets of the example.
abbrev pub packets : List Packet
packets = burst receiver_addr sender_addr burst_ack_id true burst_data

-- How the task ends, and what it did by then: it ran out of memory, or sent the packets.
data Ran (fuel : ℕ) (rx_p : Packet) (s : Radio) : Option SenderEnd × Radio → Type 0 where
  early : (end : SenderEnd) → ¬ (end ≡ burst_sent) → Ran fuel rx_p s (some end, s)
  sending : Ran fuel rx_p s ((send_burst fuel rx_p packets >>=? after_burst) s)

built-Ran :
    (fuel : ℕ) (rx_p : Packet) (s : Radio) (b : Bool)
    → Ran fuel rx_p s (send_built fuel rx_p (if b then some (map some packets) else none) s)
unfolding send_built send_packets
built-Ran fuel rx_p s true = rw (dereferenced-map packets) sending
built-Ran fuel rx_p s false = early not_built (λ e. ground arith)

sender_task-Ran :
    (fuel : ℕ) (rx_p : Packet) (malloc realloc : ℕ → Bool) (s : Radio)
    → Ran fuel rx_p s (sender_task fuel rx_p malloc realloc s)
unfolding sender_task
sender_task-Ran fuel rx_p malloc realloc s =
    if-cases (λ (m : Io (Option SenderEnd)). Ran fuel rx_p s (m s))
      (not (malloc ((packet_count (length burst_data) + 2) * sizeof_pointer)))
      (λ _. early out_of_memory (λ e. ground arith))
      (λ _.
        subst (λ a. Ran fuel rx_p s (send_built fuel rx_p a s))
          (sym (
            data_to_packet_array-burst receiver_addr sender_addr burst_ack_id malloc realloc
              burst_data true))
          (built-Ran fuel rx_p s _))

-- What the theorem says of a run.
abbrev Settled : ℕ → Radio → Option SenderEnd × Radio → Type 0
Settled fuel s r =
    (end : SenderEnd) × (r.0 ≡ some end) × (end ≡ burst_sent → AllAnswered fuel r.1 0 packets s)

burst-Settled :
    (fuel : ℕ) (rx_p : Packet) (s : Radio) (ret : SxErr)
    → (send_burst fuel rx_p packets s).0 ≡ some ret
    → Settled fuel s (after_burst ret (send_burst fuel rx_p packets s).1)
unfolding after_burst
burst-Settled fuel rx_p s ret e =
    let v = (send_burst fuel rx_p packets s).1 in
    if-cases (λ (m : Io (Option SenderEnd)). Settled fuel s (m v)) (not (is_ok ret))
      (λ bad. (burst_send_failed, refl, λ e. absurd (ground arith)))
      (λ good. (
        burst_sent,
        refl,
        λ _.
            send_burst-AllAnswered fuel rx_p packets s
              (e ∙ ap (λ (r : SxErr). some r) (is_ok→eq ret (ground arith))),
      ))

Ran-Settled :
    (fuel : ℕ) (rx_p : Packet) (s : Radio) (r : Option SenderEnd × Radio)
    → 3001 < fuel
    → IsLive s
    → Ran fuel rx_p s r
    → Settled fuel s r ⊎ Overran payload_length_max r
Ran-Settled fuel rx_p s r enough l (early end other) = inl (end, refl, λ e. absurd (other e))
Ran-Settled fuel rx_p s r enough l sending =
    let send = send_burst fuel rx_p packets in
    elim (send_burst-Ends fuel rx_p packets s enough l) [
      | inl (ret, e) ↦ inl (
          subst (λ r. Settled fuel s r)
            (sym (
              some_at send after_burst s (send s).1 ret
                (ap (λ (o : Option SxErr). (o, (send s).1)) e)))
            (burst-Settled fuel rx_p s ret e))
      | inr o ↦ inr (Overran-some payload_length_max send after_burst s o)
    ]

-- On a port that is initialised, with a clock that does not go back and that a delay moves on by what
-- was asked, whatever else the platform answers and whichever allocations fail: the sender's task
-- ends, and if it prints "burst sent", then every packet of the example's burst, in order, was sent
-- with SX_OK during the task, and an answer to it was read that agrees with it; or the last that the
-- task did was to copy a payload of more than eight bytes over the end of the buffer of
-- `packet_description`.
pub sender_task-Settled :
    (fuel : ℕ) (rx_p : Packet) (malloc realloc : ℕ → Bool) (s : Radio)
    → 3001 < fuel
    → IsLive s
    → let r = sender_task fuel rx_p malloc realloc s in
      ((end : SenderEnd) × (r.0 ≡ some end) × (end ≡ burst_sent → AllAnswered fuel r.1 0 packets s))
      ⊎ Overran payload_length_max r
sender_task-Settled fuel rx_p malloc realloc s enough l =
    Ran-Settled fuel rx_p s _ enough l (sender_task-Ran fuel rx_p malloc realloc s)
