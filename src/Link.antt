-- ===== src/Link.antt =====
-- A burst over a link that loses frames: `send_burst` and `send_packet_ensure_ack` of
-- src/sx127x_utils.c on one side, and a receive loop with its handler on the other, as
-- `start_rx_loop` of src/sx127x_rx_utils.c and `rx_task` of examples/esp32c3_6/burst/main/main.c
-- have it. The parts are those of the code; what the radios do in a round is an outcome.
pub mod Travel
pub mod Invariant
pub mod Delivery
pub mod Progress
pub mod Fairness
pub mod Completion
mod Tests
use lora_driver_with_network.Prelude.{
  ℕ, zero, suc, ◌+◌, ◌*◌, ◌≤◌, ◌≡◌, Bool, true, false, ◌&&◌, Option, none, some, List, [], ◌∷◌,
  ◌++◌, if◌then◌else◌, length,
}
use lora_driver_with_network.Packet.{Packet, ack_packet, check_packet_features}
use lora_driver_with_network.RxHandler.{RxHandlerCtx, Call, rx_packet_handler}
use lora_driver_with_network.Radio.Utils.{expected_type, timeout_rounds, phy_timeout_msec}
use lora_driver_with_network.Transfer.{over_air}

-- The sender is at packet `index`, the first of `pending`, with `tries` rounds left for it. The
-- receiver has its handler's state, and the calls that the handler made.
pub record Link : Type 0 where
  pub index : ℕ
  pub pending : List Packet
  pub tries : ℕ
  pub receiver : RxHandlerCtx
  pub calls : List Call

-- The buffers that a frame meets: what is in the transmit buffer before, and what follows the frame in
-- the receive buffer.
pub record Air : Type 0 where
  pub tx : List ℕ
  pub rest : List ℕ
  pub room : 255 ≤ length tx

-- What the radios do in a round: the frame is lost; or the receiver reads another packet instead, one of
-- another station or what it makes of a damaged frame; or the frame arrives, and its acknowledgement
-- is lost or damaged, or arrives.
pub data Outcome : Type 0 where
  lost : Outcome
  disturbed : Packet → Outcome
  unanswered : Air → Outcome
  answered : Air → Air → Outcome

-- The rounds that `send_burst` gives a packet, by its timeout.
abbrev pub all_tries : ℕ
all_tries = timeout_rounds (4 * phy_timeout_msec)

abbrev pub start : List Packet → RxHandlerCtx → Link
start packets ctx = record {
  index = 0;
  pending = packets;
  tries = all_tries;
  receiver = ctx;
  calls = [];
}

-- A packet as the other side parses it.
abbrev pub arrived : Air → Packet → Packet
arrived air p = over_air air.tx air.rest p

-- The receiver handles a packet.
abbrev pub hears : Packet → Link → Link
hears p l =
    let h = rx_packet_handler l.receiver (some p) in
    record l { receiver = h.ctx; calls = l.calls ++ h.calls }

-- The sender's comparison of the answer with what it waits for, and the answer to a packet.
abbrev pub accepts : Air → Packet → ℕ → ℕ → Option Packet → Bool
accepts air p index len none = false
accepts air p index len (some ack) =
    check_packet_features (arrived air ack) p.dest_address p.src_address p.ack_id p.sequence_number
      (expected_type index len)

abbrev pub answer_to : Packet → Option Packet
answer_to q = ack_packet q.src_address q.dest_address q.ack_id q.sequence_number

-- A round of the sender for the packet `p`, with the packets after it and the tries left after this
-- one; `len` is the number of packets of the burst.
abbrev pub transmission : ℕ → Outcome → Packet → List Packet → ℕ → Link → Link
transmission len lost p ps k l = record l { tries = k }
transmission len (disturbed q) p ps k l = record (hears q l) { tries = k }
transmission len (unanswered air) p ps k l = record (hears (arrived air p) l) { tries = k }
transmission len (answered air back) p ps k l =
    let q = arrived air p in
    if accepts back p l.index len (answer_to q)
    then record (hears q l) { index = l.index + 1; pending = ps; tries = all_tries }
    else record (hears q l) { tries = k }

-- With nothing pending, or no try left, the sender is done.
abbrev pub round : ℕ → Outcome → List Packet → ℕ → Link → Link
round len o [] k l = l
round len o (p ∷ ps) zero l = l
round len o (p ∷ ps) (suc k) l = transmission len o p ps k l

abbrev pub run : ℕ → List Outcome → Link → Link
run len [] l = l
run len (o ∷ os) l = run len os (round len o l.pending l.tries l)

-- No packet that disturbs the link pretends to be of this sender for this receiver.
abbrev pub Honest : ℕ → ℕ → List Outcome → Type 0
Honest dest src [] = Unit
Honest dest src (lost ∷ os) = Honest dest src os
Honest dest src (disturbed q ∷ os) =
    ¬ ((q.dest_address ≡ dest) × (q.src_address ≡ src)) × Honest dest src os
Honest dest src (unanswered air ∷ os) = Honest dest src os
Honest dest src (answered air back ∷ os) = Honest dest src os
