-- ===== src/Radio/Utils/Rounds.antt =====
-- Every way in which `send_packet_ensure_ack` of src/sx127x_utils.c ends.
use Prim.Native.Nat.{bit_or}
use Prim.Native.String.{String}
use lora_driver_with_network.Prelude.{ℕ, suc, ◌≤◌, ◌≡◌, true, false, Option, some}
use lora_driver_with_network.Packet.{Packet, PacketType, payload_length_max}
use lora_driver_with_network.Packet.Kind.{Matches}
use lora_driver_with_network.Platform.{SxErr, sx_ok, sx_timeout, is_ok, log_info_low}
use lora_driver_with_network.Radio.{Radio, log_with_tag, log_err}
use lora_driver_with_network.Radio.Config.{
  mode_lora, mode_sleep, sx1278_clear_irq, sx1278_switch_mode,
}
use lora_driver_with_network.Radio.Utils.{
  tag, phy_timeout_msec, sx_1278_send_packet, sx1278_poll_and_read_packet,
}

-- The radio after the cleanup, whose codes are not looked at.
abbrev pub asleep : Radio → Radio
asleep s = (sx1278_switch_mode (bit_or mode_lora mode_sleep) (sx1278_clear_irq s).1).1

-- The radio after a retry was logged.
abbrev pub retried : String → Radio → Radio
retried text s = (log_with_tag tag text log_info_low s).1

-- With so many tries left, from the state, the call returns the code in the state `v`: there is no try
-- left; or the send fails; or no packet is read, or one that does not match and can be described, and
-- the tries that are left decide; or the packet that is read matches.
pub data Tried (fuel : ℕ) (p : Packet) (t : PacketType) (v : Radio)
    : ℕ → Packet → SxErr → Radio → Type 0 where
  no_try_left : {rx_p : Packet} {s : Radio} → v ≡ asleep s → Tried fuel p t v 0 rx_p sx_timeout s
  not_sent :
      {n : ℕ} {rx_p : Packet} {s : Radio} (ret : SxErr) (a : Radio)
      → sx_1278_send_packet fuel p true s ≡ (some ret, a)
      → is_ok ret ≡ false
      → v ≡ asleep (log_err tag "error occured while sending the packet" a).1
      → Tried fuel p t v (suc n) rx_p ret s
  not_read :
      {n : ℕ} {rx_p : Packet} {ret : SxErr} {s : Radio} (e : SxErr) (q : Packet) (a b : Radio)
      → sx_1278_send_packet fuel p true s ≡ (some sx_ok, a)
      → sx1278_poll_and_read_packet fuel rx_p phy_timeout_msec a ≡ (some (e, q), b)
      → is_ok e ≡ false
      → Tried fuel p t v n q ret (retried "error occured while reading packet. retrying..." b)
      → Tried fuel p t v (suc n) rx_p ret s
  not_matched :
      {n : ℕ} {rx_p : Packet} {ret : SxErr} {s : Radio} (q : Packet) (a b : Radio)
      → sx_1278_send_packet fuel p true s ≡ (some sx_ok, a)
      → sx1278_poll_and_read_packet fuel rx_p phy_timeout_msec a ≡ (some (sx_ok, q), b)
      → ¬ Matches q p.dest_address p.src_address p.ack_id p.sequence_number t
      → q.payload_length ≤ payload_length_max
      → Tried fuel p t v n q ret (retried "mismatched packet. retrying..." b)
      → Tried fuel p t v (suc n) rx_p ret s
  acknowledged :
      {n : ℕ} {rx_p : Packet} {s : Radio} (q : Packet) (a b : Radio)
      → sx_1278_send_packet fuel p true s ≡ (some sx_ok, a)
      → sx1278_poll_and_read_packet fuel rx_p phy_timeout_msec a ≡ (some (sx_ok, q), b)
      → Matches q p.dest_address p.src_address p.ack_id p.sequence_number t
      → v ≡ asleep (retried "ack accepted" b)
      → Tried fuel p t v (suc n) rx_p sx_ok s

-- What a run has to show: if it returned a code, then by these tries.
abbrev Shows : ℕ → Packet → PacketType → ℕ → Packet → Radio → Option SxErr × Radio → Type 0
Shows fuel p t n rx_p s r = (ret : SxErr) → r.0 ≡ some ret → Tried fuel p t r.1 n rx_p ret s
