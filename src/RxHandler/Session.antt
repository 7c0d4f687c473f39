-- ===== src/RxHandler/Session.antt =====
-- What the receive handler promises, with no array, no counter and no flag: a transfer is open or
-- not, and an open one has an identifier and the packets captured so far.
use lora_driver_with_network.Prelude.{
  ℕ, ◌+◌, Option, some, List, [], ◌∷◌, ◌++◌, leb, ◌==◌, if◌then◌else◌, take, length,
}
use lora_driver_with_network.Packet.{
  Packet, PacketType, packet_ack, packet_begin, packet_end, packet_data, copy_packet,
}
use lora_driver_with_network.RxHandler.{
  RxHandlerCtx, RxHandlerReturn, packet_rejected, command_packet, capture_begin, capture_end,
  capture_array_full, data_packet_captured, capture_already_on, unknown_packet, capture_not_on,
  Call, command_call, capture_end_call, packet_capture_max_count,
}

pub data Session : Type 0 where
  idle : Session
  capturing : ℕ → List (Option Packet) → Session

-- What the application is told.
pub data Notice : Type 0 where
  command : Packet → Notice
  finished : List (Option Packet) → Notice

pub record Outcome : Type 0 where
  pub session : Session
  pub ret : RxHandlerReturn
  pub notices : List Notice

-- A data packet in an open transfer.
unfoldable pub collect : ℕ → List (Option Packet) → Packet → Outcome
collect id ps p =
    if p.ack_id == id
    then (if leb packet_capture_max_count (length ps)
        then record { session = capturing id ps; ret = capture_array_full; notices = [] }
        else if p.sequence_number == length ps + 1
        then record {
          session = capturing id (ps ++ some (copy_packet p) ∷ []);
          ret = data_packet_captured;
          notices = [];
        }
        else record { session = capturing id ps; ret = packet_rejected; notices = [] })
    else record {
      session = capturing id ps;
      ret = command_packet;
      notices = command (copy_packet p) ∷ [];
    }

-- One packet that passed the filter. A data packet outside of a transfer is a command.
unfoldable pub accept : Session → PacketType → Packet → Outcome
unfolding collect
accept idle packet_begin p = record {
  session = capturing p.ack_id [];
  ret = capture_begin;
  notices = [];
}
accept (capturing id ps) packet_begin p = record {
  session = capturing id ps;
  ret = capture_already_on;
  notices = [];
}
accept idle packet_data p = record {
  session = idle;
  ret = command_packet;
  notices = command (copy_packet p) ∷ [];
}
accept (capturing id ps) packet_data p = collect id ps p
accept idle packet_end p = record { session = idle; ret = capture_not_on; notices = [] }
accept (capturing id ps) packet_end p = record {
  session = idle;
  ret = capture_end;
  notices = finished ps ∷ [];
}
accept s packet_ack p = record { session = s; ret = unknown_packet; notices = [] }

-- The session that a state of the handler stands for.
abbrev pub view : RxHandlerCtx → Session
view ctx =
    if ctx.capture
    then capturing ctx.capture_ack_id (take ctx.captured_n ctx.captured_packet_arr)
    else idle

abbrev pub notice : Call → Notice
notice (command_call _ p) = command p
notice (capture_end_call _ arr n) = finished (take n arr)
