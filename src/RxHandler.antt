-- ===== src/RxHandler.antt =====
-- The receive handler: src/rx_packet_handler.c and include/rx_packet_handler.h.
-- A function pointer is an `Option` of a number that stands for the function, `none` for NULL. The
-- calls that the handler makes through them are its output, in order; a call through NULL shows
-- as a call with `none`, which C leaves undefined.
pub mod Session
pub mod Invariant
pub mod Filter
pub mod Refine
pub mod Stream
pub mod Echoes
pub mod Burst
pub mod Delivery
pub mod Loss
pub mod Command
mod Tests
use lora_driver_with_network.Prelude.{
  ℕ, ◌+◌, ◌-◌, Bool, true, false, not, ◌&&◌, Option, none, some, List, [], ◌∷◌, leb, ◌==◌,
  if◌then◌else◌, set, replicate,
}
use lora_driver_with_network.Packet.{
  Packet, PacketType, packet_ack, packet_begin, packet_end, packet_data, check_packet_type,
  copy_packet, uint8_max,
}

abbrev pub packet_capture_max_count : ℕ
packet_capture_max_count = uint8_max - 1

pub data RxHandlerReturn : Type 0 where
  packet_rejected : RxHandlerReturn
  command_packet : RxHandlerReturn
  capture_begin : RxHandlerReturn
  capture_end : RxHandlerReturn
  capture_array_full : RxHandlerReturn
  data_packet_captured : RxHandlerReturn
  capture_already_on : RxHandlerReturn
  unknown_packet : RxHandlerReturn
  null_packet : RxHandlerReturn
  capture_not_on : RxHandlerReturn
  packet_redundant : RxHandlerReturn
  handler_not_configured : RxHandlerReturn

pub record RxHandlerCtx : Type 0 where
  pub command_packet_handler : Option ℕ
  pub capture_end_handler : Option ℕ
  pub host_addr : ℕ
  pub remote_src_addr : ℕ
  pub configured : Bool
  pub capture : Bool
  pub capture_ack_id : ℕ
  pub captured_packet_arr : List (Option Packet)
  pub captured_n : ℕ
  pub last_received_ack_id : ℕ
  pub last_received_seq_number : ℕ

pub data Call : Type 0 where
  command_call : Option ℕ → Packet → Call
  capture_end_call : Option ℕ → List (Option Packet) → ℕ → Call

-- The state after the call, the returned code and the calls made.
pub record Handled : Type 0 where
  pub ctx : RxHandlerCtx
  pub ret : RxHandlerReturn
  pub calls : List Call

-- `memset(ctx, 0, sizeof(*ctx))`, then the assignments: nothing of the old state is left.
unfoldable pub rx_handler_init : Option ℕ → Option ℕ → ℕ → ℕ → RxHandlerCtx
rx_handler_init cmd_handler end_handler host_addr remote_src_addr = record {
  command_packet_handler = cmd_handler;
  capture_end_handler = end_handler;
  host_addr = host_addr;
  remote_src_addr = remote_src_addr;
  configured = true;
  capture = false;
  capture_ack_id = 0;
  captured_packet_arr = replicate packet_capture_max_count none;
  captured_n = 0;
  last_received_ack_id = 0;
  last_received_seq_number = 0;
}

unfoldable pub rx_handler_set_remote_addr : RxHandlerCtx → ℕ → RxHandlerCtx
rx_handler_set_remote_addr ctx remote_src_addr = record ctx { remote_src_addr = remote_src_addr }

unfoldable pub rx_handler_reset : RxHandlerCtx → RxHandlerCtx
rx_handler_reset ctx = record ctx { capture = false; captured_n = 0; capture_ack_id = 0 }

unfoldable pub rx_handler_get_captured_array : RxHandlerCtx → List (Option Packet)
rx_handler_get_captured_array ctx = ctx.captured_packet_arr

unfoldable pub on_begin : RxHandlerCtx → Packet → Handled
unfolding rx_handler_reset
on_begin ctx rx_p =
    if not ctx.capture
    then record {
      ctx = record (rx_handler_reset ctx) { capture = true; capture_ack_id = rx_p.ack_id };
      ret = capture_begin;
      calls = [];
    }
    else record { ctx = ctx; ret = capture_already_on; calls = [] }

unfoldable pub on_data : RxHandlerCtx → Packet → Handled
unfolding copy_packet
on_data ctx rx_p =
    if ctx.capture && rx_p.ack_id == ctx.capture_ack_id
    then (if leb packet_capture_max_count ctx.captured_n
        then record { ctx = ctx; ret = capture_array_full; calls = [] }
        else if not (rx_p.sequence_number == ctx.captured_n + 1)
        then record { ctx = ctx; ret = packet_rejected; calls = [] }
        else record {
          ctx = record ctx {
            captured_packet_arr =
                set ctx.captured_packet_arr ctx.captured_n (some (copy_packet rx_p));
            captured_n = ctx.captured_n + 1;
          };
          ret = data_packet_captured;
          calls = [];
        })
    else if not (rx_p.ack_id == ctx.capture_ack_id)
    then record {
      ctx = ctx;
      ret = command_packet;
      calls = command_call ctx.command_packet_handler (copy_packet rx_p) ∷ [];
    }
    else record { ctx = ctx; ret = packet_rejected; calls = [] }

unfoldable pub on_end : RxHandlerCtx → Handled
unfolding rx_handler_reset
on_end ctx =
    if not ctx.capture then record { ctx = ctx; ret = capture_not_on; calls = [] } else record {
      ctx = rx_handler_reset ctx;
      ret = capture_end;
      calls = capture_end_call ctx.capture_end_handler ctx.captured_packet_arr ctx.captured_n ∷ [];
    }

-- The `switch` on the packet's type.
unfoldable pub dispatch : PacketType → RxHandlerCtx → Packet → Handled
unfolding on_begin on_data on_end
dispatch packet_begin ctx rx_p = on_begin ctx rx_p
dispatch packet_data ctx rx_p = on_data ctx rx_p
dispatch packet_end ctx rx_p = on_end ctx
dispatch packet_ack ctx rx_p = record { ctx = ctx; ret = unknown_packet; calls = [] }

-- The tests on the packet that was given, once it is not NULL.
unfoldable pub handle_packet : RxHandlerCtx → Packet → Handled
unfolding dispatch
handle_packet ctx rx_p =
    if not (rx_p.dest_address == ctx.host_addr)
    then record { ctx = ctx; ret = packet_rejected; calls = [] }
    else if not (rx_p.src_address == ctx.remote_src_addr)
    then record { ctx = ctx; ret = packet_rejected; calls = [] }
    else if rx_p.ack_id == ctx.last_received_ack_id
        && rx_p.sequence_number == ctx.last_received_seq_number
    then record { ctx = ctx; ret = packet_redundant; calls = [] }
    else dispatch (check_packet_type rx_p)
        (record ctx {
          last_received_ack_id = rx_p.ack_id;
          last_received_seq_number = rx_p.sequence_number;
        })
        rx_p

unfoldable pub rx_packet_handler : RxHandlerCtx → Option Packet → Handled
unfolding handle_packet
rx_packet_handler ctx rx_p =
    if not ctx.configured
    then record { ctx = ctx; ret = handler_not_configured; calls = [] }
    else elim rx_p [
      | none ↦ record { ctx = ctx; ret = null_packet; calls = [] }
      | some p ↦ handle_packet ctx p
    ]
