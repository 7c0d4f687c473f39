-- ===== src/Radio/RxLoop.antt =====
-- The receive loop: `start_rx_loop` of src/sx127x_rx_utils.c.
pub mod Delivered
pub mod Keeping
use Prim.Native.Nat.{bit_or}
use Prim.Native.String.{String}
use lora_driver_with_network.Prelude.{
  ℕ, zero, suc, Bool, true, false, not, Option, none, some, List, [], ◌∷◌, ◌++◌, if◌then◌else◌,
}
use lora_driver_with_network.Packet.{Packet, ack_packet}
use lora_driver_with_network.Platform.{SxErr, is_ok}
use lora_driver_with_network.Radio.{Radio, Io, pure, ◌>>=◌, ◌>>◌, attempt, finish, ◌>>=?◌, log_err}
use lora_driver_with_network.Radio.Config.{
  mode_lora, mode_rx_continuous, sx1278_switch_mode, sx1278_clear_irq,
}
use lora_driver_with_network.Radio.RxUtils.{read_last_packet}
use lora_driver_with_network.Radio.Utils.{sx_1278_send_packet, poll_for_irq_flag_no_timeout}
use lora_driver_with_network.RxHandler.{RxHandlerCtx, Call, rx_packet_handler}

abbrev pub tag : String
tag = "RX_UTILS"

-- How a round of the loop ends: `goto cleanup` with a code, `continue`, or a packet that is given
-- to the handler.
pub data Round : Type 0 where
  stop : SxErr → Round
  again : Round
  deliver : Packet → Round

-- The end of a round, by the code of the send of the acknowledgement.
unfoldable pub after_ack : Packet → SxErr → Io (Option Round)
after_ack rx_p ret =
    if not (is_ok ret)
    then (log_err tag "error occured while sending the ack packet" >> finish (stop ret))
    else finish (deliver rx_p)

-- The handler, which is called next, does not touch the radio. `ack_packet` does not return NULL,
-- which the send would dereference.
unfoldable pub acknowledge : ℕ → Packet → Option Packet → Io (Option Round)
acknowledge fuel rx_p none = pure none
acknowledge fuel rx_p (some ack) = sx_1278_send_packet fuel ack false >>=? after_ack rx_p

unfoldable pub after_read : ℕ → SxErr × Packet → Io (Option Round)
after_read fuel (ret, rx_p) =
    if not (is_ok ret)
    then (log_err tag "error occured while reading the last packet" >> finish again)
    else acknowledge fuel rx_p
        (ack_packet rx_p.src_address rx_p.dest_address rx_p.ack_id rx_p.sequence_number)

-- A round up to the call of the handler. `none` is a wait that the fuel was too short for.
unfoldable pub rx_round : ℕ → Io (Option Round)
rx_round fuel =
    attempt sx1278_clear_irq (λ ret. log_err tag "couldnt clear irq" >> finish (stop ret))
      (attempt (sx1278_switch_mode (bit_or mode_lora mode_rx_continuous))
        (λ ret. log_err tag "error occured while switching mode" >> finish (stop ret))
        (poll_for_irq_flag_no_timeout fuel 1 64 false 0 >>=? λ ret.
          if not (is_ok ret)
          then (log_err tag "failed poll for packet received flag. " >> finish again)
          else (read_last_packet >>= after_read fuel)))

-- What the loop did: the code if it ended, the handler's state, and the calls of the application.
pub record Served : Type 0 where
  pub ret : Option SxErr
  pub handler : RxHandlerCtx
  pub calls : List Call

-- The end of a round, with the rounds that follow.
unfoldable pub serve : (RxHandlerCtx → Io Served) → RxHandlerCtx → Option Round → Io Served
serve next handler none = pure (record { ret = none; handler = handler; calls = [] })
serve next handler (some (stop ret)) =
    pure (record { ret = some ret; handler = handler; calls = [] })
serve next handler (some again) = next handler
serve next handler (some (deliver p)) =
    let h = rx_packet_handler handler (some p) in
    next h.ctx >>= λ rest. pure (record rest { calls = h.calls ++ rest.calls })

-- At most `n` rounds of the `while (1)`.
unfoldable pub rx_rounds : ℕ → ℕ → RxHandlerCtx → Io Served
unfolding serve
rx_rounds fuel zero handler = pure (record { ret = none; handler = handler; calls = [] })
rx_rounds fuel (suc n) handler = rx_round fuel >>= serve (rx_rounds fuel n) handler

unfoldable pub start_rx_loop : ℕ → ℕ → RxHandlerCtx → Io Served
start_rx_loop fuel n handler =
    attempt (sx1278_switch_mode (bit_or mode_lora mode_rx_continuous))
      (λ ret.
        log_err tag "error occured while switching mode"
        >> pure (record { ret = some ret; handler = handler; calls = [] }))
      (rx_rounds fuel n handler)
