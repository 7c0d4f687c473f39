-- ===== src/Examples/Pingpong.antt =====
-- The ping-pong example: examples/esp32c3_6/pingpong/main/main.c. The ends of a run are named after the
-- texts that the code logs there; the other output to the log is left out.
pub mod Rally
pub mod Ends
use Prim.Native.Nat.{bit_or}
use Prim.Native.String.{String}
use lora_driver_with_network.Prelude.{
  ℕ, zero, suc, Bool, true, false, not, ◌&&◌, ◌||◌, Option, none, some, List, [], ◌∷◌, ◌==◌, ltb,
  if◌then◌else◌, take, length,
}
use lora_driver_with_network.Platform.{SxErr, is_ok, History, uninitialized}
use lora_driver_with_network.Platform.Logger.{LoggerCtx}
use lora_driver_with_network.Platform.Timer.{sx127x_timer_init}
use lora_driver_with_network.Radio.{Io, pure, ◌>>=◌, attempt, finish, overrun, ◌>>=?◌}
use lora_driver_with_network.Radio.Config.{
  mode_lora, mode_rx_continuous, sx1278_switch_mode, initialize_sx_1278,
}
use lora_driver_with_network.Radio.Driver.{
  poll_for_irq_flag, sx1278_send_payload, sx1278_read_last_payload,
}
use lora_driver_with_network.Radio.Utils.{phy_timeout_msec}
use lora_driver_with_network.Examples.Spi.{Idf}
use lora_driver_with_network.Examples.Spi.Port.{lora_port, no_logger}

-- The bytes of "ping" and "pong".
abbrev pub ping_str : List ℕ
ping_str = 112 ∷ 105 ∷ 110 ∷ 103 ∷ []

abbrev pub pong_str : List ℕ
pong_str = 112 ∷ 111 ∷ 110 ∷ 103 ∷ []

abbrev pub rounds : ℕ
rounds = 5

-- How a run ends.
pub data Ending : Type 0 where
  not_in_rx_mode : Ending
  not_sent : Ending
  timed_out : Ending
  not_read : Ending
  unexpected_payload : Ending
  all_rounds : Ending

-- The test `memcmp(a, b, n) == 0` on buffers of this length.
abbrev pub same : List ℕ → List ℕ → Bool
same [] [] = true
same [] (y ∷ ys) = false
same (x ∷ xs) [] = false
same (x ∷ xs) (y ∷ ys) = x == y && same xs ys

-- The negation of `len != strlen(str) || memcmp(buf, str, len) != 0`.
unfoldable pub holds : List ℕ → List ℕ → ℕ → Bool
holds str buf len = len == length str && same (take len buf) str

-- The size of `buf` in both roles.
abbrev pub buf_size : ℕ
buf_size = 64

-- The read of a round and the comparison. The read puts as many bytes into `buf` as the radio reports; if
-- more than it has room for came back, then it was overrun. `next` is what follows with the
-- buffer and `len`.
unfoldable pub after_read :
    List ℕ → (List ℕ → ℕ → Io (Option Ending)) → SxErr × (List ℕ × ℕ) → Io (Option Ending)
after_read str next (ret, (buf, len)) =
    if ltb buf_size (length buf)
    then overrun (length buf)
    else if not (is_ok ret)
    then finish not_read
    else if holds str buf len
    then next buf len
    else finish unexpected_payload

unfoldable pub after_wait :
    List ℕ → List ℕ → ℕ → (List ℕ → ℕ → Io (Option Ending)) → SxErr → Io (Option Ending)
unfolding after_read
after_wait str buf len next ret =
    if not (is_ok ret)
    then finish timed_out
    else (sx1278_read_last_payload buf len >>= after_read str next)

-- A round of the sender after the send.
unfoldable pub after_ping :
    ℕ → List ℕ → ℕ → (List ℕ → ℕ → Io (Option Ending)) → SxErr → Io (Option Ending)
unfolding after_wait
after_ping fuel buf len next ret =
    if not (is_ok ret)
    then finish not_sent
    else (poll_for_irq_flag fuel phy_timeout_msec 3 64 false >>=? after_wait pong_str buf len next)

-- The `for` loop of the sender, with the rounds that are left.
unfoldable pub sender_rounds : ℕ → ℕ → List ℕ → ℕ → Io (Option Ending)
unfolding after_ping
sender_rounds fuel zero buf len = finish all_rounds
sender_rounds fuel (suc n) buf len =
    sx1278_send_payload fuel ping_str (length ping_str) true
    >>=? after_ping fuel buf len (sender_rounds fuel n)

-- `buf` is an array of 64 bytes. It and `len` are not initialised, so they may hold anything.
unfoldable pub run_sender : ℕ → List ℕ → ℕ → Io (Option Ending)
run_sender fuel buf len = sender_rounds fuel rounds buf len

-- The end of a round of the receiver.
unfoldable pub after_pong : Io (Option Ending) → SxErr → Io (Option Ending)
after_pong next ret = if not (is_ok ret) then finish not_sent else next

unfoldable pub receiver_rounds : ℕ → ℕ → List ℕ → ℕ → Io (Option Ending)
unfolding after_wait after_pong
receiver_rounds fuel zero buf len = finish all_rounds
receiver_rounds fuel (suc n) buf len =
    poll_for_irq_flag fuel 30000 3 64 false
    >>=? after_wait ping_str buf len (λ buf len.
      sx1278_send_payload fuel pong_str (length pong_str) true
      >>=? after_pong (receiver_rounds fuel n buf len))

unfoldable pub run_receiver : ℕ → List ℕ → ℕ → Io (Option Ending)
run_receiver fuel buf len =
    attempt (sx1278_switch_mode (bit_or mode_lora mode_rx_continuous))
      (λ ret. finish not_in_rx_mode) (receiver_rounds fuel rounds buf len)

-- What is printed to the console.
unfoldable pub printed : Ending → List String
printed not_in_rx_mode = []
printed not_sent = []
printed timed_out = []
printed not_read = []
printed unexpected_payload = []
printed all_rounds = "test passed\n" ∷ []

-- The role, a setting of the build.
unfoldable pub run_role : ℕ → Bool → List ℕ → ℕ → Io (Option (List String))
run_role fuel true buf len =
    run_sender fuel buf len >>=? λ end. finish ("sx1278 init ok\n" ∷ printed end)
run_role fuel false buf len = run_receiver fuel buf len >>=? λ end. finish ("sx1278 init ok\n" ∷ [])

-- After `spi_init`, which gave the handle.
unfoldable pub app_main :
    ℕ → Bool → Idf → ℕ → (History → ℕ) → List ℕ → ℕ → Io (Option (List String))
app_main fuel is_sender idf spi_handle get_time_us buf len =
    attempt
      (initialize_sx_1278 (lora_port idf spi_handle) no_logger (sx127x_timer_init get_time_us))
      (λ ret. finish ("init failed\n" ∷ [])) (run_role fuel is_sender buf len)
