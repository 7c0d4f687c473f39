-- ===== src/Examples/Pingpong/Ends.antt =====
-- The roles of examples/esp32c3_6/pingpong/main/main.c come to an end.
use Prim.Native.String.{String}
use lora_driver_with_network.Prelude.{
  ℕ, zero, suc, ◌≤◌, ◌<◌, ◌≡◌, refl, ap, sym, subst, ◌⊎◌, inl, inr, if-cases, ltb, ltb→lt, length,
  arith, Bool, true, false, Option, some, List, [], ◌∷◌,
}
use lora_driver_with_network.Platform.{SxErr, sx_ok, History}
use lora_driver_with_network.Platform.Timer.{sx127x_timer_init}
use lora_driver_with_network.Radio.{Radio, Io, ◌>>=?◌, finish}
use lora_driver_with_network.Radio.Trace.{attempt_ok, some_at, asked}
use lora_driver_with_network.Radio.Config.{channels_of, initialize_sx_1278}
use lora_driver_with_network.Radio.Config.Setup.{
  initialize_sx_1278-configured, configured, connected,
}
use lora_driver_with_network.Radio.Driver.{poll_for_irq_flag}
use lora_driver_with_network.Radio.Driver.Poll.{IsClock, poll_for_irq_flag-Decided}
use lora_driver_with_network.Radio.Driver.Keeping.{
  driver_kept, Keeps-send_payload, Keeps-read_last_payload,
}
use lora_driver_with_network.Radio.Utils.Ending.{
  IsLive, Ends, ends, Ends-overrun, Overran, Overran-some, Ends-send_payload,
}
use lora_driver_with_network.Examples.Spi.{Idf}
use lora_driver_with_network.Examples.Spi.Port.{lora_port, no_logger, lora_port-Accepts, IsWorking}
use lora_driver_with_network.Examples.Pingpong.{
  buf_size, Ending, printed, after_read, after_wait, after_ping, after_pong, sender_rounds,
  receiver_rounds, run_sender, run_receiver, run_role, app_main,
}

module _ (fuel : ℕ) (enough : 10001 < fuel) where
  Ends-wait :
      (timeout : ℕ)
      → 0 < timeout
      → timeout ≤ 30000
      → Ends buf_size (poll_for_irq_flag fuel timeout 3 64 false)
  unfolding Ends
  Ends-wait timeout some_time small s l =
      let d =
        poll_for_irq_flag-Decided fuel timeout 3 64 false s l.clock l.initialized (omega arith)
          (ground arith) in
      inl (d.0, d.1)

  Ends-after_read :
      (str : List ℕ) (next : List ℕ → ℕ → Io (Option Ending)) (r : SxErr × (List ℕ × ℕ))
      → ((buf : List ℕ) (len : ℕ) → Ends buf_size (next buf len))
      → Ends buf_size (after_read str next r)
  unfolding after_read
  Ends-after_read str next (ret, (buf, len)) h =
      if-cases (Ends buf_size) (ltb buf_size (length buf))
        (λ large. Ends-overrun _ buf_size (length buf) (ltb→lt _ _ large)) (λ _. search (h, ends))

  Ends-after_wait :
      (str buf : List ℕ) (len : ℕ) (next : List ℕ → ℕ → Io (Option Ending)) (ret : SxErr)
      → ((buf : List ℕ) (len : ℕ) → Ends buf_size (next buf len))
      → Ends buf_size (after_wait str buf len next ret)
  unfolding after_wait
  Ends-after_wait str buf len next ret h =
      search (Ends-after_read str next, h, Keeps-read_last_payload, ends, driver_kept) depth 20

  Ends-sender_rounds :
      (n : ℕ) (buf : List ℕ) (len : ℕ) → Ends buf_size (sender_rounds fuel n buf len)
  unfolding sender_rounds after_ping
  Ends-sender_rounds zero buf len = search ends
  Ends-sender_rounds (suc n) buf len =
      let short : 3001 < fuel = omega arith in
      let wait : Ends buf_size (poll_for_irq_flag fuel 3000 3 64 false) =
        Ends-wait 3000 (omega arith) (omega arith) in
      search
        (
          Ends-send_payload fuel buf_size short,
          wait,
          Ends-after_wait,
          Keeps-send_payload,
          Ends-sender_rounds n,
          ends,
          driver_kept,
        )
        depth 20 fits 20000

  Ends-receiver_rounds :
      (n : ℕ) (buf : List ℕ) (len : ℕ) → Ends buf_size (receiver_rounds fuel n buf len)
  unfolding receiver_rounds after_pong
  Ends-receiver_rounds zero buf len = search ends
  Ends-receiver_rounds (suc n) buf len =
      let short : 3001 < fuel = omega arith in
      let wait : Ends buf_size (poll_for_irq_flag fuel 30000 3 64 false) =
        Ends-wait 30000 (omega arith) (omega arith) in
      search
        (
          Ends-send_payload fuel buf_size short,
          wait,
          Ends-after_wait,
          Keeps-send_payload,
          Ends-receiver_rounds n,
          ends,
          driver_kept,
        )
        depth 20 fits 20000

  Ends-run_receiver : (buf : List ℕ) (len : ℕ) → Ends buf_size (run_receiver fuel buf len)
  unfolding run_receiver
  Ends-run_receiver buf len = search (Ends-receiver_rounds, ends, driver_kept) depth 20

  Ends-run_sender : (buf : List ℕ) (len : ℕ) → Ends buf_size (run_sender fuel buf len)
  unfolding run_sender
  Ends-run_sender buf len = Ends-sender_rounds 5 buf len

-- The result of what follows a step that ended.
yields :
    {A B : Type 0} (m : Io (Option A)) (f : A → Io (Option B)) (s : Radio) (a : A)
    → (m s).0 ≡ some a
    → ((m >>=? f) s).0 ≡ (f a (m s).1).0
yields {A} {B} m f s a e =
    ap (λ (r : Option B × Radio). r.0)
      (some_at m f s (m s).1 a (ap (λ (o : Option A). (o, (m s).1)) e))

-- The radio was initialised, and the role came to its end.
abbrev Started : Option (List String) × Radio → Type 0
Started r = ((out : List String) × (r.0 ≡ some ("sx1278 init ok\n" ∷ out))) ⊎ Overran buf_size r

module _ (fuel : ℕ) (buf : List ℕ) (len : ℕ) where
  run_role_starts :
      (is_sender : Bool) (s : Radio)
      → 10001 < fuel
      → IsLive s
      → Started (run_role fuel is_sender buf len s)
  unfolding run_role Ends
  run_role_starts true s enough l = elim (Ends-run_sender fuel enough buf len s l) [
    | inl (end, e) ↦ inl (
      printed end,
      yields (run_sender fuel buf len) (λ end. finish ("sx1278 init ok\n" ∷ printed end)) s end e,
    )
    | inr o ↦ inr (
        Overran-some buf_size (run_sender fuel buf len)
          (λ end. finish ("sx1278 init ok\n" ∷ printed end)) s o)
  ]
  run_role_starts false s enough l = elim (Ends-run_receiver fuel enough buf len s l) [
    | inl (end, e) ↦
        inl
          ([], yields (run_receiver fuel buf len) (λ end. finish ("sx1278 init ok\n" ∷ [])) s end e)
    | inr o ↦ inr (
        Overran-some buf_size (run_receiver fuel buf len) (λ end. finish ("sx1278 init ok\n" ∷ []))
          s o)
  ]

-- With a working ESP-IDF, a clock that does not go back and that a delay moves on by what was asked, a
-- chip that answers its version, a bandwidth that leaves a channel, and a spreading factor from 6
-- to 12: the program initialises the radio and reports it, and then its role comes to an end, whatever
-- else the chip answers, or the last that it did was to read more than 64 bytes into its buffer of
-- 64. 10002 rounds are enough for each of its waits.
pub app_main_starts :
    (fuel : ℕ) (is_sender : Bool) (idf : Idf) (spi_handle : ℕ) (get_time_us : History → ℕ)
    (buf : List ℕ) (len : ℕ) (s : Radio)
    → 10001 < fuel
    → IsWorking idf
    → IsClock get_time_us
    → (lora_port idf spi_handle).reader spi_handle 0x42 (0 ∷ []) 1 s.history ≡ (sx_ok, 0x12 ∷ [])
    → 0 < channels_of s.lora_bandwidth_hz
    → 6 ≤ s.spreading_factor
    → s.spreading_factor ≤ 12
    → let r = app_main fuel is_sender idf spi_handle get_time_us buf len s in
      ((out : List String) × (r.0 ≡ some ("sx1278 init ok\n" ∷ out))) ⊎ Overran buf_size r
unfolding app_main lora_port sx127x_timer_init
app_main_starts fuel is_sender idf spi_handle get_time_us buf len s enough works clock version room
      low high =
    let port = lora_port idf spi_handle in
    let timer = sx127x_timer_init get_time_us in
    let ready = configured (asked 0x42 1 (connected port no_logger timer s)) in
    let init =
      initialize_sx_1278-configured port no_logger timer s (lora_port-Accepts idf spi_handle works)
        version room low high in
    subst Started
      (sym (
        attempt_ok (initialize_sx_1278 port no_logger timer) (λ ret. finish ("init failed\n" ∷ []))
          (run_role fuel is_sender buf len) s ready init))
      (run_role_starts fuel buf len is_sender ready enough
        (record { initialized = refl; clock = clock }))
