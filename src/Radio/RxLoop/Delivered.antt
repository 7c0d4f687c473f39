-- ===== src/Radio/RxLoop/Delivered.antt =====
-- What `start_rx_loop` of src/sx127x_rx_utils.c gives to the handler, and what it keeps.
use Prim.Native.Nat.{bit_or}
use lora_driver_with_network.Prelude.{
  ℕ, zero, suc, arith, ◌≡◌, refl, sym, subst, false, not, Option, none, some, List, [], ◌∷◌, ◌++◌,
  if-cases,
}
use lora_driver_with_network.Packet.{Packet}
use lora_driver_with_network.Packet.Kind.{ack_of, ack_of_lem}
use lora_driver_with_network.Platform.{SxErr, sx_ok, is_ok}
use lora_driver_with_network.RxHandler.{RxHandlerCtx, rx_packet_handler}
use lora_driver_with_network.RxHandler.Stream.{receive}
use lora_driver_with_network.Radio.{Radio, Io, ◌>>=◌, finish}
use lora_driver_with_network.Radio.Cases.{is_ok→eq}
use lora_driver_with_network.Radio.Happened.{
  Happened, Happened-now, Happened-before, some-cases, From, from,
}
use lora_driver_with_network.Radio.Kept.{Kept, Keeps, Kept-refl, Kept-trans, Keeps-log_err}
use lora_driver_with_network.Radio.Driver.Keeping.{driver_kept, Keeps-switch_mode}
use lora_driver_with_network.Radio.Utils.Keeping.{
  Keeps-send_packet, Keeps-read_last_packet, Keeps-poll_rounds_for_ever,
}
use lora_driver_with_network.Radio.RxLoop.Keeping.{Keeps-rx_round}
use lora_driver_with_network.Radio.Config.{mode_lora, mode_rx_continuous, sx1278_switch_mode}
use lora_driver_with_network.Radio.RxUtils.{read_last_packet}
use lora_driver_with_network.Radio.Utils.{sx_1278_send_packet}
use lora_driver_with_network.Radio.RxLoop.{
  tag, acknowledge, after_ack, after_read, Round, serve, stop, again, deliver, Served, rx_round,
  rx_rounds, start_rx_loop,
}

-- In the run from `s` to `t` a `read_last_packet` gave the packet with SX_OK, and its acknowledgement
-- was sent with SX_OK.
abbrev pub IsAcked : ℕ → Packet → Radio → Radio → Type 0
IsAcked fuel p s t =
    Happened read_last_packet (sx_ok, p) s t
    × Happened (sx_1278_send_packet fuel (ack_of p) false) (some sx_ok) s t

abbrev Acks : ℕ → Radio → Option Round × Radio → Type 0
Acks fuel s (none, t) = Unit
Acks fuel s (some (stop ret), t) = Unit
Acks fuel s (some again, t) = Unit
Acks fuel s (some (deliver p), t) = IsAcked fuel p s t

after_ack-Acks :
    (fuel : ℕ) (p : Packet) (ret : SxErr) (s u : Radio)
    → Happened read_last_packet (sx_ok, p) s u
    → Happened (sx_1278_send_packet fuel (ack_of p) false) (some ret) s u
    → Acks fuel s (after_ack p ret u)
unfolding after_ack
after_ack-Acks fuel p ret s u read sent =
    if-cases (λ (m : Io (Option Round)). Acks fuel s (m u)) (not (is_ok ret)) (λ _. tt)
      λ good. (
        read,
        subst (λ e. Happened (sx_1278_send_packet fuel (ack_of p) false) (some e) s u)
            (is_ok→eq ret (ground arith)) sent,
      )

acknowledge-Acks :
    (fuel : ℕ) (p : Packet) (s u : Radio)
    → Kept s u
    → Happened read_last_packet (sx_ok, p) s u
    → Acks fuel s (acknowledge fuel p (some (ack_of p)) u)
unfolding acknowledge Keeps
acknowledge-Acks fuel p s u k read =
    let send = sx_1278_send_packet fuel (ack_of p) false in
    some-cases (Acks fuel s) send (after_ack p) u (λ _. tt)
      λ ret sent.
        after_ack-Acks fuel p ret s (send u).1
          (Happened-before read_last_packet (sx_ok, p) s u (send u).1 read
            (Keeps-send_packet fuel (ack_of p) false u))
          (Happened-now send (some ret) s u k sent)

after_read-Acks :
    (fuel : ℕ) (ret : SxErr) (p : Packet) (s u : Radio)
    → Kept s u
    → Happened read_last_packet (ret, p) s u
    → Acks fuel s (after_read fuel (ret, p) u)
unfolding after_read
after_read-Acks fuel ret p s u k read =
    if-cases (λ (m : Io (Option Round)). Acks fuel s (m u)) (not (is_ok ret)) (λ _. tt)
      λ good.
        subst (λ (a : Option Packet). Acks fuel s (acknowledge fuel p a u)) (sym (ack_of_lem p))
          (acknowledge-Acks fuel p s u k (
            subst (λ (e : SxErr). Happened read_last_packet (e, p) s u)
              (is_ok→eq ret (ground arith)) read))

read-Acks : (fuel : ℕ) (s : Radio) → From s (Acks fuel s) (read_last_packet >>= after_read fuel)
unfolding From Keeps
read-Acks fuel s u k =
    let r = read_last_packet u in
    after_read-Acks fuel r.0.0 r.0.1 s r.1 (Kept-trans s u r.1 k (Keeps-read_last_packet u))
      (Happened-now read_last_packet r.0 s u k refl)

From-stop : (fuel : ℕ) (s : Radio) (ret : SxErr) → From s (Acks fuel s) (finish (stop ret))
unfolding From
From-stop fuel s ret u k = tt

From-again : (fuel : ℕ) (s : Radio) → From s (Acks fuel s) (finish again)
unfolding From
From-again fuel s u k = tt

From-none : (fuel : ℕ) (s t : Radio) → Acks fuel s (none, t)
From-none fuel s t = tt

rx_round-Acks : (fuel : ℕ) (s : Radio) → From s (Acks fuel s) (rx_round fuel)
unfolding rx_round
rx_round-Acks fuel s =
    search
      (read-Acks, From-stop, From-again, From-none, from, Keeps-poll_rounds_for_ever, driver_kept)
      depth 30 fits 30000

-- In the run from the state to `v` the packets were acknowledged, one after the other.
pub data AllAcked (fuel : ℕ) (v : Radio) : List Packet → Radio → Type 0 where
  none_acked : {s : Radio} → Kept s v → AllAcked fuel v [] s
  one_acked :
      {p : Packet} {ps : List Packet} {s : Radio} (t u : Radio)
      → IsAcked fuel p t u
      → Kept s t
      → AllAcked fuel v ps u
      → AllAcked fuel v (p ∷ ps) s

-- What was done to the handler and the application is what handling some packets does that were
-- acknowledged in the run.
abbrev pub Handed : ℕ → RxHandlerCtx → Radio → Served × Radio → Type 0
Handed fuel handler s r =
    (ps : List Packet) × AllAcked fuel r.1 ps s
    × (receive handler ps ≡ record { ctx = r.0.handler; calls = r.0.calls })

Handed-idle :
    (fuel : ℕ) (handler : RxHandlerCtx) (ret : Option SxErr) (s t : Radio)
    → Kept s t
    → Handed fuel handler s (record { ret = ret; handler = handler; calls = [] }, t)
unfolding receive
Handed-idle fuel handler ret s t k = ([], none_acked k, refl)

-- A round in which nothing was delivered, in front of others.
Handed-again :
    (fuel : ℕ) (handler : RxHandlerCtx) (s t : Radio) (r : Served × Radio)
    → Kept s t
    → Handed fuel handler t r
    → Handed fuel handler s r
Handed-again fuel handler s t r k ([], none_acked l, e) =
    ([], none_acked (Kept-trans s t r.1 k l), e)
Handed-again fuel handler s t r k (p ∷ ps, one_acked u v a l more, e) =
    (p ∷ ps, one_acked u v a (Kept-trans s t u k l) more, e)

Handed-deliver :
    (fuel : ℕ) (handler : RxHandlerCtx) (p : Packet) (rest : Served) (s t v : Radio)
    → IsAcked fuel p s t
    → let h = rx_packet_handler handler (some p) in
      Handed fuel h.ctx t (rest, v)
      → Handed fuel handler s (record rest { calls = h.calls ++ rest.calls }, v)
unfolding receive
Handed-deliver fuel handler p rest s t v acked more =
    (p ∷ more.0, one_acked s t acked (Kept-refl s) more.1, rw more.2 refl)

serve-Handed :
    (fuel : ℕ) (next : RxHandlerCtx → Io Served) (handler : RxHandlerCtx) (o : Option Round)
    (s t : Radio)
    → Kept s t
    → ((h : RxHandlerCtx) (t : Radio) → Handed fuel h t (next h t))
    → Acks fuel s (o, t)
    → Handed fuel handler s (serve next handler o t)
unfolding serve
serve-Handed fuel next handler none s t k rest a = Handed-idle fuel handler none s t k
serve-Handed fuel next handler (some (stop ret)) s t k rest a =
    Handed-idle fuel handler (some ret) s t k
serve-Handed fuel next handler (some again) s t k rest a =
    Handed-again fuel handler s t (next handler t) k (rest handler t)
serve-Handed fuel next handler (some (deliver p)) s t k rest a =
    let h = (rx_packet_handler handler (some p)).ctx in
    Handed-deliver fuel handler p (next h t).0 s t (next h t).1 a (rest h t)

rx_rounds-Handed :
    (fuel n : ℕ) (handler : RxHandlerCtx) (s : Radio)
    → Handed fuel handler s (rx_rounds fuel n handler s)
unfolding rx_rounds From Keeps
rx_rounds-Handed fuel zero handler s = Handed-idle fuel handler none s s (Kept-refl s)
rx_rounds-Handed fuel (suc n) handler s =
    let r = rx_round fuel s in
    serve-Handed fuel (rx_rounds fuel n) handler r.0 s r.1 (Keeps-rx_round fuel s)
      (rx_rounds-Handed fuel n) (rx_round-Acks fuel s s (Kept-refl s))

-- Whatever the platform answers, and wherever the receive loop is: the state of the handler, and the
-- calls that the application got, are those of handling a sequence of packets. Each of them was the
-- result of a `read_last_packet` during the run, which reported SX_OK, and its acknowledgement was
-- then sent with SX_OK, one packet after the other.
pub start_rx_loop-Handed :
    (fuel n : ℕ) (handler : RxHandlerCtx) (s : Radio)
    → Handed fuel handler s (start_rx_loop fuel n handler s)
unfolding start_rx_loop Keeps
start_rx_loop-Handed fuel n handler s =
    let r = sx1278_switch_mode (bit_or mode_lora mode_rx_continuous) s in
    if-cases (λ (m : Io Served). Handed fuel handler s (m r.1)) (is_ok r.0)
      (λ _.
        Handed-again fuel handler s r.1 (rx_rounds fuel n handler r.1)
          (Keeps-switch_mode (bit_or mode_lora mode_rx_continuous) s)
          (rx_rounds-Handed fuel n handler r.1))
      (λ bad. Handed-idle fuel handler (some r.0) s _ (
        Kept-trans s r.1 _ (Keeps-switch_mode (bit_or mode_lora mode_rx_continuous) s)
          (Keeps-log_err tag "error occured while switching mode" r.1)))
