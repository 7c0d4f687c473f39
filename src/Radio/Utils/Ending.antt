-- ===== src/Radio/Utils/Ending.antt =====
-- The functions of src/sx127x_utils.c that wait for the radio come to an end.
use lora_driver_with_network.Prelude.{
  ℕ, zero, suc, ◌⊎◌, inl, inr, arith, ==-false, ◌+◌, ◌-◌, ◌*◌, ◌<◌, ◌≡◌, ◌∙◌, refl, ap, sym, subst,
  Bool, true, false, Option, none, some, List, [], ◌∷◌, length, u8, if◌then◌else◌,
}
use lora_driver_with_network.Packet.{Packet, PacketType, payload_length_max, packet_to_bytestream}
use lora_driver_with_network.Platform.{
  SxErr, sx_invalid_state, is_ok, log_info_low, History, overran,
}
use lora_driver_with_network.Platform.Timer.{TimerCtx}
use lora_driver_with_network.Radio.{
  Radio, Io, pure, ◌>>=◌, ◌>>=?◌, attempt, finish, log_with_tag, overrun, ◌>>◌,
}
use lora_driver_with_network.Radio.Trace.{some_at}
use lora_driver_with_network.Radio.Utils.Described.{describe-cases}
use lora_driver_with_network.Radio.Kept.{Kept, Keeps}
use lora_driver_with_network.Radio.Driver.{poll_for_irq_flag, sx1278_send_payload}
use lora_driver_with_network.Radio.Driver.Poll.{IsClock, poll_for_irq_flag-Decided}
use lora_driver_with_network.Radio.Driver.Keeping.{driver_kept}
use lora_driver_with_network.Radio.Utils.{
  tag, describe, send_frame, sx_1278_send_packet, sx1278_poll_and_read_packet, after_poll,
  after_send, ensure_ack_rounds, send_packet_ensure_ack, burst_rounds, send_burst, tx_buffer_size,
  set_tx_buffer,
}
use lora_driver_with_network.Radio.Utils.Keeping.{
  Keeps-send_packet, Keeps-poll_and_read_packet, Keeps-read_last_packet, Keeps-ensure_ack_rounds,
}

-- A platform with a clock, on a port that is initialised.
pub record IsLive (s : Radio) : Type 0 where
  pub initialized : s.spi_port.initialized ≡ true
  pub clock : IsClock s.timer_ctx.timer

pub IsLive-Kept : (a b : Radio) → Kept a b → IsLive a → IsLive b
IsLive-Kept a b k l = record {
  initialized = ap (λ p. p.initialized) k.spi_port ∙ l.initialized;
  clock = subst (λ (t : TimerCtx). IsClock t.timer) (sym k.timer_ctx) l.clock;
}

-- The last that the program did was to write more than `limit` bytes into a buffer that has no room for
-- them.
pub record Overran (limit : ℕ) {A : Type 0} (r : Option A × Radio) : Type 0 where
  pub bytes : ℕ
  pub before : History
  pub no_result : r.0 ≡ none
  pub last : r.1.history ≡ overran bytes ∷ before
  pub too_many : limit < bytes

abbrev pub HasEnd : {A : Type 0} → ℕ → Option A × Radio → Type 0
HasEnd {A} limit r = ((a : A) × (r.0 ≡ some a)) ⊎ Overran limit r

unfoldable pub Ends : {A : Type 0} → ℕ → Io (Option A) → Type 0
Ends limit m = (s : Radio) → IsLive s → HasEnd limit (m s)

pub Ends-finish : {A : Type 0} (limit : ℕ) (a : A) → Ends limit (finish a)
unfolding Ends
Ends-finish limit a s l = inl (a, refl)

pub Ends-overrun : (A : Type 0) (limit n : ℕ) → limit < n → Ends limit (overrun {A = A} n)
unfolding Ends overrun
Ends-overrun A limit n large s l =
    inr (record { bytes = n; before = s.history; no_result = refl; last = refl; too_many = large })

pub Ends-bind :
    {A B : Type 0} (limit : ℕ) (m : Io A) (f : A → Io (Option B))
    → Keeps m
    → ((a : A) → Ends limit (f a))
    → Ends limit (m >>= f)
unfolding Ends Keeps
Ends-bind limit m f k h s l = h (m s).0 (m s).1 (IsLive-Kept s (m s).1 (k s) l)

pub Ends-if :
    {A : Type 0} (limit : ℕ) (b : Bool) (m n : Io (Option A))
    → Ends limit m
    → Ends limit n
    → Ends limit (if b then m else n)
Ends-if limit true m n p q = p
Ends-if limit false m n p q = q

pub Ends-attempt :
    {A : Type 0} (limit : ℕ) (m : Io SxErr) (f : SxErr → Io (Option A)) (k : Io (Option A))
    → Keeps m
    → ((ret : SxErr) → Ends limit (f ret))
    → Ends limit k
    → Ends limit (attempt m f k)
Ends-attempt limit m f k p q r =
    Ends-bind limit m (λ ret. if is_ok ret then k else f ret) p
      (λ ret. Ends-if limit (is_ok ret) k (f ret) r (q ret))

-- What follows a run that overran is not reached.
pub Overran-some :
    {A B : Type 0} (limit : ℕ) (m : Io (Option A)) (f : A → Io (Option B)) (s : Radio)
    → Overran limit (m s)
    → Overran limit ((m >>=? f) s)
Overran-some {A} {B} limit m f s o =
    let stopped : (m >>=? f) s ≡ (none, (m s).1) =
      ap
        (λ (x : Option A).
          (elim x as (λ _. Io (Option B)) [ none ↦ pure none | some a ↦ f a ]) (m s).1)
        o.no_result in
    subst (Overran limit) (sym stopped) (record {
      bytes = o.bytes;
      before = o.before;
      no_result = refl;
      last = o.last;
      too_many = o.too_many;
    })

pub Ends-some :
    {A B : Type 0} (limit : ℕ) (m : Io (Option A)) (f : A → Io (Option B))
    → Ends limit m
    → Keeps m
    → ((a : A) → Ends limit (f a))
    → Ends limit (m >>=? f)
unfolding Ends Keeps
Ends-some limit m f e k h s l = elim (e s l) [
  | inl (a, got) ↦
      subst (HasEnd limit) (sym (some_at m f s (m s).1 a (ap (λ (o : Option _). (o, (m s).1)) got)))
        (h a (m s).1 (IsLive-Kept s (m s).1 (k s) l))
  | inr o ↦ inr (Overran-some limit m f s o)
]

pub ruleset ends = (Ends-finish, Ends-some, Ends-attempt, Ends-if, Ends-bind)

wide : (n i : ℕ) → 3000 < n → 0 < i → 3000 < n * i
wide n zero h pos = absurd (omega arith)
wide n (suc i) h pos = grind arith

module _ (fuel limit : ℕ) (enough : 3001 < fuel) where
  Ends-poll :
      (interval mask : ℕ) (cleanup : Bool)
      → 0 < interval
      → Ends limit (poll_for_irq_flag fuel 3000 interval mask cleanup)
  unfolding Ends
  Ends-poll interval mask cleanup h s l =
      let d =
        poll_for_irq_flag-Decided fuel 3000 interval mask cleanup s l.clock l.initialized
          (omega arith)
          (rw (==-false interval 0 (λ e. omega arith))
            (wide (fuel - 1) interval (omega arith) h)) in
      inl (d.0, d.1)

  pub Ends-send_payload :
      (buf : List ℕ) (len : ℕ) (rx : Bool) → Ends limit (sx1278_send_payload fuel buf len rx)
  unfolding sx1278_send_payload
  Ends-send_payload buf len rx =
      let poll : Ends limit (poll_for_irq_flag fuel 3000 3 8 true) =
        Ends-poll 3 8 true (omega arith) in
      search (ends, poll, driver_kept) depth 40 fits 30000

  Ends-send_frame :
      (rx : Bool) (r : Option ℕ × List ℕ) (s : Radio)
      → IsLive s
      → HasEnd limit (send_frame fuel rx r s)
  unfolding send_frame set_tx_buffer Ends
  Ends-send_frame rx (none, buffer) s l = inl (sx_invalid_state, refl)
  Ends-send_frame rx (some n, buffer) s l =
      Ends-send_payload buffer (u8 n) rx (record s { tx_buffer = buffer })
        (record { initialized = l.initialized; clock = l.clock })

  Ends-described :
      (p : Packet) (rx : Bool) (s : Radio)
      → IsLive s
      → HasEnd limit (
          (log_with_tag tag "sending packet" log_info_low >> λ s.
          send_frame fuel rx (packet_to_bytestream s.tx_buffer tx_buffer_size p) s)
            s)
  unfolding log_with_tag
  Ends-described p rx s l =
      let t = (log_with_tag tag "sending packet" log_info_low s).1 in
      Ends-send_frame rx (packet_to_bytestream t.tx_buffer tx_buffer_size p) t
        (record { initialized = l.initialized; clock = l.clock })

  Ends-poll_and_read : (rx_p : Packet) → Ends limit (sx1278_poll_and_read_packet fuel rx_p 3000)
  unfolding sx1278_poll_and_read_packet
  Ends-poll_and_read rx_p =
      let poll : Ends limit (poll_for_irq_flag fuel 3000 1 64 false) =
        Ends-poll 1 64 false (omega arith) in
      search (ends, poll, Keeps-read_last_packet, driver_kept) depth 40 fits 30000

-- The descriptions overrun for a payload of more than eight bytes.
Ends-describe :
    {A : Type 0} (p : Packet) (k : Io (Option A))
    → Ends payload_length_max k
    → Ends payload_length_max (describe p k)
Ends-describe p k e =
    describe-cases (Ends payload_length_max) p k (λ _. e)
      (λ large. Ends-overrun _ payload_length_max p.payload_length large)

module _ (fuel : ℕ) (enough : 3001 < fuel) where
  Ends-send_packet :
      (p : Packet) (rx : Bool) → Ends payload_length_max (sx_1278_send_packet fuel p rx)
  unfolding sx_1278_send_packet Ends
  Ends-send_packet p rx = Ends-describe p _ (Ends-described fuel payload_length_max enough p rx)

  Ends-after_poll :
      (p : Packet) (t : PacketType) (next : Packet → Io (Option SxErr)) (r : SxErr × Packet)
      → ((rx_p : Packet) → Ends payload_length_max (next rx_p))
      → Ends payload_length_max (after_poll p t next r)
  unfolding after_poll
  Ends-after_poll p t next r h = search (h, Ends-describe, ends, driver_kept) depth 20

  Ends-after_send :
      (p : Packet) (t : PacketType) (rx_p : Packet) (next : Packet → Io (Option SxErr))
      (ret : SxErr)
      → ((rx_p : Packet) → Ends payload_length_max (next rx_p))
      → Ends payload_length_max (after_send fuel p t rx_p next ret)
  unfolding after_send
  Ends-after_send p t rx_p next ret h =
      let read : Ends payload_length_max (sx1278_poll_and_read_packet fuel rx_p 3000) =
        Ends-poll_and_read fuel payload_length_max enough rx_p in
      search (read, Ends-after_poll p t next, h, ends, Keeps-poll_and_read_packet, driver_kept)
        depth 30 fits 30000

  Ends-ensure_ack_rounds :
      (p : Packet) (t : PacketType) (n : ℕ) (rx_p : Packet)
      → Ends payload_length_max (ensure_ack_rounds fuel p t n rx_p)
  unfolding ensure_ack_rounds
  Ends-ensure_ack_rounds p t zero rx_p = search (ends, driver_kept)
  Ends-ensure_ack_rounds p t (suc n) rx_p =
      search
        (
          Ends-send_packet,
          Ends-after_send p t rx_p (ensure_ack_rounds fuel p t n),
          Ends-ensure_ack_rounds p t n,
          ends,
          Keeps-send_packet,
        )
        depth 20

  Ends-burst_rounds :
      (rx_p : Packet) (len i : ℕ) (ps : List Packet)
      → Ends payload_length_max (burst_rounds fuel rx_p len i ps)
  unfolding burst_rounds send_packet_ensure_ack
  Ends-burst_rounds rx_p len i [] = search ends
  Ends-burst_rounds rx_p len i (p ∷ ps) =
      search
        (
          Ends-ensure_ack_rounds,
          Keeps-ensure_ack_rounds,
          Ends-burst_rounds rx_p len (i + 1) ps,
          ends,
        )
        depth 20

-- On a port that is initialised, with a clock that does not go back and that a delay moves on by what
-- was asked, whatever else the platform answers: a burst ends with a code, or the last that it did was
-- to copy a payload of more than eight bytes over the end of the buffer of `packet_description`.
-- 3002 rounds are enough for each of its waits.
pub send_burst-Ends :
    (fuel : ℕ) (rx_p : Packet) (p_buf : List Packet) (s : Radio)
    → 3001 < fuel
    → IsLive s
    → HasEnd payload_length_max (send_burst fuel rx_p p_buf s)
unfolding send_burst Ends
send_burst-Ends fuel rx_p p_buf s enough l =
    Ends-burst_rounds fuel enough rx_p (length p_buf) 0 p_buf s l
