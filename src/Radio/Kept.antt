-- ===== src/Radio/Kept.antt =====
-- What no function above the configuration changes, whatever the platform answers: the contexts, the
-- bandwidth, the spreading factor, and the shape of the two static buffers.
use Prim.Native.String.{String, ◌++◌ as ◌<>◌}
use lora_driver_with_network.Prelude.{
  ℕ, ◌≡◌, refl, ap, sym, ◌∙◌, Bool, true, false, not, Option, none, some, List, [], ◌∷◌, ◌++◌,
  append_assoc, replicate, length, leb, ◌==◌, if-cases, if◌then◌else◌,
}
use lora_driver_with_network.Platform.{
  SxErr, is_ok, LogLevel, uninitialized, log_error, History, Event, spi_written, spi_read,
  clock_read, delayed, logged, overran,
}
use lora_driver_with_network.Platform.SpiPort.{SpiPort, spi_burst_write_reg, spi_burst_read_reg}
use lora_driver_with_network.Platform.Logger.{
  LoggerCtx, level_code, network_log, network_log_with_tag, network_log_err,
}
use lora_driver_with_network.Radio.{
  Radio, Io, pure, ◌>>=◌, ◌>>=?◌, attempt, write_reg, read_reg, read_byte, log_err, log_with_tag,
  get_time_us, delay_ms, overrun,
}

pub record Kept (a b : Radio) : Type 0 where
  pub spi_port : b.spi_port ≡ a.spi_port
  pub logger : b.logger ≡ a.logger
  pub timer_ctx : b.timer_ctx ≡ a.timer_ctx
  pub lora_bandwidth_hz : b.lora_bandwidth_hz ≡ a.lora_bandwidth_hz
  pub spreading_factor : b.spreading_factor ≡ a.spreading_factor
  pub rx_empty : a.rx_buffer ≡ replicate 255 0 → b.rx_buffer ≡ replicate 255 0
  pub tx_length : length b.tx_buffer ≡ length a.tx_buffer
  pub events : (es : List Event) × (b.history ≡ es ++ a.history)

unfoldable pub Keeps : {A : Type 0} → Io A → Type 0
Keeps m = (s : Radio) → Kept s (m s).1

pub Kept-refl : (s : Radio) → Kept s s
Kept-refl s = record {
  spi_port = refl;
  logger = refl;
  timer_ctx = refl;
  lora_bandwidth_hz = refl;
  spreading_factor = refl;
  rx_empty = λ e. e;
  tx_length = refl;
  events = ([], refl);
}

pub Kept-trans : (a b c : Radio) → Kept a b → Kept b c → Kept a c
Kept-trans a b c p q = record {
  spi_port = q.spi_port ∙ p.spi_port;
  logger = q.logger ∙ p.logger;
  timer_ctx = q.timer_ctx ∙ p.timer_ctx;
  lora_bandwidth_hz = q.lora_bandwidth_hz ∙ p.lora_bandwidth_hz;
  spreading_factor = q.spreading_factor ∙ p.spreading_factor;
  rx_empty = λ e. q.rx_empty (p.rx_empty e);
  tx_length = q.tx_length ∙ p.tx_length;
  events = (
    q.events.0 ++ p.events.0,
    q.events.1
        ∙ ap (λ h. q.events.0 ++ h) p.events.1
        ∙ sym (append_assoc q.events.0 p.events.0 a.history),
  );
}

pub Keeps-pure : {A : Type 0} (a : A) → Keeps (pure a)
unfolding Keeps
Keeps-pure a s = Kept-refl s

pub Keeps-bind :
    {A B : Type 0} (m : Io A) (f : A → Io B) → Keeps m → ((a : A) → Keeps (f a)) → Keeps (m >>= f)
unfolding Keeps
Keeps-bind m f p q s = Kept-trans s (m s).1 (f (m s).0 (m s).1).1 (p s) (q (m s).0 (m s).1)

pub Keeps-if : {A : Type 0} (b : Bool) (m n : Io A) → Keeps m → Keeps n → Keeps (if b then m else n)
Keeps-if true m n p q = p
Keeps-if false m n p q = q

pub Keeps-attempt :
    {A : Type 0} (m : Io SxErr) (f : SxErr → Io A) (k : Io A)
    → Keeps m
    → ((ret : SxErr) → Keeps (f ret))
    → Keeps k
    → Keeps (attempt m f k)
Keeps-attempt m f k p q r =
    Keeps-bind m (λ ret. if is_ok ret then k else f ret) p
      (λ ret. Keeps-if (is_ok ret) k (f ret) r (q ret))

pub Keeps-some :
    {A B : Type 0} (m : Io (Option A)) (f : A → Io (Option B))
    → Keeps m
    → ((a : A) → Keeps (f a))
    → Keeps (m >>=? f)
Keeps-some {A} {B} m f p q =
    Keeps-bind m (λ (o : Option A). elim o [ none ↦ pure none | some a ↦ f a ]) p cases
  where
    cases : (o : Option A) → Keeps {A = Option B} (elim o [ none ↦ pure none | some a ↦ f a ])
    cases none = Keeps-pure none
    cases (some a) = q a

-- Events put in front of a history.
abbrev Longer : History → History → Type 0
Longer h h' = (es : List Event) × (h' ≡ es ++ h)

-- A function that only adds to the history.
pub Kept-history :
    (s : Radio) (h : History) → Longer s.history h → Kept s (record s { history = h })
Kept-history s h l = record {
  spi_port = refl;
  logger = refl;
  timer_ctx = refl;
  lora_bandwidth_hz = refl;
  spreading_factor = refl;
  rx_empty = λ e. e;
  tx_length = refl;
  events = l;
}

spi_burst_write_reg-Longer :
    (port : SpiPort) (reg : ℕ) (bytes : List ℕ) (h : History)
    → Longer h (spi_burst_write_reg port reg bytes h).1
unfolding spi_burst_write_reg
spi_burst_write_reg-Longer port reg bytes h =
    if-cases (λ (r : SxErr × History). Longer h r.1) (not port.initialized) (λ _. ([], refl))
      (λ _. (spi_written port.spi_handle reg bytes ∷ [], refl))

spi_burst_read_reg-Longer :
    (port : SpiPort) (reg : ℕ) (buffer : List ℕ) (len : ℕ) (h : History)
    → Longer h (spi_burst_read_reg port reg buffer len h).1
unfolding spi_burst_read_reg
spi_burst_read_reg-Longer port reg buffer len h =
    if-cases (λ (r : (SxErr × List ℕ) × History). Longer h r.1) (not port.initialized)
      (λ _. ([], refl)) (λ _. (spi_read port.spi_handle reg len ∷ [], refl))

network_log-Longer :
    (ctx : LoggerCtx) (str : String) (level : LogLevel) (h : History)
    → Longer h (network_log ctx str level h)
unfolding network_log
network_log-Longer ctx str level h =
    if-cases (λ r. Longer h r) (level_code ctx.log_level == level_code uninitialized)
      (λ _. ([], refl))
      λ _.
        if-cases (λ r. Longer h r) (leb (level_code ctx.log_level) (level_code level))
          (λ _. (logged ctx.logger str level ∷ [], refl)) (λ _. ([], refl))

pub Keeps-write_reg : (reg : ℕ) (bytes : List ℕ) → Keeps (write_reg reg bytes)
unfolding Keeps write_reg
Keeps-write_reg reg bytes s =
    Kept-history s _ (spi_burst_write_reg-Longer s.spi_port reg bytes s.history)

pub Keeps-read_reg : (reg : ℕ) (buffer : List ℕ) (len : ℕ) → Keeps (read_reg reg buffer len)
unfolding Keeps read_reg
Keeps-read_reg reg buffer len s =
    Kept-history s _ (spi_burst_read_reg-Longer s.spi_port reg buffer len s.history)

pub Keeps-read_byte : (reg old : ℕ) → Keeps (read_byte reg old)
unfolding Keeps read_byte
Keeps-read_byte reg old s =
    Kept-history s _ (spi_burst_read_reg-Longer s.spi_port reg (old ∷ []) 1 s.history)

pub Keeps-log_with_tag : (tag str : String) (level : LogLevel) → Keeps (log_with_tag tag str level)
unfolding Keeps log_with_tag network_log_with_tag
Keeps-log_with_tag tag str level s =
    Kept-history s _ (network_log-Longer s.logger (tag <> ": " <> str) level s.history)

pub Keeps-log_err : (tag str : String) → Keeps (log_err tag str)
unfolding Keeps log_err network_log_err
Keeps-log_err tag str s =
    Kept-history s _ (network_log-Longer s.logger (tag <> ": " <> str) log_error s.history)

pub Keeps-get_time_us : Keeps get_time_us
unfolding Keeps get_time_us
Keeps-get_time_us s = Kept-history s _ (clock_read ∷ [], refl)

pub Keeps-delay_ms : (ms : ℕ) → Keeps (delay_ms ms)
unfolding Keeps delay_ms
Keeps-delay_ms ms s = Kept-history s _ (delayed ms ∷ [], refl)

pub Keeps-overrun : (A : Type 0) (n : ℕ) → Keeps (overrun {A = A} n)
unfolding Keeps overrun
Keeps-overrun A n s = Kept-history s _ (overran n ∷ [], refl)

pub ruleset kept = (
  Keeps-pure, Keeps-attempt, Keeps-some, Keeps-if, Keeps-bind, Keeps-write_reg, Keeps-read_reg,
  Keeps-read_byte, Keeps-log_err, Keeps-log_with_tag, Keeps-get_time_us, Keeps-delay_ms,
  Keeps-overrun,
)
