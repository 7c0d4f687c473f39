-- ===== src/Radio/Trace.antt =====
-- What register writes that the platform accepts do to the state of the driver.
use lora_driver_with_network.Prelude.{
  ℕ, ◌≡◌, refl, ap, ◌∙◌, true, Option, none, some, List, [], ◌∷◌, if◌then◌else◌, get_or,
}
use lora_driver_with_network.Platform.{SxErr, sx_ok, is_ok, spi_written, spi_read}
use lora_driver_with_network.Platform.SpiPort.{SpiPort, spi_burst_write_reg, spi_burst_read_reg}
use lora_driver_with_network.Radio.{
  Radio, Io, pure, ◌>>=◌, ◌>>?◌, ◌>>◌, ◌>>=?◌, attempt, checked, write_reg, read_reg, read_byte,
}
use lora_driver_with_network.Radio.Config.{sx1278_switch_mode, sx1278_clear_irq, sx1278_read_irq}

-- A port that is initialised, whose writer always answers SX_OK.
pub record Accepts (port : SpiPort) : Type 0 where
  pub is_initialized : port.initialized ≡ true
  pub writes_ok :
      (reg : ℕ) (bytes : List ℕ) (h : _) → port.writer port.spi_handle reg bytes h ≡ sx_ok

-- The state after one register was written, and after several in order.
abbrev pub wrote : ℕ → List ℕ → Radio → Radio
wrote reg bytes s = record s { history = spi_written s.spi_port.spi_handle reg bytes ∷ s.history }

abbrev pub wrote_all : List (ℕ × List ℕ) → Radio → Radio
wrote_all [] s = s
wrote_all (w ∷ ws) s = wrote_all ws (wrote w.0 w.1 s)

-- What the platform answers to a write in this state.
abbrev pub answer : ℕ × List ℕ → Radio → SxErr
answer w s = s.spi_port.writer s.spi_port.spi_handle w.0 w.1 s.history

pub write_reg-answer :
    (reg : ℕ) (bytes : List ℕ) (s : Radio)
    → s.spi_port.initialized ≡ true
    → write_reg reg bytes s ≡ (answer (reg, bytes) s, wrote reg bytes s)
unfolding write_reg spi_burst_write_reg
write_reg-answer reg bytes s on = rw on refl

pub write_reg-Accepts :
    (reg : ℕ) (bytes : List ℕ) (s : Radio)
    → Accepts s.spi_port
    → write_reg reg bytes s ≡ (sx_ok, wrote reg bytes s)
write_reg-Accepts reg bytes s a =
    write_reg-answer reg bytes s a.is_initialized
    ∙ ap (λ (e : SxErr). (e, wrote reg bytes s)) (a.writes_ok reg bytes s.history)

-- A step that succeeded, in front of what follows.
pub next_ok : (m k : Io SxErr) (s t : Radio) → m s ≡ (sx_ok, t) → (m >>? k) s ≡ k t
next_ok m k s t e = ap (λ (r : SxErr × Radio). (if is_ok r.0 then k else pure r.0) r.1) e

pub attempt_ok :
    {A : Type 0} (m : Io SxErr) (f : SxErr → Io A) (k : Io A) (s t : Radio)
    → m s ≡ (sx_ok, t)
    → attempt m f k s ≡ k t
attempt_ok m f k s t e = ap (λ (r : SxErr × Radio). (if is_ok r.0 then k else f r.0) r.1) e

-- A port that is initialised, whose answer to a write is a function of the register.
pub record Answers (f : ℕ → SxErr) (port : SpiPort) : Type 0 where
  pub is_initialized : port.initialized ≡ true
  pub answer : (reg : ℕ) (bytes : List ℕ) (h : _) → port.writer port.spi_handle reg bytes h ≡ f reg

pub write_reg-Answers :
    (f : ℕ → SxErr) (reg : ℕ) (bytes : List ℕ) (s : Radio)
    → Answers f s.spi_port
    → write_reg reg bytes s ≡ (f reg, wrote reg bytes s)
write_reg-Answers f reg bytes s a =
    write_reg-answer reg bytes s a.is_initialized
    ∙ ap (λ (e : SxErr). (e, wrote reg bytes s)) (a.answer reg bytes s.history)

pub attempt_at :
    {A : Type 0} (m : Io SxErr) (f : SxErr → Io A) (k : Io A) (s t : Radio) (e : SxErr)
    → m s ≡ (e, t)
    → attempt m f k s ≡ (if is_ok e then k else f e) t
attempt_at m f k s t e h = ap (λ (r : SxErr × Radio). (if is_ok r.0 then k else f r.0) r.1) h

pub checked_ok :
    (m : Io SxErr) (f : Io (Unit {0})) (k : Io SxErr) (s t : Radio)
    → m s ≡ (sx_ok, t)
    → checked m f k s ≡ k t
checked_ok m f k s t e = attempt_ok m (λ ret. f >> pure ret) k s t e

pub bind_at :
    {A B : Type 0} (m : Io A) (f : A → Io B) (s t : Radio) (a : A)
    → m s ≡ (a, t)
    → (m >>= f) s ≡ f a t
bind_at {A} m f s t a e = ap (λ (r : A × Radio). f r.0 r.1) e

pub some_at :
    {A B : Type 0} (m : Io (Option A)) (f : A → Io (Option B)) (s t : Radio) (a : A)
    → m s ≡ (some a, t)
    → (m >>=? f) s ≡ f a t
some_at {A} {B} m f s t a e =
    ap
      (λ (r : Option A × Radio).
        (elim r.0 as (λ _. Io (Option B)) [ none ↦ pure none | some a ↦ f a ]) r.1)
      e

pub switch_mode-Accepts :
    (mode : ℕ) (s : Radio)
    → Accepts s.spi_port
    → sx1278_switch_mode mode s ≡ (sx_ok, wrote 0x01 (mode ∷ []) s)
unfolding sx1278_switch_mode
switch_mode-Accepts mode s a = write_reg-Accepts 0x01 (mode ∷ []) s a

pub ruleset accepted =
    (next_ok, attempt_ok, checked_ok, bind_at, write_reg-Accepts, switch_mode-Accepts)

-- The state after a register was read.
abbrev pub asked : ℕ → ℕ → Radio → Radio
asked reg len s = record s { history = spi_read s.spi_port.spi_handle reg len ∷ s.history }

pub read_reg-asked :
    (reg : ℕ) (buffer : List ℕ) (len : ℕ) (s : Radio)
    → s.spi_port.initialized ≡ true
    → read_reg reg buffer len s
      ≡ (s.spi_port.reader s.spi_port.spi_handle reg buffer len s.history, asked reg len s)
unfolding read_reg spi_burst_read_reg
read_reg-asked reg buffer len s on = rw on refl

pub read_byte-asked :
    (reg old : ℕ) (s : Radio)
    → s.spi_port.initialized ≡ true
    → let r = s.spi_port.reader s.spi_port.spi_handle reg (old ∷ []) 1 s.history in
      read_byte reg old s ≡ ((r.0, get_or r.1 0 old), asked reg 1 s)
unfolding read_byte spi_burst_read_reg
read_byte-asked reg old s on = rw on refl

pub switch_mode-Answers :
    (f : ℕ → SxErr) (mode : ℕ) (s : Radio)
    → Answers f s.spi_port
    → sx1278_switch_mode mode s ≡ (f 0x01, wrote 0x01 (mode ∷ []) s)
unfolding sx1278_switch_mode
switch_mode-Answers f mode s a = write_reg-Answers f 0x01 (mode ∷ []) s a

-- A port that is initialised, whose reads succeed and give a function of the register.
pub record Reads (g : ℕ → List ℕ) (port : SpiPort) : Type 0 where
  pub is_initialized : port.initialized ≡ true
  pub reads :
      (reg : ℕ) (buffer : List ℕ) (len : ℕ) (h : _)
      → port.reader port.spi_handle reg buffer len h ≡ (sx_ok, g reg)

pub read_reg-Reads :
    (g : ℕ → List ℕ) (reg : ℕ) (buffer : List ℕ) (len : ℕ) (s : Radio)
    → Reads g s.spi_port
    → read_reg reg buffer len s ≡ ((sx_ok, g reg), asked reg len s)
unfolding read_reg spi_burst_read_reg
read_reg-Reads g reg buffer len s a =
    rw a.is_initialized (rw (a.reads reg buffer len s.history) refl)

pub read_byte-Reads :
    (g : ℕ → List ℕ) (reg old : ℕ) (s : Radio)
    → Reads g s.spi_port
    → read_byte reg old s ≡ ((sx_ok, get_or (g reg) 0 old), asked reg 1 s)
unfolding read_byte
read_byte-Reads g reg old s a =
    ap (λ (r : (SxErr × List ℕ) × Radio). ((r.0.0, get_or r.0.1 0 old), r.1))
      (read_reg-Reads g reg (old ∷ []) 1 s a)

pub read_irq-Reads :
    (g : ℕ → List ℕ) (old : ℕ) (s : Radio)
    → Reads g s.spi_port
    → sx1278_read_irq old s ≡ ((sx_ok, get_or (g 0x12) 0 old), asked 0x12 1 s)
unfolding sx1278_read_irq
read_irq-Reads g old s a = read_byte-Reads g 0x12 old s a

pub clear_irq-Accepts :
    (s : Radio) → Accepts s.spi_port → sx1278_clear_irq s ≡ (sx_ok, wrote 0x12 (0xFF ∷ []) s)
unfolding sx1278_clear_irq
clear_irq-Accepts s a = write_reg-Accepts 0x12 (0xFF ∷ []) s a
