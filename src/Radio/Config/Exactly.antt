-- ===== src/Radio/Config/Exactly.antt =====
-- Exactly when a sequence of steps of src/sx127x_config.c returns SX_OK, and what it wrote then.
use lora_driver_with_network.Prelude.{
  ℕ, ◌≡◌, ◌↔◌, refl, sym, ap, ap₂, subst, ◌∙◌, Bool, true, false, List, [], ◌∷◌, ◌++◌, arith, ◌==◌,
  if◌then◌else◌, if-cases,
}
use lora_driver_with_network.Platform.{SxErr, sx_ok, sx_invalid_argument, is_ok}
use lora_driver_with_network.Platform.SpiPort.{spi_burst_write_reg}
use lora_driver_with_network.Radio.{
  Radio, Io, pure, ◌>>=◌, ◌>>◌, ◌>>?◌, attempt, checked, write_reg,
}
use lora_driver_with_network.Radio.Cases.{is_ok→eq}
use lora_driver_with_network.Radio.Trace.{
  wrote, wrote_all, answer, write_reg-answer, attempt_ok, bind_at,
}
use lora_driver_with_network.Radio.Config.{set_spreading_factor_global}

-- The platform accepts these writes, one after the other, but for those of the spreading factor,
-- whose answers may be any.
abbrev pub Taken : List (ℕ × List ℕ) → Radio → Type 0
Taken [] s = Unit {0}
Taken (w ∷ ws) s =
    (if w.0 == 0x1E then Unit {0} else (answer w s ≡ sx_ok)) × Taken ws (wrote w.0 w.1 s)

Taken-append :
    (ws zs : List (ℕ × List ℕ)) (s : Radio)
    → Taken (ws ++ zs) s ↔ (Taken ws s × Taken zs (wrote_all ws s))
Taken-append [] zs s = (λ t. (tt, t), λ t. t.1)
Taken-append (w ∷ ws) zs s =
    let rest = Taken-append ws zs (wrote w.0 w.1 s) in
    (λ t. ((t.0, (rest.0 t.1).0), (rest.0 t.1).1), λ t. (t.0.0, rest.1 (t.0.1, t.1)))

wrote_all-append :
    (ws zs : List (ℕ × List ℕ)) (s : Radio) → wrote_all (ws ++ zs) s ≡ wrote_all zs (wrote_all ws s)
wrote_all-append [] zs s = refl
wrote_all-append (w ∷ ws) zs s = wrote_all-append ws zs (wrote w.0 w.1 s)

-- The step returns SX_OK exactly under the condition and when the writes are taken, and then it has
-- made these writes.
unfoldable pub Exactly : Io SxErr → Radio → Type 0 → List (ℕ × List ℕ) → Type 0
Exactly m s P ws = (v : Radio) → (m s ≡ (sx_ok, v)) ↔ (P × (Taken ws s × (v ≡ wrote_all ws s)))

pub Exactly-pure : (s : Radio) → Exactly (pure sx_ok) s (Unit {0}) []
unfolding Exactly
Exactly-pure s v = (
  λ e. (tt, (tt, sym (ap (λ (r : SxErr × Radio). r.1) e))),
  λ h. ap (λ (t : Radio). (sx_ok, t)) (sym h.1.1),
)

pub Exactly-write :
    (reg : ℕ) (bytes : List ℕ) (s : Radio)
    → s.spi_port.initialized ≡ true
    → (reg == 0x1E) ≡ false
    → Exactly (write_reg reg bytes) s (Unit {0}) ((reg, bytes) ∷ [])
unfolding Exactly write_reg spi_burst_write_reg
Exactly-write reg bytes s on other v =
    rw (on, other)
      (
        λ e. (
          tt,
          ((ap (λ (r : SxErr × Radio). r.0) e, tt), sym (ap (λ (r : SxErr × Radio). r.1) e)),
        ),
        λ h. ap₂ (λ (e : SxErr) (t : Radio). (e, t)) h.1.0.0 (sym h.1.1),
      )

-- A step, and what follows it if it returned SX_OK.
Exactly-attempt :
    (m : Io SxErr) (fail : SxErr → Io SxErr) (k : Io SxErr) (s : Radio) (P Q : Type 0)
    (ws zs : List (ℕ × List ℕ))
    → ((ret : SxErr) (t : Radio) → (fail ret t).0 ≡ ret)
    → Exactly m s P ws
    → Exactly k (wrote_all ws s) Q zs
    → Exactly (attempt m fail k) s (P × Q) (ws ++ zs)
unfolding Exactly
Exactly-attempt m fail k s P Q ws zs fails em ek v = (forth, back)
  where
    forth :
        attempt m fail k s ≡ (sx_ok, v)
        → (P × Q) × (Taken (ws ++ zs) s × (v ≡ wrote_all (ws ++ zs) s))
    forth =
        if-cases
          (λ (f : Io SxErr).
            f (m s).1 ≡ (sx_ok, v) → (P × Q) × (Taken (ws ++ zs) s × (v ≡ wrote_all (ws ++ zs) s)))
          (is_ok (m s).0)
          (λ good e.
            let made = (em (m s).1).0 (ap (λ (r : SxErr). (r, (m s).1)) (is_ok→eq (m s).0 good)) in
            let rest = (ek v).0 (subst (λ (t : Radio). k t ≡ (sx_ok, v)) made.1.1 e) in
            (
              (made.0, rest.0),
              (
                (Taken-append ws zs s).1 (made.1.0, rest.1.0),
                rest.1.1 ∙ sym (wrote_all-append ws zs s),
              ),
            ))
          (λ bad e.
            let ret = sym (fails (m s).0 (m s).1) ∙ ap (λ (r : SxErr × Radio). r.0) e in
            absurd (ground (arith, sym (ap is_ok ret) ∙ bad)))

    back :
        (P × Q) × (Taken (ws ++ zs) s × (v ≡ wrote_all (ws ++ zs) s))
        → attempt m fail k s ≡ (sx_ok, v)
    back h =
        let taken = (Taken-append ws zs s).0 h.1.0 in
        attempt_ok m fail k s (wrote_all ws s) ((em (wrote_all ws s)).1 (h.0.0, (taken.0, refl)))
        ∙ (ek v).1 (h.0.1, (taken.1, h.1.1 ∙ wrote_all-append ws zs s))

-- The condition put another way.
pub Exactly-when :
    (m : Io SxErr) (s : Radio) (P Q : Type 0) (ws : List (ℕ × List ℕ))
    → P ↔ Q
    → Exactly m s P ws
    → Exactly m s Q ws
unfolding Exactly
Exactly-when m s P Q ws pq em v =
    (λ e. let h = (em v).0 e in (pq.0 h.0, h.1), λ h. (em v).1 (pq.1 h.0, h.1))

-- The same step, written another way.
pub Exactly-same :
    (m n : Io SxErr) (s : Radio) (P : Type 0) (ws : List (ℕ × List ℕ))
    → m s ≡ n s
    → Exactly n s P ws
    → Exactly m s P ws
unfolding Exactly
Exactly-same m n s P ws same en v = (λ e. (en v).0 (sym same ∙ e), λ h. same ∙ (en v).1 h)

Exactly-write_attempt :
    (reg : ℕ) (bytes : List ℕ) (fail : SxErr → Io SxErr) (k : Io SxErr) (s : Radio) (Q : Type 0)
    (zs : List (ℕ × List ℕ))
    → s.spi_port.initialized ≡ true
    → (reg == 0x1E) ≡ false
    → ((ret : SxErr) (t : Radio) → (fail ret t).0 ≡ ret)
    → Exactly k (wrote reg bytes s) Q zs
    → Exactly (attempt (write_reg reg bytes) fail k) s Q ((reg, bytes) ∷ zs)
Exactly-write_attempt reg bytes fail k s Q zs on other fails ek =
    Exactly-when (attempt (write_reg reg bytes) fail k) s (Unit {0} × Q) Q ((reg, bytes) ∷ zs)
      (λ h. h.1, λ q. (tt, q))
      (Exactly-attempt (write_reg reg bytes) fail k s (Unit {0}) Q ((reg, bytes) ∷ []) zs fails
        (Exactly-write reg bytes s on other) ek)

pub Exactly-write_then :
    (reg : ℕ) (bytes : List ℕ) (k : Io SxErr) (s : Radio) (Q : Type 0) (zs : List (ℕ × List ℕ))
    → s.spi_port.initialized ≡ true
    → (reg == 0x1E) ≡ false
    → Exactly k (wrote reg bytes s) Q zs
    → Exactly (write_reg reg bytes >>? k) s Q ((reg, bytes) ∷ zs)
Exactly-write_then reg bytes k s Q zs on other ek =
    Exactly-write_attempt reg bytes pure k s Q zs on other (λ ret t. refl) ek

pub Exactly-write_checked :
    (reg : ℕ) (bytes : List ℕ) (complaint : Io (Unit {0})) (k : Io SxErr) (s : Radio) (Q : Type 0)
    (zs : List (ℕ × List ℕ))
    → s.spi_port.initialized ≡ true
    → (reg == 0x1E) ≡ false
    → Exactly k (wrote reg bytes s) Q zs
    → Exactly (checked (write_reg reg bytes) complaint k) s Q ((reg, bytes) ∷ zs)
Exactly-write_checked reg bytes complaint k s Q zs on other ek =
    Exactly-write_attempt reg bytes (λ ret. complaint >> pure ret) k s Q zs on other (λ ret t. refl)
      ek

pub Exactly-then :
    (m k : Io SxErr) (s : Radio) (P Q : Type 0) (ws zs : List (ℕ × List ℕ))
    → Exactly m s P ws
    → Exactly k (wrote_all ws s) Q zs
    → Exactly (m >>? k) s (P × Q) (ws ++ zs)
Exactly-then m k s P Q ws zs em ek = Exactly-attempt m pure k s P Q ws zs (λ ret t. refl) em ek

pub Exactly-if :
    (b : Bool) (k : Io SxErr) (s : Radio) (Q : Type 0) (zs : List (ℕ × List ℕ))
    → Exactly k s Q zs
    → Exactly (if b then pure sx_invalid_argument else k) s ((b ≡ false) × Q) zs
unfolding Exactly
Exactly-if true k s Q zs ek v = (
  λ e. let ret = ap (λ (r : SxErr × Radio). r.0) e in absurd (ground (arith, ap is_ok ret)),
  λ h. absurd (ground (arith, h.0.0)),
)
Exactly-if false k s Q zs ek v =
    (λ e. let h = (ek v).0 e in ((refl, h.0), h.1), λ h. (ek v).1 (h.0.1, h.1))

-- Whatever the write of the spreading factor that the driver has is answered: what follows it begins
-- in the same state.
spreading_lost :
    (bytes : List ℕ) (k : Io SxErr) (s : Radio)
    → s.spi_port.initialized ≡ true
    → (write_reg 0x1E bytes >>= λ ret.
          (if is_ok ret then set_spreading_factor_global s.spreading_factor else pure tt) >> k)
        s
      ≡ k (wrote 0x1E bytes s)
unfolding set_spreading_factor_global
spreading_lost bytes k s on =
    bind_at (write_reg 0x1E bytes)
      (λ ret. (if is_ok ret then set_spreading_factor_global s.spreading_factor else pure tt) >> k)
      s (wrote 0x1E bytes s) (answer (0x1E, bytes) s) (write_reg-answer 0x1E bytes s on)
    ∙ if-cases (λ (f : Io (Unit {0})). (f >> k) (wrote 0x1E bytes s) ≡ k (wrote 0x1E bytes s))
        (is_ok (answer (0x1E, bytes) s)) (λ _. refl) (λ _. refl)

pub Exactly-spreading :
    (bytes : List ℕ) (k : Io SxErr) (s : Radio) (Q : Type 0) (zs : List (ℕ × List ℕ))
    → s.spi_port.initialized ≡ true
    → Exactly k (wrote 0x1E bytes s) Q zs
    → Exactly
        (write_reg 0x1E bytes >>= λ ret.
          (if is_ok ret then set_spreading_factor_global s.spreading_factor else pure tt) >> k)
        s
        Q
        ((0x1E, bytes) ∷ zs)
unfolding Exactly
Exactly-spreading bytes k s Q zs on ek v =
    let same = spreading_lost bytes k s on in
    (
      λ e. let h = (ek v).0 (sym same ∙ e) in (h.0, ((tt, h.1.0), h.1.1)),
      λ h. same ∙ (ek v).1 (h.0, (h.1.0.1, h.1.1)),
    )

pub ruleset exactly = (
  Exactly-pure, Exactly-write, Exactly-write_then, Exactly-write_checked, Exactly-if,
  Exactly-spreading,
)
