-- ===== src/Radio/Cases.antt =====
-- What a function returns, whatever the platform answers: the values that a step can yield, and
-- statements about every value that a function can yield.
use lora_driver_with_network.Prelude.{
  ◌≡◌, refl, ◌∙◌, arith, Bool, true, false, Option, none, some, if◌then◌else◌,
}
use lora_driver_with_network.Platform.{SxErr, sx_ok, is_ok}
use lora_driver_with_network.Radio.{Radio, Io, pure, ◌>>=◌, ◌>>=?◌, attempt}

pub is_ok→eq : (e : SxErr) → is_ok e ≡ true → e ≡ sx_ok
is_ok→eq e h = ground arith

-- There is a state in which the step returns this value.
unfoldable pub Yields : {A : Type 0} → Io A → A → Type 0
Yields m a = (s : Radio) × ((m s).0 ≡ a)

unfoldable pub Ensures : {A : Type 0} → (A → Type 0) → Io A → Type 0
Ensures Q m = (s : Radio) → Q (m s).0

pub Ensures-pure : {A : Type 0} (Q : A → Type 0) (a : A) → Q a → Ensures Q (pure a)
unfolding Ensures
Ensures-pure Q a q s = q

pub Ensures-bind :
    {A B : Type 0} (Q : B → Type 0) (m : Io A) (f : A → Io B)
    → ((a : A) → Yields m a → Ensures Q (f a))
    → Ensures Q (m >>= f)
unfolding Ensures Yields
Ensures-bind Q m f h s = h (m s).0 (s, refl) (m s).1

pub Ensures-if :
    {A : Type 0} (Q : A → Type 0) (b : Bool) (m n : Io A)
    → (b ≡ true → Ensures Q m)
    → (b ≡ false → Ensures Q n)
    → Ensures Q (if b then m else n)
Ensures-if Q true m n p q = p refl
Ensures-if Q false m n p q = q refl

pub Ensures-attempt :
    {A : Type 0} (Q : A → Type 0) (m : Io SxErr) (f : SxErr → Io A) (k : Io A)
    → (Yields m sx_ok → Ensures Q k)
    → ((ret : SxErr) → is_ok ret ≡ false → Ensures Q (f ret))
    → Ensures Q (attempt m f k)
unfolding Yields
Ensures-attempt Q m f k ok bad =
    Ensures-bind Q m (λ ret. if is_ok ret then k else f ret)
      (λ ret y. Ensures-if Q (is_ok ret) k (f ret) (λ e. ok (y.0, y.1 ∙ is_ok→eq ret e)) (bad ret))

pub Ensures-some :
    {A B : Type 0} (Q : Option B → Type 0) (m : Io (Option A)) (f : A → Io (Option B))
    → Q none
    → ((a : A) → Yields m (some a) → Ensures Q (f a))
    → Ensures Q (m >>=? f)
Ensures-some {A} {B} Q m f out go =
    Ensures-bind Q m (λ (o : Option A). elim o [ none ↦ pure none | some a ↦ f a ]) cases
  where
    cases :
        (o : Option A)
        → Yields m o
        → Ensures {A = Option B} Q (elim o [ none ↦ pure none | some a ↦ f a ])
    cases none y = Ensures-pure Q none out
    cases (some a) y = go a y

pub ruleset cases = (Ensures-pure, Ensures-attempt, Ensures-some, Ensures-if, Ensures-bind)
