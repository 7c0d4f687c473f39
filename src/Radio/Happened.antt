-- ===== src/Radio/Happened.antt =====
-- Calls that took place during a run, and statements about the end of every run.
use lora_driver_with_network.Prelude.{
  ◌≡◌, refl, Bool, true, false, Option, none, some, if◌then◌else◌,
}
use lora_driver_with_network.Platform.{SxErr, is_ok}
use lora_driver_with_network.Radio.{Radio, Io, pure, ◌>>=◌, ◌>>=?◌, attempt}
use lora_driver_with_network.Radio.Kept.{Kept, Kept-refl, Kept-trans, Keeps}

-- In the run from `s` to `t`, which only adds to the history, the call `m` was made and returned `a`.
pub record Happened {A : Type 0} (m : Io A) (a : A) (s t : Radio) : Type 0 where
  pub at : Radio
  pub from_start : Kept s at
  pub returned : (m at).0 ≡ a
  pub to_end : Kept (m at).1 t

pub Happened-now :
    {A : Type 0} (m : Io A) (a : A) (s u : Radio) → Kept s u → (m u).0 ≡ a → Happened m a s (m u).1
Happened-now m a s u k e = record {
  at = u;
  from_start = k;
  returned = e;
  to_end = Kept-refl (m u).1;
}

pub Happened-before :
    {A : Type 0} (m : Io A) (a : A) (s t u : Radio) → Happened m a s t → Kept t u → Happened m a s u
Happened-before m a s t u h k = record {
  at = h.at;
  from_start = h.from_start;
  returned = h.returned;
  to_end = Kept-trans (m h.at).1 t u h.to_end k;
}

-- The two ways in which a step that takes fuel goes on.
pub some-cases :
    {A B : Type 0} (P : Option B × Radio → Type 0) (m : Io (Option A)) (f : A → Io (Option B))
    (s : Radio)
    → ((t : Radio) → P (none, t))
    → ((a : A) → (m s).0 ≡ some a → P (f a (m s).1))
    → P ((m >>=? f) s)
some-cases {A} {B} P m f s out go = split (m s).0 refl
  where
    split :
        (o : Option A)
        → (m s).0 ≡ o
        → P ((elim o as (λ _. Io (Option B)) [ none ↦ pure none | some a ↦ f a ]) (m s).1)
    split none e = out (m s).1
    split (some a) e = go a e

-- Every run that goes on from `s` ends as `Q` says.
unfoldable pub From : {A : Type 0} → Radio → (A × Radio → Type 0) → Io A → Type 0
From s Q m = (u : Radio) → Kept s u → Q (m u)

pub From-bind :
    {A B : Type 0} (s : Radio) (Q : B × Radio → Type 0) (m : Io A) (f : A → Io B)
    → Keeps m
    → ((a : A) → From s Q (f a))
    → From s Q (m >>= f)
unfolding From Keeps
From-bind s Q m f k h u l = h (m u).0 (m u).1 (Kept-trans s u (m u).1 l (k u))

pub From-if :
    {A : Type 0} (s : Radio) (Q : A × Radio → Type 0) (b : Bool) (m n : Io A)
    → From s Q m
    → From s Q n
    → From s Q (if b then m else n)
From-if s Q true m n p q = p
From-if s Q false m n p q = q

pub From-attempt :
    {A : Type 0} (s : Radio) (Q : A × Radio → Type 0) (m : Io SxErr) (f : SxErr → Io A) (k : Io A)
    → Keeps m
    → ((ret : SxErr) → From s Q (f ret))
    → From s Q k
    → From s Q (attempt m f k)
From-attempt s Q m f k p q r =
    From-bind s Q m (λ ret. if is_ok ret then k else f ret) p
      (λ ret. From-if s Q (is_ok ret) k (f ret) r (q ret))

pub From-some :
    {A B : Type 0} (s : Radio) (Q : Option B × Radio → Type 0) (m : Io (Option A))
    (f : A → Io (Option B))
    → Keeps m
    → ((t : Radio) → Q (none, t))
    → ((a : A) → From s Q (f a))
    → From s Q (m >>=? f)
unfolding From Keeps
From-some s Q m f k out h u l =
    some-cases Q m f u out (λ a e. h a (m u).1 (Kept-trans s u (m u).1 l (k u)))

pub ruleset from = (From-attempt, From-some, From-if, From-bind)
