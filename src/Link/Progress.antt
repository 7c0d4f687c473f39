-- ===== src/Link/Progress.antt =====
-- A burst over the link, after it has come to its end.
use lora_driver_with_network.Prelude.{
  ℕ, zero, suc, ◌≡◌, refl, ap, ◌∙◌, ◌⊎◌, inl, inr, arith, List, [], ◌∷◌,
}
use lora_driver_with_network.Packet.{Packet}
use lora_driver_with_network.Radio.Utils.{timeout_rounds}
use lora_driver_with_network.Link.{Link, Outcome, all_tries, round, run}

-- The sender has sent everything, or used up the tries for a packet.
abbrev pub IsOver : Link → Type 0
IsOver l = (l.pending ≡ []) ⊎ (l.tries ≡ 0)

pub all_tries_lem : all_tries ≡ 4
unfolding timeout_rounds
all_tries_lem = refl

module _ (len : ℕ) where
  -- After the end nothing happens any more.
  round_over :
      (o : Outcome) (l : Link) (ps : List Packet) (n : ℕ)
      → (ps ≡ []) ⊎ (n ≡ 0)
      → round len o ps n l ≡ l
  round_over o l [] n over = refl
  round_over o l (p ∷ ps) zero over = refl
  round_over o l (p ∷ ps) (suc k) (inl e) = absurd (cc)
  round_over o l (p ∷ ps) (suc k) (inr e) = absurd (omega (arith, e))

  pub run_over : (os : List Outcome) (l : Link) → IsOver l → run len os l ≡ l
  run_over [] l over = refl
  run_over (o ∷ os) l over =
      ap (λ m. run len os m) (round_over o l l.pending l.tries over) ∙ run_over os l over
