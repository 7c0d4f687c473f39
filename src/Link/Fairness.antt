-- ===== src/Link/Fairness.antt =====
-- A burst over the link gets to its end when enough rounds are answered.
use lora_driver_with_network.Prelude.{
  ℕ, suc, ◌+◌, ◌-◌, ◌≤◌, ◌<◌, ◌≡◌, refl, ap, sym, subst, ◌∙◌, inl, arith, true, List, [], ◌∷◌, ◌++◌,
  length,
}
use lora_driver_with_network.Packet.{Packet, check_packet_features}
use lora_driver_with_network.Packet.Kind.{ack_of, ack_of_lem}
use lora_driver_with_network.NetworkData.Fragments.{burst}
use lora_driver_with_network.RxHandler.{RxHandlerCtx}
use lora_driver_with_network.Radio.Utils.{expected_type}
use lora_driver_with_network.Radio.Utils.Expected.{AllExpected, one_expected, burst-AllExpected}
use lora_driver_with_network.Link.{
  Link, Air, Outcome, lost, disturbed, unanswered, answered, all_tries, start, accepts, answer_to,
  round, run,
}
use lora_driver_with_network.Link.Travel.{Travels, AllTravel, burst-AllTravel}
use lora_driver_with_network.Link.Progress.{all_tries_lem, run_over}

-- A round without an answer.
pub data Bad : Outcome → Type 0 where
  frame_lost : Bad lost
  other_read : {q : Packet} → Bad (disturbed q)
  answer_lost : {air : Air} → Bad (unanswered air)

pub data AllBad : List Outcome → Type 0 where
  none_bad : AllBad []
  one_bad : {o : Outcome} {os : List Outcome} → Bad o → AllBad os → AllBad (o ∷ os)

-- For each of so many packets at most three rounds without an answer, and then one with it; and any
-- rounds after that.
pub data Fair : ℕ → List Outcome → Type 0 where
  no_packet : {os : List Outcome} → Fair 0 os
  one_packet :
      {n : ℕ} {os : List Outcome} (bad : List Outcome) (air back : Air)
      → AllBad bad
      → length bad ≤ 3
      → Fair n os
      → Fair (suc n) (bad ++ answered air back ∷ os)

-- Where the sender is.
abbrev At : ℕ → List Packet → ℕ → Link → Type 0
At i ps n l = (l.index ≡ i) × (l.pending ≡ ps) × (l.tries ≡ n)

module _ (len : ℕ) where
  stays_there :
      (o : Outcome) (i : ℕ) (p : Packet) (ps : List Packet) (k : ℕ) (l : Link)
      → Bad o
      → At i (p ∷ ps) (suc k) l
      → At i (p ∷ ps) k (round len o l.pending l.tries l)
  stays_there lost i p ps k l frame_lost (a, e, f) =
      subst (λ m. At i (p ∷ ps) k m)
        (sym (ap (λ qs. round len lost qs l.tries l) e ∙ ap (λ n. round len lost (p ∷ ps) n l) f))
        (a, e, refl)
  stays_there (disturbed q) i p ps k l other_read (a, e, f) =
      subst (λ m. At i (p ∷ ps) k m)
        (sym (
          ap (λ qs. round len (disturbed q) qs l.tries l) e
          ∙ ap (λ n. round len (disturbed q) (p ∷ ps) n l) f))
        (a, e, refl)
  stays_there (unanswered air) i p ps k l answer_lost (a, e, f) =
      subst (λ m. At i (p ∷ ps) k m)
        (sym (
          ap (λ qs. round len (unanswered air) qs l.tries l) e
          ∙ ap (λ n. round len (unanswered air) (p ∷ ps) n l) f))
        (a, e, refl)
  stays_there (answered air back) i p ps k l b at = elim b [ ]

  -- Fewer bad rounds than tries leave the sender at its packet.
  bad_rounds :
      (bad os : List Outcome) (i : ℕ) (p : Packet) (ps : List Packet) (k n : ℕ) (l : Link)
      → AllBad bad
      → n ≡ length bad + k
      → At i (p ∷ ps) n l
      → (m : Link) × (run len (bad ++ os) l ≡ run len os m) × At i (p ∷ ps) k m
  bad_rounds [] os i p ps k n l none_bad e (a, f, g) = (l, refl, (a, f, g ∙ e ∙ omega arith))
  bad_rounds (o ∷ bad) os i p ps k n l (one_bad b bs) e (a, f, g) =
      bad_rounds bad os i p ps k (length bad + k) (round len o l.pending l.tries l) bs refl
        (stays_there o i p ps (length bad + k) l b (a, f, g ∙ e ∙ omega arith))

  accepts_expected :
      (back : Air) (p : Packet) (i : ℕ)
      → Travels p
      → check_packet_features
          (ack_of p)
          p.dest_address
          p.src_address
          p.ack_id
          p.sequence_number
          (expected_type i len)
        ≡ true
      → accepts back p i len (answer_to p) ≡ true
  accepts_expected back p i t e =
      ap (accepts back p i len) (ack_of_lem p) ∙ rw (t.ack_arrives back) e

  moves_on :
      (air back : Air) (i : ℕ) (p : Packet) (ps : List Packet) (k : ℕ) (l : Link)
      → Travels p
      → check_packet_features
          (ack_of p)
          p.dest_address
          p.src_address
          p.ack_id
          p.sequence_number
          (expected_type i len)
        ≡ true
      → At i (p ∷ ps) (suc k) l
      → At (i + 1) ps all_tries (round len (answered air back) l.pending l.tries l)
  moves_on air back i p ps k l t good (a, e, f) =
      subst (λ m. At (i + 1) ps all_tries m)
        (sym (
          ap (λ qs. round len (answered air back) qs l.tries l) e
          ∙ ap (λ n. round len (answered air back) (p ∷ ps) n l) f))
        (rw (t.packet_arrives air, a, accepts_expected back p i t good) (refl, refl, refl))

  run-Fair :
      (os : List Outcome) (i : ℕ) (ps : List Packet) (l : Link)
      → At i ps all_tries l
      → AllTravel ps
      → AllExpected len i ps
      → Fair (length ps) os
      → (run len os l).pending ≡ []
  run-Fair os i [] l (a, e, f) t x fair =
      ap (λ (m : Link). m.pending) (run_over len os l (inl e)) ∙ e
  run-Fair os i (p ∷ ps) l at t (one_expected good x)
        (one_packet {os = rest} bad air back bs few fair) =
      let k = 3 - length bad in
      let enough : all_tries ≡ length bad + suc k = omega (arith, all_tries_lem) in
      let (m, same, here) =
        bad_rounds bad (answered air back ∷ rest) i p ps (suc k) all_tries l bs enough at in
      ap (λ (n : Link). n.pending) same
      ∙ run-Fair rest (i + 1) ps (round len (answered air back) m.pending m.tries m)
          (moves_on air back i p ps k m t.0 good here) t.1 x fair

-- When the link lets at least one of the four tries for each packet of a burst through, with its
-- acknowledgement, the sender gets to the end of the burst, whatever the receiver makes of it. The
-- data has at most 2032 bytes, as many as 254 packets carry.
pub run-Fair_completes :
    (dest src id : ℕ) (bytes : List ℕ) (ctx : RxHandlerCtx) (os : List Outcome)
    → dest < 65536
    → src < 65536
    → id < 256
    → length bytes ≤ 2032
    → let packets = burst dest src id true bytes in
      Fair (length packets) os → (run (length packets) os (start packets ctx)).pending ≡ []
run-Fair_completes dest src id bytes ctx os df sf idf small fair =
    let packets = burst dest src id true bytes in
    run-Fair (length packets) os 0 packets (start packets ctx) (refl, refl, refl)
      (burst-AllTravel dest src id df sf idf bytes) (burst-AllExpected dest src id bytes small) fair
