-- ===== src/RxHandler/Echoes.antt =====
-- Streams of packets for the handler of src/rx_packet_handler.c, seen up to retransmission: a
-- packet with the addresses, the identifier and the number of the one before it is an echo.
use mathlib.Core.Quot
use mathlib.Core.Quot.{Quot, Quot-set}
use lora_driver_with_network.Prelude.{
  ◌≡◌, ◌↔◌, refl, ap, sym, ◌∙◌, Bool, true, ◌&&◌, some, List, [], ◌∷◌, arith, ◌==◌, if◌then◌else◌,
  if-cases,
}
use lora_driver_with_network.Packet.{Packet}
use lora_driver_with_network.RxHandler.{RxHandlerCtx, rx_packet_handler}
use lora_driver_with_network.RxHandler.Filter.{SameIds, SameIds-refl, rx_packet_handler-echo}
use lora_driver_with_network.RxHandler.Stream.{Reception, Resent, done, first, again, receive}

-- `Echoes ps qs`: in `qs`, one echo was added to `ps`.
pub data Echoes : List Packet → List Packet → Type 0 where
  here : (p q : Packet) (ps : List Packet) → SameIds p q → Echoes (p ∷ ps) (p ∷ q ∷ ps)
  later : {ps qs : List Packet} (p : Packet) → Echoes ps qs → Echoes (p ∷ ps) (p ∷ qs)

-- A stream, with its echoes forgotten.
abbrev pub Heard : Type 0
Heard = Quot Echoes

abbrev pub heard : List Packet → Heard
heard = Quot.mk

hear : Packet → Heard → Heard
hear p = Quot.lift Quot-set (λ ps. heard (p ∷ ps)) (λ ps qs e. Quot.sound (later p e))

pub Reception-set : IsSet Reception
Reception-set = hlevel

-- An echo makes no difference to the handler.
pub receive-Echoes :
    {ps qs : List Packet} → Echoes ps qs → (ctx : RxHandlerCtx) → receive ctx ps ≡ receive ctx qs
unfolding receive
receive-Echoes (here p q ps s) ctx =
    let quiet = rx_packet_handler-echo ctx p q s in rw (quiet.0, quiet.1)
receive-Echoes (later p e) ctx = rw (receive-Echoes e (rx_packet_handler ctx (some p)).ctx)

unfoldable pub receive_heard : RxHandlerCtx → Heard → Reception
receive_heard ctx = Quot.lift Reception-set (receive ctx) (λ ps qs e. receive-Echoes e ctx)

-- Every retransmission is forgotten.
heard-Resent : {ps qs : List Packet} → Resent ps qs → heard ps ≡ heard qs
unfolding hear
heard-Resent done = refl
heard-Resent (first p r) = ap (hear p) (heard-Resent r)
heard-Resent (again {qs = qs} p r) = heard-Resent r ∙ Quot.sound (here p p qs (SameIds-refl p))

-- Retransmissions make no difference: the state and the calls are those of a stream in which every
-- packet is delivered once.
pub receive-Resent :
    {ps qs : List Packet} → Resent ps qs → (ctx : RxHandlerCtx) → receive ctx qs ≡ receive ctx ps
unfolding receive_heard
receive-Resent r ctx = ap (receive_heard ctx) (sym (heard-Resent r))

-- The stream in which every packet comes once.

same_ids : Packet → Packet → Bool
same_ids p q =
    p.dest_address == q.dest_address
    && p.src_address == q.src_address
    && p.ack_id == q.ack_id
    && p.sequence_number == q.sequence_number

skip_echo : Packet → List Packet → List Packet
skip_echo p [] = []
skip_echo p (q ∷ qs) = if same_ids p q then qs else q ∷ qs

unfoldable pub drop_echoes : List Packet → List Packet
unfolding skip_echo same_ids
drop_echoes [] = []
drop_echoes (p ∷ ps) = p ∷ skip_echo p (drop_echoes ps)

same_ids-SameIds : (p q : Packet) → same_ids p q ≡ true → SameIds p q
unfolding same_ids
same_ids-SameIds p q h = ground arith

skip_echo-SameIds :
    (p q : Packet) → SameIds p q → (ps : List Packet) → skip_echo p ps ≡ skip_echo q ps
unfolding skip_echo same_ids
skip_echo-SameIds p q s [] = refl
skip_echo-SameIds p q s (x ∷ ps) = rw (s.dest, s.src, s.id, s.number)

skip_echo-here : (p q : Packet) → SameIds p q → (ps : List Packet) → skip_echo p (q ∷ ps) ≡ ps
unfolding skip_echo same_ids
skip_echo-here p q s ps = ground (arith, s.dest, s.src, s.id, s.number)

pub drop_echoes-Echoes : (ps qs : List Packet) → Echoes ps qs → drop_echoes ps ≡ drop_echoes qs
unfolding drop_echoes
drop_echoes-Echoes _ _ (here p q ps s) =
    ap (λ (qs : List Packet). p ∷ qs)
      (skip_echo-SameIds p q s (drop_echoes ps)
        ∙ sym (skip_echo-here p q s (skip_echo q (drop_echoes ps))))
drop_echoes-Echoes _ _ (later p e) =
    ap (λ (qs : List Packet). p ∷ skip_echo p qs) (drop_echoes-Echoes _ _ e)

heard-skip_echo : (p : Packet) (ps : List Packet) → heard (p ∷ skip_echo p ps) ≡ heard (p ∷ ps)
unfolding skip_echo
heard-skip_echo p [] = refl
heard-skip_echo p (q ∷ qs) =
    if-cases (λ (rest : List Packet). heard (p ∷ rest) ≡ heard (p ∷ q ∷ qs)) (same_ids p q)
      (λ h. Quot.sound (here p q qs (same_ids-SameIds p q h))) (λ _. refl)

heard-drop_echoes : (ps : List Packet) → heard (drop_echoes ps) ≡ heard ps
unfolding drop_echoes hear
heard-drop_echoes [] = refl
heard-drop_echoes (p ∷ ps) = heard-skip_echo p (drop_echoes ps) ∙ ap (hear p) (heard-drop_echoes ps)

pub packets-set : IsSet (List Packet)
packets-set = hlevel

unfoldable pub said_once : Heard → List Packet
said_once = Quot.lift packets-set drop_echoes drop_echoes-Echoes

-- Two streams differ in echoes only if and only if they are the same without them.
heard_iff : (ps qs : List Packet) → (heard ps ≡ heard qs) ↔ (drop_echoes ps ≡ drop_echoes qs)
unfolding said_once
heard_iff ps qs =
    (λ e. ap said_once e, λ e. sym (heard-drop_echoes ps) ∙ ap heard e ∙ heard-drop_echoes qs)

heard-said_once : (h : Heard) → heard (said_once h) ≡ h
unfolding said_once
heard-said_once = Quot.ind (λ h. Quot-set _ _) heard-drop_echoes

-- A stream whose retransmissions are forgotten stands for one stream in which no packet is an echo
-- of the one before it, and from every state the handler comes to the state and the calls of that
-- one.
pub said_once-normal :
    (h : Heard)
    → let ps = said_once h in
      (heard ps ≡ h)
      × (drop_echoes ps ≡ ps)
      × ((ctx : RxHandlerCtx) → receive_heard ctx h ≡ receive ctx ps)
unfolding said_once receive_heard
said_once-normal h =
    let e = heard-said_once h in (e, ap said_once e, λ ctx. ap (receive_heard ctx) (sym e))
