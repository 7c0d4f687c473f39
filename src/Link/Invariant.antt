-- ===== src/Link/Invariant.antt =====
-- What holds at every moment of a burst over the link: the receiver handled the packets that the sender
-- has done with, and perhaps the one that is on its way, each as if it had come once.
use lora_driver_with_network.Prelude.{
  ℕ, zero, suc, ◌+◌, ◌≡◌, refl, ap, sym, subst, ◌∙◌, arith, if-cases, some, List, [], ◌∷◌, ◌++◌,
  append-nil, append_assoc, length, length-append,
}
use lora_driver_with_network.Packet.{Packet}
use lora_driver_with_network.RxHandler.{RxHandlerCtx, rx_packet_handler}
use lora_driver_with_network.RxHandler.Filter.{
  SameIds-refl, rx_packet_handler-echo, rx_packet_handler-refused, rx_packet_handler_addresses,
}
use lora_driver_with_network.RxHandler.Stream.{Reception, receive, receive-append}
use lora_driver_with_network.Link.{
  Link, Outcome, Honest, disturbed, lost, unanswered, answered, all_tries, start, hears, accepts,
  answer_to, transmission, round, run,
}
use lora_driver_with_network.Link.Travel.{Travels, AllTravel}

-- The receiver's state and calls are those of these packets, each handled once.
abbrev pub Heard : RxHandlerCtx → List Packet → Link → Type 0
Heard ctx ps l = receive ctx ps ≡ record { ctx = l.receiver; calls = l.calls }

-- The packets behind `acked` may already be one further at the receiver.
pub data Front (ctx : RxHandlerCtx) (acked : List Packet) (l : Link) : Type 0 where
  level : Heard ctx acked l → Front ctx acked l
  ahead :
      (p : Packet) (ps : List Packet)
      → l.pending ≡ p ∷ ps
      → Heard ctx (acked ++ p ∷ []) l
      → Front ctx acked l

pub record IsSound (packets : List Packet) (ctx : RxHandlerCtx) (l : Link) : Type 0 where
  pub acked : List Packet
  pub whole : packets ≡ acked ++ l.pending
  pub place : l.index ≡ length acked
  pub front : Front ctx acked l
  pub travel : AllTravel l.pending
  pub home :
      (l.receiver.host_addr ≡ ctx.host_addr) × (l.receiver.remote_src_addr ≡ ctx.remote_src_addr)

receive_one :
    (ctx : RxHandlerCtx) (ps : List Packet) (p : Packet)
    → let c = (receive ctx ps).ctx in
      receive ctx (ps ++ p ∷ []) ≡ record {
        ctx = (rx_packet_handler c (some p)).ctx;
        calls = (receive ctx ps).calls ++ (rx_packet_handler c (some p)).calls;
      }
unfolding receive
receive_one ctx ps p = receive-append ctx ps (p ∷ []) ∙ rw append-nil refl

Heard-hears :
    (ctx : RxHandlerCtx) (ps : List Packet) (p : Packet) (l : Link)
    → Heard ctx ps l
    → Heard ctx (ps ++ p ∷ []) (hears p l)
Heard-hears ctx ps p l e = receive_one ctx ps p ∙ rw e refl

-- A packet that comes again makes no difference.
Heard-again :
    (ctx : RxHandlerCtx) (ps : List Packet) (p : Packet) (l : Link)
    → Heard ctx (ps ++ p ∷ []) l
    → Heard ctx (ps ++ p ∷ []) (hears p l)
Heard-again ctx ps p l e =
    let c = (receive ctx ps).ctx in
    let quiet = rx_packet_handler-echo c p p (SameIds-refl p) in
    let now : (rx_packet_handler c (some p)).ctx ≡ l.receiver =
      ap (λ (r : Reception). r.ctx) (sym (receive_one ctx ps p) ∙ e) in
    let same : (rx_packet_handler l.receiver (some p)).ctx ≡ l.receiver =
      subst (λ d. (rx_packet_handler d (some p)).ctx ≡ d) now quiet.0 in
    let silent : (rx_packet_handler l.receiver (some p)).calls ≡ [] =
      subst (λ d. (rx_packet_handler d (some p)).calls ≡ []) now quiet.1 in
    e ∙ rw (same, silent, append-nil) refl

cons_head : (p q : Packet) (ps qs : List Packet) → p ∷ ps ≡ q ∷ qs → q ≡ p
cons_head p q ps qs e = cc

-- The receiver after the first of the pending packets arrived, once more or for the first time.
Front-hears :
    (ctx : RxHandlerCtx) (acked : List Packet) (p : Packet) (ps : List Packet) (l : Link)
    → l.pending ≡ p ∷ ps
    → Front ctx acked l
    → Heard ctx (acked ++ p ∷ []) (hears p l)
Front-hears ctx acked p ps l e (level h) = Heard-hears ctx acked p l h
Front-hears ctx acked p ps l e (ahead q qs f h) =
    Heard-again ctx acked p l
      (subst (λ x. Heard ctx (acked ++ x ∷ []) l) (cons_head p q ps qs (sym e ∙ f)) h)

Honest-cons :
    (dest src : ℕ) (o : Outcome) (os : List Outcome)
    → Honest dest src (o ∷ os)
    → Honest dest src (o ∷ []) × Honest dest src os
Honest-cons dest src lost os h = (tt, h)
Honest-cons dest src (disturbed q) os h = ((h.0, tt), h.1)
Honest-cons dest src (unanswered air) os h = (tt, h)
Honest-cons dest src (answered air back) os h = (tt, h)

module _ (packets : List Packet) (ctx : RxHandlerCtx) (len : ℕ) where
  -- A try is used up, and the receiver did not get the packet.
  IsSound-lost :
      (l : Link) (k : ℕ) → IsSound packets ctx l → IsSound packets ctx (record l { tries = k })
  IsSound-lost l k s = record {
    acked = s.acked;
    whole = s.whole;
    place = s.place;
    front = moved s.front;
    travel = s.travel;
    home = s.home;
  }
    where
      moved : Front ctx s.acked l → Front ctx s.acked (record l { tries = k })
      moved (level h) = level h
      moved (ahead p ps e h) = ahead p ps e h

  still_home :
      (p : Packet) (l : Link)
      → IsSound packets ctx l
      → let r = (hears p l).receiver in
        (r.host_addr ≡ ctx.host_addr) × (r.remote_src_addr ≡ ctx.remote_src_addr)
  still_home p l s =
      let same = rx_packet_handler_addresses l.receiver p in (same.0 ∙ s.home.0, same.1 ∙ s.home.1)

  -- A packet that is not of the sender for the receiver changes nothing.
  hears_foreign :
      (q : Packet) (l : Link)
      → IsSound packets ctx l
      → ¬ ((q.dest_address ≡ ctx.host_addr) × (q.src_address ≡ ctx.remote_src_addr))
      → hears q l ≡ l
  hears_foreign q l s foreign =
      let quiet =
        rx_packet_handler-refused l.receiver q
          (λ f. foreign (f.to_host ∙ s.home.0, f.from_remote ∙ s.home.1)) in
      rw (quiet.0, quiet.1, append-nil) refl

  IsSound-unanswered :
      (l : Link) (p : Packet) (ps : List Packet) (k : ℕ)
      → l.pending ≡ p ∷ ps
      → IsSound packets ctx l
      → IsSound packets ctx (record (hears p l) { tries = k })
  IsSound-unanswered l p ps k e s = record {
    acked = s.acked;
    whole = s.whole;
    place = s.place;
    front = ahead p ps e (Front-hears ctx s.acked p ps l e s.front);
    travel = s.travel;
    home = still_home p l s;
  }

  IsSound-answered :
      (l : Link) (p : Packet) (ps : List Packet)
      → l.pending ≡ p ∷ ps
      → IsSound packets ctx l
      → IsSound packets ctx
          (record (hears p l) { index = l.index + 1; pending = ps; tries = all_tries })
  IsSound-answered l p ps e s =
      let travel : AllTravel (p ∷ ps) = subst (λ qs. AllTravel qs) e s.travel in
      record {
        acked = s.acked ++ p ∷ [];
        whole = s.whole ∙ ap (λ qs. s.acked ++ qs) e ∙ sym (append_assoc s.acked (p ∷ []) ps);
        place = omega (arith, length-append s.acked (p ∷ []), s.place);
        front = level (Front-hears ctx s.acked p ps l e s.front);
        travel = travel.1;
        home = still_home p l s;
      }

  transmission-IsSound :
      (o : Outcome) (l : Link) (p : Packet) (ps : List Packet) (k : ℕ)
      → l.pending ≡ p ∷ ps
      → Travels p
      → Honest ctx.host_addr ctx.remote_src_addr (o ∷ [])
      → IsSound packets ctx l
      → IsSound packets ctx (transmission len o p ps k l)
  transmission-IsSound lost l p ps k e t h s = IsSound-lost l k s
  transmission-IsSound (disturbed q) l p ps k e t h s =
      subst (λ (m : Link). IsSound packets ctx (record m { tries = k }))
        (sym (hears_foreign q l s h.0)) (IsSound-lost l k s)
  transmission-IsSound (unanswered air) l p ps k e t h s =
      rw (t.packet_arrives air) (IsSound-unanswered l p ps k e s)
  transmission-IsSound (answered air back) l p ps k e t h s = rw (t.packet_arrives air) (
      if-cases (λ m. IsSound packets ctx m) (accepts back p l.index len (answer_to p))
        (λ _. IsSound-answered l p ps e s) (λ _. IsSound-unanswered l p ps k e s))

  pub round-IsSound :
      (o : Outcome) (l : Link)
      → Honest ctx.host_addr ctx.remote_src_addr (o ∷ [])
      → IsSound packets ctx l
      → IsSound packets ctx (round len o l.pending l.tries l)
  round-IsSound o l h s = cases l.pending l.tries refl s.travel
    where
      cases :
          (ps : List Packet) (n : ℕ)
          → l.pending ≡ ps
          → AllTravel ps
          → IsSound packets ctx (round len o ps n l)
      cases [] n e t = s
      cases (p ∷ ps) zero e t = s
      cases (p ∷ ps) (suc k) e t = transmission-IsSound o l p ps k e t.0 h s

  pub run-IsSound :
      (os : List Outcome) (l : Link)
      → Honest ctx.host_addr ctx.remote_src_addr os
      → IsSound packets ctx l
      → IsSound packets ctx (run len os l)
  run-IsSound [] l h s = s
  run-IsSound (o ∷ os) l h s =
      let (now, later) = Honest-cons ctx.host_addr ctx.remote_src_addr o os h in
      run-IsSound os (round len o l.pending l.tries l) later (round-IsSound o l now s)

  pub start-IsSound : AllTravel packets → IsSound packets ctx (start packets ctx)
  unfolding receive
  start-IsSound t = record {
    acked = [];
    whole = refl;
    place = refl;
    front = level refl;
    travel = t;
    home = (refl, refl);
  }
