-- ===== src/Examples/Pingpong/Rally.antt =====
-- When the sender of examples/esp32c3_6/pingpong/main/main.c reports that its test passed.
use lora_driver_with_network.Prelude.{
  ℕ, zero, suc, ◌≡◌, refl, ap, subst, ◌∙◌, ◌↔◌, ◌≤◌, ltb, ltb-false, arith, true, false, not,
  Option, some, List, [], ◌∷◌, ==-refl, if-cases, take, length,
}
use lora_driver_with_network.Platform.{SxErr, sx_ok, is_ok}
use lora_driver_with_network.Radio.{Radio, Io, overrun}
use lora_driver_with_network.Radio.Cases.{is_ok→eq}
use lora_driver_with_network.Radio.Happened.{some-cases}
use lora_driver_with_network.Radio.Trace.{some_at, bind_at}
use lora_driver_with_network.Radio.Driver.{
  poll_for_irq_flag, sx1278_send_payload, sx1278_read_last_payload,
}
use lora_driver_with_network.Examples.Pingpong.{
  ping_str, pong_str, buf_size, Ending, all_rounds, same, holds, after_read, after_wait, after_ping,
  sender_rounds, run_sender,
}

same-eq : (a b : List ℕ) → same a b ≡ true → a ≡ b
same-eq [] [] h = refl
same-eq [] (y ∷ ys) h = cc
same-eq (x ∷ xs) [] h = cc
same-eq (x ∷ xs) (y ∷ ys) h =
    let head : x ≡ y = ground arith in
    let tail : same xs ys ≡ true = ground arith in rw (head, same-eq xs ys tail) refl

same_refl : (a : List ℕ) → same a a ≡ true
same_refl [] = refl
same_refl (x ∷ xs) = rw (==-refl x) (same_refl xs)

holds-eq :
    (str buf : List ℕ) (len : ℕ)
    → holds str buf len ≡ true
    → (len ≡ length str) × (take (length str) buf ≡ str)
unfolding holds
holds-eq str buf len h =
    let size : len ≡ length str = ground arith in
    let equal : same (take len buf) str ≡ true = ground arith in
    (size, subst (λ n. take n buf ≡ str) size (same-eq (take len buf) str equal))

eq-holds : (str buf : List ℕ) → take (length str) buf ≡ str → holds str buf (length str) ≡ true
unfolding holds
eq-holds str buf e = rw (==-refl (length str), e) (same_refl str)

-- So many rounds from `s` to `v`, one after the other: a ping was sent with SX_OK, the wait ended
-- with SX_OK, and a payload was read with SX_OK that is a pong and did not overrun the buffer.
pub data Rallied (fuel : ℕ) (v : Radio) : ℕ → List ℕ → ℕ → Radio → Type 0 where
  over : {buf : List ℕ} {len : ℕ} → Rallied fuel v 0 buf len v
  round :
      {n : ℕ} {buf : List ℕ} {len : ℕ} {s : Radio} (got : List ℕ) (a b c : Radio)
      → sx1278_send_payload fuel ping_str (length ping_str) true s ≡ (some sx_ok, a)
      → poll_for_irq_flag fuel 3000 3 64 false a ≡ (some sx_ok, b)
      → sx1278_read_last_payload buf len b ≡ ((sx_ok, (got, length pong_str)), c)
      → take (length pong_str) got ≡ pong_str
      → length got ≤ buf_size
      → Rallied fuel v n got (length pong_str) c
      → Rallied fuel v (suc n) buf len s

abbrev Passes : ℕ → ℕ → List ℕ → ℕ → Radio → Option Ending × Radio → Type 0
Passes fuel n buf len s r = r.0 ≡ some all_rounds → Rallied fuel r.1 n buf len s

module _ (fuel n : ℕ) where
  Passes-read :
      (buf : List ℕ) (len : ℕ) (s a b : Radio) (r : SxErr × (List ℕ × ℕ)) (c : Radio)
      → sx1278_send_payload fuel ping_str (length ping_str) true s ≡ (some sx_ok, a)
      → poll_for_irq_flag fuel 3000 3 64 false a ≡ (some sx_ok, b)
      → sx1278_read_last_payload buf len b ≡ (r, c)
      → ((buf : List ℕ) (len : ℕ) (s : Radio)
          → Passes fuel n buf len s (sender_rounds fuel n buf len s))
      → Passes fuel (suc n) buf len s (after_read pong_str (sender_rounds fuel n) r c)
  unfolding after_read overrun
  Passes-read buf len s a b (ret, (got, l)) c sent waited read rest =
      if-cases (λ (m : Io (Option Ending)). Passes fuel (suc n) buf len s (m c))
        (ltb buf_size (length got)) (λ large e. absurd (ground (arith, e)))
        λ room.
          if-cases (λ (m : Io (Option Ending)). Passes fuel (suc n) buf len s (m c))
            (not (is_ok ret)) (λ bad e. absurd (ground arith))
            λ good.
              if-cases (λ (m : Io (Option Ending)). Passes fuel (suc n) buf len s (m c))
                (holds pong_str got l)
                (λ ok e.
                  let h = holds-eq pong_str got l ok in
                  let fine : ret ≡ sx_ok = is_ok→eq ret (ground arith) in
                  round got a b c sent waited (read ∙ rw (fine, h.0) refl) h.1 (ground arith) (
                    subst (λ k. Rallied fuel (sender_rounds fuel n got l c).1 n got k c) h.0
                      (rest got l c e)))
                (λ wrong e. absurd (ground arith))

  Passes-wait :
      (buf : List ℕ) (len : ℕ) (s a : Radio) (ret : SxErr) (b : Radio)
      → sx1278_send_payload fuel ping_str (length ping_str) true s ≡ (some sx_ok, a)
      → poll_for_irq_flag fuel 3000 3 64 false a ≡ (some ret, b)
      → ((buf : List ℕ) (len : ℕ) (s : Radio)
          → Passes fuel n buf len s (sender_rounds fuel n buf len s))
      → Passes fuel (suc n) buf len s (after_wait pong_str buf len (sender_rounds fuel n) ret b)
  unfolding after_wait
  Passes-wait buf len s a ret b sent waited rest =
      if-cases (λ (m : Io (Option Ending)). Passes fuel (suc n) buf len s (m b)) (not (is_ok ret))
        (λ bad e. absurd (ground arith))
        λ good.
          let r = sx1278_read_last_payload buf len b in
          Passes-read buf len s a b r.0 r.1 sent
            (waited ∙ ap (λ (x : SxErr). (some x, b)) (is_ok→eq ret (ground arith))) refl rest

  Passes-ping :
      (buf : List ℕ) (len : ℕ) (s : Radio) (ret : SxErr) (a : Radio)
      → sx1278_send_payload fuel ping_str (length ping_str) true s ≡ (some ret, a)
      → ((buf : List ℕ) (len : ℕ) (s : Radio)
          → Passes fuel n buf len s (sender_rounds fuel n buf len s))
      → Passes fuel (suc n) buf len s (after_ping fuel buf len (sender_rounds fuel n) ret a)
  unfolding after_ping
  Passes-ping buf len s ret a sent rest =
      if-cases (λ (m : Io (Option Ending)). Passes fuel (suc n) buf len s (m a)) (not (is_ok ret))
        (λ bad e. absurd (ground arith))
        λ good.
          let poll = poll_for_irq_flag fuel 3000 3 64 false in
          some-cases (Passes fuel (suc n) buf len s) poll
            (after_wait pong_str buf len (sender_rounds fuel n)) a (λ _ e. absurd (ground arith))
            λ got e.
              Passes-wait buf len s a got (poll a).1
                (sent ∙ ap (λ (x : SxErr). (some x, a)) (is_ok→eq ret (ground arith)))
                (ap (λ (o : Option SxErr). (o, (poll a).1)) e) rest

sender_rounds-Passes :
    (fuel n : ℕ) (buf : List ℕ) (len : ℕ) (s : Radio)
    → Passes fuel n buf len s (sender_rounds fuel n buf len s)
unfolding sender_rounds
sender_rounds-Passes fuel zero buf len s = λ _. over
sender_rounds-Passes fuel (suc n) buf len s =
    let send = sx1278_send_payload fuel ping_str (length ping_str) true in
    some-cases (Passes fuel (suc n) buf len s) send (after_ping fuel buf len (sender_rounds fuel n))
      s (λ _ e. absurd (ground arith))
      λ ret e.
        Passes-ping fuel n buf len s ret (send s).1 (ap (λ (o : Option SxErr). (o, (send s).1)) e)
          (sender_rounds-Passes fuel n)

Rallied-passes :
    (fuel n : ℕ) (buf : List ℕ) (len : ℕ) (s v : Radio)
    → Rallied fuel v n buf len s
    → sender_rounds fuel n buf len s ≡ (some all_rounds, v)
unfolding sender_rounds after_ping after_wait after_read
Rallied-passes fuel zero buf len s v over = refl
Rallied-passes fuel (suc n) buf len s v (round got a b c sent waited read pong room more) =
    let next = sender_rounds fuel n in
    some_at (sx1278_send_payload fuel ping_str (length ping_str) true)
      (after_ping fuel buf len next) s a sx_ok sent
    ∙ some_at (poll_for_irq_flag fuel 3000 3 64 false) (after_wait pong_str buf len next) a b sx_ok
        waited
    ∙ bind_at (sx1278_read_last_payload buf len) (after_read pong_str next) b c
        (sx_ok, (got, length pong_str)) read
    ∙ rw (ltb-false buf_size (length got) room, eq-holds pong_str got pong)
        (Rallied-passes fuel n got (length pong_str) c v more)

-- Whatever the platform answers: the sender reports that the test passed, in the state `v`, if and only
-- if from the start to `v` there were five rounds, one after the other, in each of which the send of
-- a ping returned SX_OK, the wait for a frame returned SX_OK, and the read returned SX_OK and a
-- payload that is a pong, and did not go over the end of the 64-byte buffer.
pub run_sender-Rallied :
    (fuel : ℕ) (buf : List ℕ) (len : ℕ) (s v : Radio)
    → (run_sender fuel buf len s ≡ (some all_rounds, v)) ↔ Rallied fuel v 5 buf len s
unfolding run_sender
run_sender-Rallied fuel buf len s v = (
  λ e.
      subst (λ w. Rallied fuel w 5 buf len s) (ap (λ (r : Option Ending × Radio). r.1) e)
        (sender_rounds-Passes fuel 5 buf len s (ap (λ (r : Option Ending × Radio). r.0) e)),
  Rallied-passes fuel 5 buf len s v,
)
