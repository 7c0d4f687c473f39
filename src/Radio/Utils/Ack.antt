-- ===== src/Radio/Utils/Ack.antt =====
-- When `send_packet_ensure_ack` and `send_burst` of src/sx127x_utils.c report success.
use Prim.Native.String.{String}
use lora_driver_with_network.Prelude.{
  ℕ, zero, suc, arith, ◌+◌, ◌*◌, if◌then◌else◌, ◌≡◌, refl, ◌∙◌, ap, subst, true, false, not, Option,
  none, some, List, [], ◌∷◌, length, if-cases,
}
use lora_driver_with_network.Packet.{
  Packet, PacketType, packet_begin, packet_end, packet_ack, check_packet_features,
}
use lora_driver_with_network.Packet.Kind.{Matches, check_packet_features_iff}
use lora_driver_with_network.Platform.{SxErr, sx_ok, sx_timeout, is_ok, log_info_low}
use lora_driver_with_network.Radio.{Radio, Io, overrun, ◌>>◌, finish, log_with_tag}
use lora_driver_with_network.Radio.Cases.{is_ok→eq}
use lora_driver_with_network.Radio.Happened.{
  Happened, Happened-now, Happened-before, some-cases, From,
}
use lora_driver_with_network.Radio.Kept.{Kept, Keeps, Kept-refl, Kept-trans, Keeps-log_with_tag}
use lora_driver_with_network.Radio.Driver.Keeping.{driver_kept}
use lora_driver_with_network.Radio.Utils.Keeping.{Keeps-send_packet, Keeps-poll_and_read_packet}
use lora_driver_with_network.Radio.Utils.Described.{describe-cases}
use lora_driver_with_network.Radio.Utils.{
  tag, sleep_after, sx_1278_send_packet, sx1278_poll_and_read_packet, after_poll, after_send,
  ensure_ack_rounds, send_packet_ensure_ack, expected_type, burst_rounds, send_burst,
  phy_timeout_msec, timeout_rounds,
}

-- In the run from `s` to `u` the packet was sent, and an answer was read that agrees with it in the
-- addresses, the identifier, the number and the expected type.
pub record IsAnswered (fuel : ℕ) (p : Packet) (t : PacketType) (s u : Radio) : Type 0 where
  pub before : Packet
  pub answer : Packet
  pub was_sent : Happened (sx_1278_send_packet fuel p true) (some sx_ok) s u
  pub was_read :
      Happened (sx1278_poll_and_read_packet fuel before phy_timeout_msec) (some (sx_ok, answer)) s u
  pub matches : Matches answer p.dest_address p.src_address p.ack_id p.sequence_number t

abbrev Answers : ℕ → Packet → PacketType → Radio → Option SxErr × Radio → Type 0
Answers fuel p t s r = r.0 ≡ some sx_ok → IsAnswered fuel p t s r.1

none_left : ¬ (none ≡ some sx_ok)
none_left e = ground arith

timeout_left : ¬ (some sx_timeout ≡ some sx_ok)
timeout_left e = ground arith

not_ok : (ret : SxErr) → is_ok ret ≡ false → ¬ (some ret ≡ some sx_ok)
not_ok ret h e = ground arith

abbrev accept : Io (Option SxErr)
accept = log_with_tag tag "ack accepted" log_info_low >> sleep_after sx_ok

Keeps-accept : Keeps accept
Keeps-accept = search driver_kept depth 20

after_poll-Answers :
    (fuel : ℕ) (p : Packet) (t : PacketType) (before : Packet) (next : Packet → Io (Option SxErr))
    (r : SxErr × Packet) (s u : Radio)
    → Kept s u
    → Happened (sx_1278_send_packet fuel p true) (some sx_ok) s u
    → Happened (sx1278_poll_and_read_packet fuel before phy_timeout_msec) (some r) s u
    → ((rx_p : Packet) → From s (Answers fuel p t s) (next rx_p))
    → Answers fuel p t s (after_poll p t next r u)
unfolding after_poll From Keeps overrun
after_poll-Answers fuel p t before next (ret, rx_p) s u k sent read rest =
    if-cases Good (not (is_ok ret))
      (λ _. rest rx_p _ (retry "error occured while reading packet. retrying..."))
      λ good.
        if-cases Good
          (not
            (check_packet_features rx_p p.dest_address p.src_address p.ack_id p.sequence_number t))
          (λ _.
            describe-cases Good rx_p
              (log_with_tag tag "mismatched packet. retrying..." log_info_low >> next rx_p)
              (λ _. rest rx_p _ (retry "mismatched packet. retrying..."))
              (λ _ e. absurd (none_left e)))
          λ same _. record {
            before = before;
            answer = rx_p;
            was_sent =
                Happened-before (sx_1278_send_packet fuel p true) (some sx_ok) s u (accept u).1 sent
                  (Keeps-accept u);
            was_read =
                subst
                  (λ (e : SxErr).
                    Happened (sx1278_poll_and_read_packet fuel before phy_timeout_msec)
                      (some (e, rx_p)) s (accept u).1)
                  (is_ok→eq ret (ground arith))
                  (Happened-before (sx1278_poll_and_read_packet fuel before phy_timeout_msec)
                    (some (ret, rx_p)) s u (accept u).1 read (Keeps-accept u));
            matches =
                (check_packet_features_iff rx_p p.dest_address p.src_address p.ack_id
                    p.sequence_number t).0
                  (ground arith);
          }
  where
    Good : Io (Option SxErr) → Type 0
    Good m = Answers fuel p t s (m u)

    retry : (text : String) → Kept s (log_with_tag tag text log_info_low u).1
    retry text = Kept-trans s u _ k (Keeps-log_with_tag tag text log_info_low u)

after_send-Answers :
    (fuel : ℕ) (p : Packet) (t : PacketType) (before : Packet) (next : Packet → Io (Option SxErr))
    (ret : SxErr) (s u : Radio)
    → Kept s u
    → Happened (sx_1278_send_packet fuel p true) (some ret) s u
    → ((rx_p : Packet) → From s (Answers fuel p t s) (next rx_p))
    → Answers fuel p t s (after_send fuel p t before next ret u)
unfolding after_send Keeps
after_send-Answers fuel p t before next ret s u k sent rest =
    let poll = sx1278_poll_and_read_packet fuel before phy_timeout_msec in
    let polled : Kept u (poll u).1 = Keeps-poll_and_read_packet fuel before phy_timeout_msec u in
    if-cases (λ (m : Io (Option SxErr)). Answers fuel p t s (m u)) (not (is_ok ret))
      (λ bad e. absurd (not_ok ret (ground arith) e))
      λ good.
        some-cases (Answers fuel p t s) poll (after_poll p t next) u (λ _ e. absurd (none_left e))
          λ r read.
            after_poll-Answers fuel p t before next r s (poll u).1
              (Kept-trans s u (poll u).1 k polled)
              (subst
                (λ (e : SxErr). Happened (sx_1278_send_packet fuel p true) (some e) s (poll u).1)
                (is_ok→eq ret (ground arith))
                (Happened-before (sx_1278_send_packet fuel p true) (some ret) s u (poll u).1 sent
                  polled))
              (Happened-now poll (some r) s u k read) rest

ensure_ack_rounds-Answers :
    (fuel : ℕ) (p : Packet) (t : PacketType) (n : ℕ) (rx_p : Packet) (s : Radio)
    → From s (Answers fuel p t s) (ensure_ack_rounds fuel p t n rx_p)
unfolding ensure_ack_rounds From Keeps
ensure_ack_rounds-Answers fuel p t zero rx_p s u k = λ e. absurd (timeout_left e)
ensure_ack_rounds-Answers fuel p t (suc n) rx_p s u k =
    let send = sx_1278_send_packet fuel p true in
    let next = ensure_ack_rounds fuel p t n in
    some-cases (Answers fuel p t s) send (after_send fuel p t rx_p next) u
      (λ _ e. absurd (none_left e))
      λ ret sent.
        after_send-Answers fuel p t rx_p next ret s (send u).1
          (Kept-trans s u (send u).1 k (Keeps-send_packet fuel p true u))
          (Happened-now send (some ret) s u k sent)
          (λ rx_p. ensure_ack_rounds-Answers fuel p t n rx_p s)

-- Whatever the platform answers: SX_OK from `send_packet_ensure_ack` means that during the call a send
-- of the packet returned SX_OK, and a `sx1278_poll_and_read_packet` returned SX_OK with a packet that
-- agrees with it in both addresses, the identifier and the sequence number, and has the expected
-- type.
pub send_packet_ensure_ack-IsAnswered :
    (fuel : ℕ) (rx_p p : Packet) (timeout : ℕ) (t : PacketType) (s : Radio)
    → (send_packet_ensure_ack fuel rx_p p timeout t s).0 ≡ some sx_ok
    → IsAnswered fuel p t s (send_packet_ensure_ack fuel rx_p p timeout t s).1
unfolding send_packet_ensure_ack From
send_packet_ensure_ack-IsAnswered fuel rx_p p timeout t s e =
    ensure_ack_rounds-Answers fuel p t (timeout_rounds timeout) rx_p s s (Kept-refl s) e

-- The type of the answer to a packet of a burst, with so many packets before it and these after it.
abbrev pub answer_type : ℕ → List Packet → PacketType
answer_type zero after = packet_begin
answer_type (suc before) [] = packet_end
answer_type (suc before) (p ∷ after) = packet_ack

answer_type_lem :
    (i len : ℕ) (after : List Packet)
    → len ≡ i + suc (length after)
    → expected_type i len ≡ answer_type i after
unfolding expected_type
answer_type_lem zero len after e = refl
answer_type_lem (suc i) len [] e = ground arith
answer_type_lem (suc i) len (p ∷ after) e = ground arith

-- In the run from `s` to `v` every packet was answered, one after the other, where `i` packets stand
-- before the first: BEGIN is the type of the answer for the first packet of the burst, END for the
-- last one of several, and ACK for those between.
pub data AllAnswered (fuel : ℕ) (v : Radio) : ℕ → List Packet → Radio → Type 0 where
  none_answered : {i : ℕ} → AllAnswered fuel v i [] v
  one_answered :
      {i : ℕ} {p : Packet} {ps : List Packet} {s : Radio} (u : Radio)
      → IsAnswered fuel p (answer_type i ps) s u
      → AllAnswered fuel v (i + 1) ps u
      → AllAnswered fuel v i (p ∷ ps) s

abbrev Complete : ℕ → ℕ → List Packet → Radio → Option SxErr × Radio → Type 0
Complete fuel i ps s r = r.0 ≡ some sx_ok → AllAnswered fuel r.1 i ps s

burst_rounds-Complete :
    (fuel : ℕ) (rx_p : Packet) (len i : ℕ) (ps : List Packet) (s : Radio)
    → len ≡ i + length ps
    → Complete fuel i ps s (burst_rounds fuel rx_p len i ps s)
unfolding burst_rounds
burst_rounds-Complete fuel rx_p len i [] s total = λ _. none_answered
burst_rounds-Complete fuel rx_p len i (p ∷ ps) s total =
    let send = send_packet_ensure_ack fuel rx_p p (4 * phy_timeout_msec) (expected_type i len) in
    some-cases (Complete fuel i (p ∷ ps) s) send
      (λ ret. if not (is_ok ret) then finish ret else burst_rounds fuel rx_p len (i + 1) ps) s
      (λ _ e. absurd (none_left e))
      λ ret sent.
        if-cases (λ (m : Io (Option SxErr)). Complete fuel i (p ∷ ps) s (m (send s).1))
          (not (is_ok ret)) (λ bad e. absurd (not_ok ret (ground arith) e))
          (λ good e.
            one_answered (send s).1
              (subst (λ t. IsAnswered fuel p t s (send s).1)
                (answer_type_lem i len ps (omega (arith, total)))
                (send_packet_ensure_ack-IsAnswered fuel rx_p p (4 * phy_timeout_msec)
                  (expected_type i len) s
                  (sent ∙ ap (λ (r : SxErr). some r) (is_ok→eq ret (ground arith)))))
              (burst_rounds-Complete fuel rx_p len (i + 1) ps (send s).1 (omega (arith, total)) e))

-- Whatever the platform answers: SX_OK from `send_burst` means that during the call, for every packet of
-- the burst in order, a send of it returned SX_OK, and a read returned SX_OK with a packet that
-- agrees with it in both addresses, the identifier and the sequence number. The read packet has the
-- type BEGIN for the first packet, END for the last one of several, and ACK for those between.
pub send_burst-AllAnswered :
    (fuel : ℕ) (rx_p : Packet) (p_buf : List Packet) (s : Radio)
    → (send_burst fuel rx_p p_buf s).0 ≡ some sx_ok
    → AllAnswered fuel (send_burst fuel rx_p p_buf s).1 0 p_buf s
unfolding send_burst
send_burst-AllAnswered fuel rx_p p_buf s e =
    burst_rounds-Complete fuel rx_p (length p_buf) 0 p_buf s (omega arith) e
