-- ===== src/RxHandler/Burst.antt =====
-- A whole burst of src/network_data_operations.c at the receive handler.
use lora_driver_with_network.Prelude.{
  ℕ, zero, suc, ◌+◌, ◌≤◌, ◌<◌, ◌≡◌, ◌≢◌, refl, sym, ap, ◌∙◌, true, Option, some, List, [], ◌∷◌,
  ◌++◌, map, append_assoc, append-nil, arith, u8, take, drop, take_all, length, length-append,
  length-take, length-drop,
}
use lora_driver_with_network.Packet.{Packet, check_packet_type, copy_packet}
use lora_driver_with_network.NetworkData.{packet_count}
use lora_driver_with_network.NetworkData.Fragments.{fragment, fragments, marker}
use lora_driver_with_network.RxHandler.{
  RxHandlerCtx, Call, rx_packet_handler, packet_capture_max_count, data_packet_captured,
  capture_begin,
}
use lora_driver_with_network.RxHandler.Invariant.{IsValid, rx_packet_handler-IsValid}
use lora_driver_with_network.RxHandler.Session.{
  Session, idle, capturing, Outcome, accept, view, notice,
}
use lora_driver_with_network.RxHandler.Refine.{Passes, Marked, rx_packet_handler-accept}
use lora_driver_with_network.RxHandler.Filter.{rx_packet_handler-Kept}
use lora_driver_with_network.RxHandler.Stream.{receive}

module _ (dest src id : ℕ) (fn : Option ℕ) where
  -- The handler listens to this sender, tells `fn` of the end of a transfer, and holds these packets of the open transfer.
  pub record Open (session : Session) (last : ℕ) (ctx : RxHandlerCtx) : Type 0 where
    pub valid : IsValid ctx
    pub is_configured : ctx.configured ≡ true
    pub host : ctx.host_addr ≡ dest
    pub remote : ctx.remote_src_addr ≡ src
    pub held : view ctx ≡ session
    pub end_handler : ctx.capture_end_handler ≡ fn
    pub last_id : ctx.last_received_ack_id ≡ id
    pub last_seq : ctx.last_received_seq_number ≡ last

  -- One packet of this sender with a number of its own.
  pub Open-step :
      (ctx : RxHandlerCtx) (p : Packet) (s : Session)
      → Passes ctx p
      → p.dest_address ≡ dest
      → p.src_address ≡ src
      → p.ack_id ≡ id
      → ctx.capture_end_handler ≡ fn
      → IsValid ctx
      → Marked ctx (check_packet_type p) p
      → (accept (view ctx) (check_packet_type p) p).session ≡ s
      → Open s p.sequence_number (rx_packet_handler ctx (some p)).ctx
        × (map notice (rx_packet_handler ctx (some p)).calls
            ≡ (accept (view ctx) (check_packet_type p) p).notices)
  Open-step ctx p s f d o i c v m e =
      let k = rx_packet_handler-Kept ctx p f in
      let same = rx_packet_handler-accept ctx p v f m in
      (
        record {
          valid = rx_packet_handler-IsValid ctx (some p) v;
          is_configured = k.setup.configured ∙ f.is_configured;
          host = k.setup.host_addr ∙ sym f.to_host ∙ d;
          remote = k.setup.remote_src_addr ∙ sym f.from_remote ∙ o;
          held = ap (λ (r : Outcome). r.session) same ∙ e;
          end_handler = k.setup.capture_end_handler ∙ c;
          last_id = k.last_id ∙ i;
          last_seq = k.last_seq;
        },
        ap (λ (r : Outcome). r.notices) same,
      )

  -- A packet of this sender passes if its number is not that of the packet before.
  pub Open-Passes :
      (session : Session) (last : ℕ) (ctx : RxHandlerCtx) (p : Packet)
      → Open session last ctx
      → p.dest_address ≡ dest
      → p.src_address ≡ src
      → p.sequence_number ≢ last
      → Passes ctx p
  Open-Passes session last ctx p h d o n = record {
    is_configured = h.is_configured;
    to_host = d ∙ sym h.host;
    from_remote = o ∙ sym h.remote;
    is_new = λ both. n (both.1 ∙ h.last_seq);
  }

  accept-fragment :
      (k : ℕ) (ps : List (Option Packet)) (bytes : List ℕ)
      → k ≡ length ps
      → k < packet_capture_max_count
      → 0 < length bytes
      → let p = fragment dest src id (suc k) bytes in
        accept (capturing id ps) (check_packet_type p) p ≡ record {
          session = capturing id (ps ++ some p ∷ []);
          ret = data_packet_captured;
          notices = [];
        }
  unfolding accept check_packet_type copy_packet
  accept-fragment k ps bytes number room full =
      ground (arith, take_all (length bytes) bytes (omega arith))

  no_notice : (cs : List Call) → map notice cs ≡ [] → cs ≡ []
  no_notice [] e = refl
  no_notice (c ∷ cs) e = cc

  -- The next data packet of an open transfer is captured, and nothing is called.
  fragment-captured :
      (k : ℕ) (ctx : RxHandlerCtx) (ps : List (Option Packet)) (bytes : List ℕ)
      → Open (capturing id ps) k ctx
      → k ≡ length ps
      → k < packet_capture_max_count
      → 0 < length bytes
      → let p = fragment dest src id (suc k) bytes in
        let r = rx_packet_handler ctx (some p) in
        Open (capturing id (ps ++ some p ∷ [])) (suc k) r.ctx × (r.calls ≡ [])
  fragment-captured k ctx ps bytes h number room full =
      let p = fragment dest src id (suc k) bytes in
      let e =
        ap (λ s. accept s (check_packet_type p) p) h.held
        ∙ accept-fragment k ps bytes number room full in
      let step =
        Open-step ctx p (capturing id (ps ++ some p ∷ []))
          (Open-Passes (capturing id ps) k ctx p h refl refl (omega arith)) refl refl refl
          h.end_handler h.valid (λ none_open _. cc (none_open, h.held))
          (ap (λ (r : Outcome). r.session) e) in
      (step.0, no_notice _ (step.1 ∙ ap (λ (r : Outcome). r.notices) e))

  -- So are all the fragments of a block of data, one after another.
  pub fragments-captured :
      (n k : ℕ) {m : ℕ} (ctx : RxHandlerCtx) (ps : List (Option Packet)) (bytes : List ℕ)
      → Open (capturing id ps) k ctx
      → k ≡ length ps
      → n ≡ packet_count (length bytes)
      → m ≡ k + n
      → m ≤ packet_capture_max_count
      → let fs = fragments dest src id n (suc k) bytes in
        Open (capturing id (ps ++ map some fs)) m (receive ctx fs).ctx
        × ((receive ctx fs).calls ≡ [])
  unfolding receive
  fragments-captured zero k {m} ctx ps bytes h number count sum room =
      let e : m ≡ k = omega arith in rw (e, append-nil) (h, refl)
  fragments-captured (suc n) k {m} ctx ps bytes h number count sum room =
      let chunk = take 8 bytes in
      let p = fragment dest src id (suc k) chunk in
      let narrow : u8 (suc k) ≡ suc k = omega arith in
      let step =
        fragment-captured k ctx ps chunk h number (omega arith)
          (omega (arith, length-take 8 bytes)) in
      let rest =
        fragments-captured n (suc k) (rx_packet_handler ctx (some p)).ctx (ps ++ some p ∷ [])
          (drop 8 bytes) step.0 (omega (arith, length-append ps (some p ∷ [])))
          (omega (arith, length-drop 8 bytes)) sum' room in
      rw (narrow, step.1) (rw append_assoc at rest)
    where
      sum' : m ≡ suc k + n
      sum' = omega arith

  -- BEGIN opens a transfer at a handler that has none, unless it counts as a duplicate.
  pub begin-captured :
      (ctx : RxHandlerCtx)
      → IsValid ctx
      → Passes ctx (marker dest src id 0)
      → ctx.capture_end_handler ≡ fn
      → view ctx ≡ idle
      → let r = rx_packet_handler ctx (some (marker dest src id 0)) in
        Open (capturing id []) 0 r.ctx × (r.calls ≡ [])
  begin-captured ctx v f c held =
      let p = marker dest src id 0 in
      let e : accept (view ctx) (check_packet_type p) p
          ≡ record { session = capturing id []; ret = capture_begin; notices = [] } =
        rw held (unfold accept check_packet_type in refl) in
      let step =
        Open-step ctx p (capturing id []) f refl refl refl c v
          (λ _ type. unfold check_packet_type in cc type) (ap (λ (r : Outcome). r.session) e) in
      (step.0, no_notice _ (step.1 ∙ ap (λ (r : Outcome). r.notices) e))
