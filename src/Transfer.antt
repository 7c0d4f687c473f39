-- ===== src/Transfer.antt =====
-- A block of data from the sender's memory to the receiver's: the fragmentation and the reassembly of
-- src/network_data_operations.c, the frames of src/packet.c and the receive handler of
-- src/rx_packet_handler.c together.
mod Tests
use lora_driver_with_network.Prelude.{
  ℕ, zero, suc, ◌+◌, ◌-◌, ◌*◌, ◌/◌, ◌≤◌, ◌<◌, ◌≡◌, refl, sym, ap, ap₂, map-append, lt→ltb, subst,
  ◌∙◌, Bool, true, false, Option, none, some, List, [], ◌∷◌, ◌++◌, map, arith, u8, if◌then◌else◌,
  take, drop, length, length-take, length-drop, take-append_left, length-map,
}
use lora_driver_with_network.Packet.{
  Packet, packet_to_bytestream, parse_packet, overhead, uint8_max,
}
use lora_driver_with_network.Packet.Frame.{
  IsWellFormed, frame, contents, length-frame, packet_to_bytestream_fits,
}
use lora_driver_with_network.Packet.Wire.{received, parse_packet-frame}
use lora_driver_with_network.NetworkData.{
  data_to_packet_array, packet_array_to_data, packet_count, sizeof_pointer,
}
use lora_driver_with_network.NetworkData.Fragments.{
  fragment, fragments, marker, burst, data_to_packet_array-burst,
}
use lora_driver_with_network.NetworkData.Reassembly.{
  packet_array_to_data-fragments, length-fragments,
}
use lora_driver_with_network.RxHandler.{RxHandlerCtx, capture_end_call, packet_capture_max_count}
use lora_driver_with_network.RxHandler.Invariant.{IsValid}
use lora_driver_with_network.RxHandler.Session.{idle, view}
use lora_driver_with_network.RxHandler.Refine.{Passes}
use lora_driver_with_network.RxHandler.Stream.{Reception, Resent, receive}
use lora_driver_with_network.RxHandler.Echoes.{receive-Resent}
use lora_driver_with_network.RxHandler.Delivery.{Delivers, receive-burst}

-- What the sender hands to the radio of a frame buffer, by the count that was returned.
abbrev pub transmitted : Option ℕ × List ℕ → List ℕ
transmitted (none, buffer) = []
transmitted (some n, buffer) = take n buffer

-- A packet as the receiver parses it, from a frame that was sent from the buffer `tx` and that is
-- followed by the bytes `rest` in the receive buffer.
abbrev pub over_air : List ℕ → List ℕ → Packet → Packet
over_air tx rest p = (parse_packet (transmitted (packet_to_bytestream tx 255 p) ++ rest)).0

-- The receiver gets what `received` says.
pub over_air-received :
    (tx rest : List ℕ) (p : Packet)
    → 255 ≤ length tx
    → IsWellFormed p
    → overhead + p.payload_length ≤ 255
    → over_air tx rest p ≡ received p
over_air-received tx rest p room w fits =
    ap (λ r. (parse_packet (transmitted r ++ rest)).0)
      (packet_to_bytestream_fits tx 255 p w room fits)
    ∙ ap (λ l. (parse_packet (l ++ rest)).0) (take-append_left (frame p) _)
    ∙ ap (λ (r : Packet × ℕ). r.0) (parse_packet-frame p rest w)

module _ (dest src id : ℕ) (dest_fits : dest < 65536) (src_fits : src < 65536)
    (id_fits : id < 256) where
  pub over_air-marker :
      (tx rest : List ℕ) (seq : ℕ)
      → 255 ≤ length tx
      → seq < 256
      → over_air tx rest (marker dest src id seq) ≡ marker dest src id seq
  over_air-marker tx rest seq room seq_fits =
      over_air-received tx rest (marker dest src id seq) room
        (record {
          dest_fits = dest_fits;
          src_fits = src_fits;
          ack_fits = id_fits;
          sequence_fits = seq_fits;
          length_fits = omega arith;
          payload_fits = refl;
        })
        (omega arith)

  pub over_air-fragment :
      (tx rest : List ℕ) (seq : ℕ) (bytes : List ℕ)
      → 255 ≤ length tx
      → seq < 256
      → 0 < length bytes
      → length bytes ≤ 8
      → over_air tx rest (fragment dest src id seq bytes) ≡ fragment dest src id seq bytes
  over_air-fragment tx rest seq bytes room seq_fits full small =
      over_air-received tx rest (fragment dest src id seq bytes) room
        (record {
          dest_fits = dest_fits;
          src_fits = src_fits;
          ack_fits = id_fits;
          sequence_fits = seq_fits;
          length_fits = omega arith;
          payload_fits = refl;
        })
        (omega arith)
      ∙ (rw (lt→ltb 0 (length bytes) full))

  over_air-fragments :
      (tx rest : List ℕ) (n seq : ℕ) (bytes : List ℕ)
      → 255 ≤ length tx
      → n ≡ packet_count (length bytes)
      → map (over_air tx rest) (fragments dest src id n seq bytes)
        ≡ fragments dest src id n seq bytes
  over_air-fragments tx rest zero seq bytes room count = refl
  over_air-fragments tx rest (suc n) seq bytes room count =
      ap₂ (λ (x : Packet) (l : List Packet). x ∷ l)
        (over_air-fragment tx rest (u8 seq) (take 8 bytes) room (omega arith)
          (omega (arith, length-take 8 bytes)) (omega (arith, length-take 8 bytes)))
        (over_air-fragments tx rest n (suc seq) (drop 8 bytes) room
          (omega (arith, length-drop 8 bytes)))

  -- The packets of a burst arrive as they were built.
  over_air-burst :
      (tx rest bytes : List ℕ)
      → 255 ≤ length tx
      → map (over_air tx rest) (burst dest src id true bytes) ≡ burst dest src id true bytes
  over_air-burst tx rest bytes room =
      let fs = fragments dest src id (packet_count (length bytes)) 1 bytes in
      rw (
        map-append (over_air tx rest) fs (marker dest src id uint8_max ∷ []),
        over_air-marker tx rest 0 room (omega arith),
        over_air-marker tx rest uint8_max room (omega arith),
        over_air-fragments tx rest (packet_count (length bytes)) 1 bytes room refl,
      )

map-some_injective : (ps qs : List Packet) → map some ps ≡ map some qs → ps ≡ qs
map-some_injective [] [] e = refl
map-some_injective [] (q ∷ qs) e = cc
map-some_injective (p ∷ ps) [] e = cc
map-some_injective (p ∷ ps) (q ∷ qs) e =
    let head : p ≡ q = cc in
    let rest : map some ps ≡ map some qs = cc in
    ap₂ (λ (x : Packet) (l : List Packet). x ∷ l) head (map-some_injective ps qs rest)

-- The branch that was taken, by its result.
taken_branch :
    (b : Bool) (x y : List Packet)
    → (if b then some (map some x) else none) ≡ some (map some y)
    → y ≡ x
taken_branch true x y e = map-some_injective y x (cc)
taken_branch false x y e = cc

-- The data that a sender cuts into packets, with BEGIN and END, reaches the receiver whole. The
-- packets travel as frames, each sent from a buffer of any content, and each delivered once or
-- several times in a row. A handler that listens to this sender, has no open transfer and does not
-- take the BEGIN for a duplicate then makes exactly one call: of the handler for the end of the
-- transfer, with an array and a count from which `packet_array_to_data` puts the data back at the
-- start of a buffer that has room. The data has at most 254 packets.
pub transfer :
    (malloc realloc : ℕ → Bool) (dest src id : ℕ) (bytes tx rest out : List ℕ) (ctx : RxHandlerCtx)
    (ps qs : List Packet)
    → dest < 65536
    → src < 65536
    → id < 256
    → 255 ≤ length tx
    → packet_count (length bytes) ≤ packet_capture_max_count
    → length bytes ≤ length out
    → IsValid ctx
    → view ctx ≡ idle
    → Passes ctx (marker dest src id 0)
    → data_to_packet_array malloc realloc bytes (length bytes) dest src id true ≡ some (map some ps)
    → Resent (map (over_air tx rest) ps) qs
    → (array : List (Option Packet)) × ((receive ctx qs).calls
        ≡ capture_end_call ctx.capture_end_handler array (packet_count (length bytes)) ∷ [])
      × (packet_array_to_data array out (packet_count (length bytes))
          ≡ some (bytes ++ drop (length bytes) out))
transfer malloc realloc dest src id bytes tx rest out ctx ps qs df sf idf txf room outf v held f
      built sent =
    let n = packet_count (length bytes) in
    let fs = fragments dest src id n 1 bytes in
    let same : ps ≡ burst dest src id true bytes =
      taken_branch _ _ ps
        (sym (data_to_packet_array-burst dest src id malloc realloc bytes true) ∙ built) in
    let arrived : map (over_air tx rest) ps ≡ burst dest src id true bytes =
      ap (map (over_air tx rest)) same ∙ over_air-burst dest src id df sf idf tx rest bytes txf in
    let d = (receive-burst dest src id ctx.capture_end_handler ctx bytes v held f refl room).0 in
    let count : length (map some fs) ≡ n =
      length-map some fs ∙ length-fragments dest src id n 1 bytes in
    (
      d.array,
      ap (λ (r : Reception). r.calls) (receive-Resent sent ctx ∙ ap (receive ctx) arrived)
          ∙ d.once
          ∙ ap (λ k. capture_end_call ctx.capture_end_handler d.array k ∷ []) count,
      packet_array_to_data-fragments dest src id 1 bytes out d.array
          (ap (λ k. take k d.array) (sym count) ∙ d.holds) outf,
    )
