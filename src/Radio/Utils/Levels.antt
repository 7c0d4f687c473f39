-- ===== src/Radio/Utils/Levels.antt =====
-- The levels that `sx_1278_get_channel_rssis` of src/sx127x_utils.c reports.
use lora_driver_with_network.Prelude.{
  ℕ, zero, suc, arith, ◌+◌, ◌/◌, ◌≤◌, ◌<◌, ◌≡◌, refl, ap, sym, subst, ◌∙◌, true, Option, none, some,
  List, [], ◌∷◌, ◌++◌, append_assoc, map, length, length-append, set, replicate, get_or, ◌==◌,
}
use lora_driver_with_network.Platform.{sx_ok, delayed}
use lora_driver_with_network.Platform.SpiPort.{SpiPort}
use lora_driver_with_network.Radio.{Radio, delay_ms}
use lora_driver_with_network.Radio.Trace.{Accepts, wrote, asked, accepted, read_byte-asked}
use lora_driver_with_network.Radio.Config.{channels_of, frf, calculate_channel_num}
use lora_driver_with_network.Radio.Config.Channel.{tuned, sx_1278_switch_to_nth_channel-tuned}
use lora_driver_with_network.Radio.Utils.{
  switch_to_fsk, scan_rounds, after_scan, sx_1278_get_channel_rssis,
}
use lora_driver_with_network.Radio.Utils.Scan.{get_op_mode-asked}

-- Reads succeed, whatever they give.
abbrev pub AllRead : SpiPort → Type 0
AllRead port =
    (reg : ℕ) (buffer : List ℕ) (len : ℕ) (h : _)
    → (port.reader port.spi_handle reg buffer len h).0 ≡ sx_ok

-- The radio tuned to a channel, after the delay for the measurement.
abbrev pub settled : ℕ → Radio → Radio
settled i s =
    let t = tuned (frf s.lora_bandwidth_hz i) s in record t { history = delayed 20 ∷ t.history }

-- What the radio answers then.
abbrev pub level : ℕ → Radio → ℕ
level i s =
    get_or (s.spi_port.reader s.spi_port.spi_handle 0x11 (0 ∷ []) 1 (settled i s).history).1 0 0

-- The levels of so many channels from channel `i` on, and the radio after them.
abbrev pub levels : ℕ → ℕ → Radio → List ℕ
levels zero i s = []
levels (suc n) i s = level i s ∷ levels n (i + 1) (asked 0x11 1 (settled i s))

abbrev pub scanned : ℕ → ℕ → Radio → Radio
scanned zero i s = s
scanned (suc n) i s = scanned n (i + 1) (asked 0x11 1 (settled i s))

set_next :
    (xs ys : List (Option ℕ)) (v : Option ℕ)
    → set (xs ++ none ∷ ys) (length xs) v ≡ (xs ++ v ∷ []) ++ ys
set_next [] ys v = refl
set_next (x ∷ xs) ys v = ap (λ (l : List (Option ℕ)). x ∷ l) (set_next xs ys v)

scan_round :
    (channel_n n i : ℕ) (rssi : List (Option ℕ)) (s : Radio)
    → Accepts s.spi_port
    → AllRead s.spi_port
    → i < channels_of s.lora_bandwidth_hz
    → scan_rounds channel_n (suc n) i rssi s
      ≡ scan_rounds channel_n n (i + 1) (set rssi i (some (level i s))) (asked 0x11 1 (settled i s))
unfolding scan_rounds delay_ms
scan_round channel_n n i rssi s a reads room =
    simp (sx_1278_switch_to_nth_channel-tuned, read_byte-asked, a.is_initialized, reads)

scan_rounds-levels :
    (channel_n n i : ℕ) (done : List (Option ℕ)) (s : Radio)
    → Accepts s.spi_port
    → AllRead s.spi_port
    → i + n ≤ channels_of s.lora_bandwidth_hz
    → length done ≡ i
    → scan_rounds channel_n n i (done ++ replicate n none) s
      ≡ (done ++ map some (levels n i s), scanned n i s)
unfolding scan_rounds
scan_rounds-levels channel_n zero i done s a reads room e = refl
scan_rounds-levels channel_n (suc n) i done s a reads room e =
    let next = asked 0x11 1 (settled i s) in
    let v = some (level i s) in
    let filled : set (done ++ none ∷ replicate n none) i v ≡ (done ++ v ∷ []) ++ replicate n none =
      ap (λ k. set (done ++ none ∷ replicate n none) k v) (sym e)
      ∙ set_next done (replicate n none) v in
    scan_round channel_n n i (done ++ none ∷ replicate n none) s a reads (omega arith)
    ∙ ap (λ l. scan_rounds channel_n n (i + 1) l next) filled
    ∙ scan_rounds-levels channel_n n (i + 1) (done ++ v ∷ []) next a reads (omega arith)
        (omega (arith, length-append done (v ∷ []), e))
    ∙ ap (λ l. (l, scanned n (i + 1) next))
        (append_assoc done (v ∷ []) (map some (levels n (i + 1) next)))

scanned_port : (n i : ℕ) (s : Radio) → (scanned n i s).spi_port ≡ s.spi_port
scanned_port zero i s = refl
scanned_port (suc n) i s = scanned_port n (i + 1) (asked 0x11 1 (settled i s))

-- The radio in FSK mode and receiving, when the scan begins.
abbrev pub receiving : Radio → Radio
receiving s =
    wrote 0x01 (0x05 ∷ []) (asked 0x01 1 (wrote 0x01 (0x00 ∷ []) (wrote 0x01 (0x80 ∷ []) s)))

==-zero : (m : ℕ) → m < 128 → (m / 128 == 0) ≡ true
==-zero m h = ground arith

switch_to_fsk_ok :
    (s : Radio)
    → Accepts s.spi_port
    → AllRead s.spi_port
    → get_or
        (s.spi_port.reader s.spi_port.spi_handle 0x01
          (0 ∷ [])
          1
          (wrote 0x01 (0x00 ∷ []) (wrote 0x01 (0x80 ∷ []) s)).history).1
        0
        0
      < 128
    → switch_to_fsk s ≡ (sx_ok, asked 0x01 1 (wrote 0x01 (0x00 ∷ []) (wrote 0x01 (0x80 ∷ []) s)))
unfolding switch_to_fsk
switch_to_fsk_ok s a reads low = simp (accepted, get_op_mode-asked, reads, ==-zero _ low)

-- With a port that accepts writes and whose reads succeed, and a radio that leaves LoRa mode: the scan
-- returns SX_OK and one level for each channel of the bandwidth. The level of a channel is
-- what the radio answers while it is tuned to that channel, after the delay for the measurement.
pub sx_1278_get_channel_rssis-levels :
    (s : Radio)
    → Accepts s.spi_port
    → AllRead s.spi_port
    → get_or
        (s.spi_port.reader s.spi_port.spi_handle 0x01
          (0 ∷ [])
          1
          (wrote 0x01 (0x00 ∷ []) (wrote 0x01 (0x80 ∷ []) s)).history).1
        0
        0
      < 128
    → let n = channels_of s.lora_bandwidth_hz in
      sx_1278_get_channel_rssis s ≡ (
        (sx_ok, some (map some (levels n 0 (receiving s)), n)),
        wrote 0x01 (0x80 ∷ []) (scanned n 0 (receiving s)),
      )
unfolding sx_1278_get_channel_rssis calculate_channel_num after_scan
sx_1278_get_channel_rssis-levels s a reads low =
    let n = channels_of s.lora_bandwidth_hz in
    let scan = scan_rounds-levels n n 0 [] (receiving s) a reads (omega arith) refl in
    let back : Accepts (scanned n 0 (receiving s)).spi_port =
      subst (λ p. Accepts p) (sym (scanned_port n 0 (receiving s))) a in
    simp (switch_to_fsk_ok, low, accepted, scan)
