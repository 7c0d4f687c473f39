-- ===== src/Radio/Utils/Scan.antt =====
-- The scan of the channels: `sx_1278_get_channel_rssis` of src/sx127x_utils.c.
use lora_driver_with_network.Prelude.{
  ℕ, zero, suc, arith, ◌+◌, ◌/◌, ◌≡◌, ◌≢◌, ◌≤◌, ◌∙◌, subst, Option, none, some, List, [], ◌∷◌,
  length, length-set, length-replicate, set, replicate, ==-false, get_or,
}
use lora_driver_with_network.Platform.{SxErr, sx_ok}
use lora_driver_with_network.Radio.{Radio, ◌>>=◌}
use lora_driver_with_network.Radio.Trace.{Accepts, wrote, asked, accepted, read_byte-asked}
use lora_driver_with_network.Radio.Cases.{Yields, Ensures, Ensures-bind, cases}
use lora_driver_with_network.Radio.Config.{sx_1278_get_op_mode}
use lora_driver_with_network.Radio.Utils.{
  switch_to_fsk, scan_rounds, after_scan, sx_1278_get_channel_rssis,
}

scan_rounds-length :
    (channel_n n i : ℕ) (rssi : List (Option ℕ)) (k : ℕ)
    → length rssi ≡ k
    → Ensures (λ (l : List (Option ℕ)). length l ≡ k) (scan_rounds channel_n n i rssi)
unfolding scan_rounds
scan_rounds-length channel_n zero i rssi k h = search (cases, h)
scan_rounds-length channel_n (suc n) i rssi k h =
    let rest = scan_rounds-length channel_n n (i + 1) rssi k h in
    let written : (v : ℕ)
        → Ensures (λ (l : List (Option ℕ)). length l ≡ k)
            (scan_rounds channel_n n (i + 1) (set rssi i (some v))) =
      λ v.
        scan_rounds-length channel_n n (i + 1) (set rssi i (some v)) k
          (length-set rssi i (some v) ∙ h) in
    search (rest, written, cases) depth 30 fits 20000

pub get_op_mode-asked :
    (old : ℕ) (s : Radio)
    → Accepts s.spi_port
    → let r = s.spi_port.reader s.spi_port.spi_handle 0x01 (old ∷ []) 1 s.history in
      sx_1278_get_op_mode old s ≡ ((r.0, get_or r.1 0 old), asked 0x01 1 s)
unfolding sx_1278_get_op_mode
get_op_mode-asked old s a = read_byte-asked 0x01 old s a.is_initialized

-- A radio that stays in LoRa mode is not reported: with a port that accepts writes and answers that
-- the mode register still has its highest bit set, `switch_to_fsk` returns SX_OK.
pub switch_to_fsk_stuck :
    (s : Radio) (mode : ℕ)
    → Accepts s.spi_port
    → 128 ≤ mode
    → s.spi_port.reader s.spi_port.spi_handle 0x01
        (0 ∷ [])
        1
        (wrote 0x01 (0x00 ∷ []) (wrote 0x01 (0x80 ∷ []) s)).history
      ≡ (sx_ok, mode ∷ [])
    → (switch_to_fsk s).0 ≡ sx_ok
unfolding switch_to_fsk
switch_to_fsk_stuck s mode a high answer =
    let bit : mode / 128 ≢ 0 = λ e. omega arith in
    simp (accepted, get_op_mode-asked, answer, ==-false (mode / 128) 0 bit)

-- What is copied to the caller is as long as the count that it is given with.
abbrev pub Sized : Option (List (Option ℕ) × ℕ) → Type 0
Sized none = Unit
Sized (some (rssi, n)) = length rssi ≡ n

sized :
    (n : ℕ) → Ensures (λ (l : List (Option ℕ)). length l ≡ n) (scan_rounds n n 0 (replicate n none))
sized n = scan_rounds-length n n 0 (replicate n none) n (length-replicate n none)

after_scan-Sized :
    (n : ℕ) (rssi : List (Option ℕ))
    → length rssi ≡ n
    → Ensures (λ r. Sized r.1) (after_scan n rssi)
unfolding after_scan
after_scan-Sized n rssi h = search (cases, h) depth 20

-- Whatever the platform answers, the number of levels that the scan copies to the caller is the count
-- that it reports.
pub sx_1278_get_channel_rssis-Sized : (s : Radio) → Sized (sx_1278_get_channel_rssis s).0.1
unfolding sx_1278_get_channel_rssis Ensures Yields
sx_1278_get_channel_rssis-Sized s =
    let scan : (n : ℕ)
        → Ensures (λ (r : SxErr × Option (List (Option ℕ) × ℕ)). Sized r.1)
            (scan_rounds n n 0 (replicate n none) >>= after_scan n) =
      λ n.
        Ensures-bind (λ r. Sized r.1) (scan_rounds n n 0 (replicate n none)) (after_scan n)
          (λ rssi y.
            after_scan-Sized n rssi
              (subst (λ (l : List (Option ℕ)). length l ≡ n) y.1 (sized n y.0))) in
    let all : Ensures (λ (r : SxErr × Option (List (Option ℕ) × ℕ)). Sized r.1)
        sx_1278_get_channel_rssis =
      search (scan, cases) depth 30 in
    all s
