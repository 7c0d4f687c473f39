-- ===== src/Prelude/Memory.antt =====
-- Byte buffers: `memcpy` into a buffer at an offset, and the wrap of the fixed-width integers.
use Prim.Native.Nat.{ℕ, zero, suc, ◌+◌, ◌%◌, ◌≤◌}
use mathlib.Core.Path.{◌≡◌, refl, ap}
use mathlib.Core.List.{List, [], ◌∷◌, ◌++◌}
use native.Mathlib.Omega.{arith}
use lora_driver_with_network.Prelude.Lists.{length, take, drop}

-- Conversion to `uint8_t`, `uint16_t` and `uint32_t`.
abbrev pub u8 : ℕ → ℕ
u8 n = n % 256

abbrev pub u16 : ℕ → ℕ
u16 n = n % 65536

abbrev pub u32 : ℕ → ℕ
u32 n = n % 4294967296

-- `memcpy(&buf[i], bytes, length bytes)`; what would be written past the end of `buf` is dropped.
unfoldable pub store_bytes : List ℕ → ℕ → List ℕ → List ℕ
store_bytes [] i bytes = []
store_bytes (x ∷ buf) zero [] = x ∷ buf
store_bytes (x ∷ buf) zero (b ∷ bytes) = b ∷ store_bytes buf zero bytes
store_bytes (x ∷ buf) (suc i) bytes = x ∷ store_bytes buf i bytes

pub length-store_bytes :
    (buf : List ℕ) (i : ℕ) (bytes : List ℕ) → length (store_bytes buf i bytes) ≡ length buf
unfolding store_bytes
length-store_bytes [] i bytes = refl
length-store_bytes (x ∷ buf) zero [] = refl
length-store_bytes (x ∷ buf) zero (b ∷ bytes) = ap suc (length-store_bytes buf zero bytes)
length-store_bytes (x ∷ buf) (suc i) bytes = ap suc (length-store_bytes buf i bytes)

-- A write that fits replaces just its own range.
pub store_bytes_lem :
    (buf : List ℕ) (i : ℕ) (bytes : List ℕ)
    → i + length bytes ≤ length buf
    → store_bytes buf i bytes ≡ take i buf ++ (bytes ++ drop (length bytes) (drop i buf))
unfolding store_bytes
store_bytes_lem [] zero [] h = refl
store_bytes_lem [] zero (b ∷ bytes) h = absurd (omega arith)
store_bytes_lem [] (suc i) bytes h = absurd (omega arith)
store_bytes_lem (x ∷ buf) zero [] h = refl
store_bytes_lem (x ∷ buf) zero (b ∷ bytes) h =
    ap (λ (l : List ℕ). b ∷ l) (store_bytes_lem buf zero bytes (omega arith))
store_bytes_lem (x ∷ buf) (suc i) bytes h =
    ap (λ (l : List ℕ). x ∷ l) (store_bytes_lem buf i bytes (omega arith))

-- A buffer that is filled from its start: what was written stays, and the next bytes follow it.
pub store_bytes-append :
    (done bytes rest : List ℕ)
    → length bytes ≤ length rest
    → store_bytes (done ++ rest) (length done) bytes ≡ (done ++ bytes) ++ drop (length bytes) rest
unfolding store_bytes
store_bytes-append [] bytes rest h = store_bytes_lem rest zero bytes (omega arith)
store_bytes-append (d ∷ done) bytes rest h =
    ap (λ (l : List ℕ). d ∷ l) (store_bytes-append done bytes rest h)

pub store_bytes-nil : (buf : List ℕ) → store_bytes buf 0 [] ≡ buf
unfolding store_bytes
store_bytes-nil [] = refl
store_bytes-nil (x ∷ buf) = refl
