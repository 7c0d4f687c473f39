-- ===== src/Radio/Utils/Described.antt =====
-- The two ways through the calls of `packet_description` in src/sx127x_utils.c.
use lora_driver_with_network.Prelude.{◌≤◌, ◌<◌, ◌≡◌, refl, Option, inl, inr, arith}
use lora_driver_with_network.Packet.{Packet, payload_length_max}
use lora_driver_with_network.Packet.Description.{packet_description_bounds}
use lora_driver_with_network.Radio.{Io, overrun}
use lora_driver_with_network.Radio.Utils.{describe}

pub describe-cases :
    {A : Type 0} (P : Io (Option A) → Type 0) (p : Packet) (k : Io (Option A))
    → (p.payload_length ≤ payload_length_max → P k)
    → (payload_length_max < p.payload_length → P (overrun p.payload_length))
    → P (describe p k)
unfolding describe
describe-cases P p k fits over = elim (packet_description_bounds p) [
  | inl (small, d, e, _) ↦ rw e (fits small)
  | inr (large, e) ↦ rw e (over large)
]

pub describe_fits :
    {A : Type 0} (p : Packet) (k : Io (Option A))
    → p.payload_length ≤ payload_length_max
    → describe p k ≡ k
describe_fits p k small =
    describe-cases (λ m. m ≡ k) p k (λ _. refl) (λ large. absurd (omega (arith, small, large)))
