-- ===== src/Transport/PacketTransport/Arrivals.antt =====
-- crates/transport/src/packet_transport.rs: the packets of one message, as the network delivers them.
use rsticulum.Prelude.{
  ℕ, zero, suc, ◌+◌, ◌<◌, ◌≡◌, refl, ap, ◌∙◌, arith, Bool, false, ◌||◌, Option, none, some, List,
  [], ◌∷◌, Bytes, length, get_elem?, ◌==◌,
}
use rsticulum.Identity.RnsAddress.{RnsAddress}
use rsticulum.Packet.{Packet}
use rsticulum.Transport.PacketTransport.{
  PacketTransport, fragment_packet, number_fragments, recv_packet,
}

-- Whether an index is in a list.
abbrev pub arrived : ℕ → List ℕ → Bool
arrived j [] = false
arrived j (i ∷ is) = i == j || arrived j is

-- The packet at an index of what was sent arrives.
abbrev pub arrive : PacketTransport → Option Packet → PacketTransport
arrive t none = t
arrive t (some packet) = (recv_packet t packet).1

unfoldable pub arrive_each : PacketTransport → List Packet → List ℕ → PacketTransport
arrive_each t sent [] = t
arrive_each t sent (i ∷ is) = arrive_each (arrive t (get_elem? sent i)) sent is

pub elem_below :
    {A : Type 0} (xs : List A) (i : ℕ) → i < length xs → (x : A) × (get_elem? xs i ≡ some x)
elem_below [] i h = absurd (omega arith)
elem_below (x ∷ xs) zero h = (x, refl)
elem_below (x ∷ xs) (suc i) h = elem_below xs i (omega arith)

pub elem-number_fragments :
    (destination : RnsAddress) (id n k : ℕ) (cs : List Bytes) (i : ℕ) (c : Bytes)
    → get_elem? cs i ≡ some c
    → get_elem? (number_fragments destination id n k cs) i
      ≡ some (fragment_packet destination id n (k + i) c)
unfolding number_fragments
elem-number_fragments destination id n k [] i c h = cc
elem-number_fragments destination id n k (x ∷ cs) zero c h =
    let at : k ≡ k + 0 = omega arith in let e : x ≡ c = cc in ap some (rw (e, ← at) refl)
elem-number_fragments destination id n k (x ∷ cs) (suc i) c h =
    let at : k + 1 + i ≡ k + suc i = omega arith in
    elem-number_fragments destination id n (k + 1) cs i c h
    ∙ ap (λ (m : ℕ). some (fragment_packet destination id n m c)) at
