-- ===== src/Transport/PacketTransport/Delivery.antt =====
-- crates/transport/src/packet_transport.rs: a message from one transport to another.
use rsticulum.Prelude.{
  ℕ, zero, suc, ◌+◌, ◌-◌, ◌/◌, ◌%◌, ◌^◌, ◌<◌, ◌≡◌, refl, sym, ap, ◌∙◌, arith, false, true, ◌||◌,
  none, some, List, [], ◌∷◌, Bytes, length, get_elem?, ◌==◌, ==_ne, leb_of_lt, ok, get, number_keys,
  All,
}
use mathlib.Core.Path.{subst}
use rsticulum.Identity.RnsAddress.{RnsAddress}
use rsticulum.Packet.{Packet}
use rsticulum.Transport.Resource.{chunks}
use rsticulum.Transport.Resource.Chunks.{joined-chunks, length-chunks}
use rsticulum.Transport.PacketTransport.{
  PacketTransport, number_fragments, fragments_of, max_payload, send_packet, recv_packet, queue,
}
use rsticulum.Transport.PacketTransport.Arrivals.{arrived, arrive_each}
use rsticulum.Transport.PacketTransport.Reassembly.{recv_packet-last}

elem_bound : {A : Type 0} (xs : List A) (i : ℕ) (x : A) → get_elem? xs i ≡ some x → i < length xs
elem_bound [] i x h = cc
elem_bound (y ∷ xs) zero x h = omega arith
elem_bound (y ∷ xs) (suc i) x h = omega (arith, elem_bound xs i x h)

length-number_fragments :
    (destination : RnsAddress) (id n i : ℕ) (cs : List Bytes)
    → length (number_fragments destination id n i cs) ≡ length cs
unfolding number_fragments
length-number_fragments destination id n i [] = refl
length-number_fragments destination id n i (c ∷ cs) =
    ap suc (length-number_fragments destination id n (i + 1) cs)

-- What is sent of a message that is too large for a packet.
send_packet_large :
    (s : PacketTransport) (destination : RnsAddress) (content : Bytes) (id : ℕ)
    → 0 < max_payload s.mtu
    → max_payload s.mtu < length content
    → send_packet s destination content id ≡ (
      ok (fragments_of destination id (max_payload s.mtu) content),
      queue s (fragments_of destination id (max_payload s.mtu) content),
    )
unfolding send_packet
send_packet_large s destination content id pos large = rw (
  leb_of_lt (length content) (max_payload s.mtu) large,
  ==_ne (max_payload s.mtu) 0 (λ e. absurd (omega (arith, e, pos))),
)

-- A message that is too large for one packet, and needs less than 2^16, is cut into packets. They
-- reach another transport that has nothing under the message's id, in any order and some of them
-- more than once; whichever comes last of them for the first time is answered with the message.
pub recv_packet-send_packet :
    (s s' t : PacketTransport) (destination : RnsAddress) (content : Bytes) (id : ℕ)
    (packets : List Packet) (front : List ℕ) (last : ℕ) (packet : Packet)
    → id < 2 ^ 64
    → 0 < max_payload s.mtu
    → max_payload s.mtu < length content
    → (length content + max_payload s.mtu - 1) / max_payload s.mtu < 2 ^ 16
    → send_packet s destination content id ≡ (ok packets, s')
    → get id t.reassembly ≡ none
    → All (λ (i : ℕ). i < length packets) front
    → get_elem? packets last ≡ some packet
    → arrived last front ≡ false
    → ((i : ℕ) → i < length packets → (last == i || arrived i front) ≡ true)
    → (recv_packet (arrive_each t packets front) packet).0 ≡ ok (some content)
recv_packet-send_packet s s' t destination content id packets front last packet small pos large few
      sends unknown =
    let size = max_payload s.mtu in
    let cs = chunks (length content) size content in
    let count = length-chunks (length content) size content pos (omega arith) in
    let total : (length content + size - 1) / size % 2 ^ 16 ≡ length cs =
      omega (arith, count, few) in
    let these : number_fragments destination id (length cs) 0 cs ≡ packets =
      ap (λ (n : ℕ). number_fragments destination id n 0 cs) (sym total)
      ∙ cc (send_packet_large s destination content id pos large, sends) in
    subst
      (λ (ps : List Packet).
        All (λ (i : ℕ). i < length ps) front
        → get_elem? ps last ≡ some packet
        → arrived last front ≡ false
        → ((i : ℕ) → i < length ps → (last == i || arrived i front) ≡ true)
        → (recv_packet (arrive_each t ps front) packet).0 ≡ ok (some content))
      these
      (λ inside it absent all.
        let n_is = length-number_fragments destination id (length cs) 0 cs in
        recv_packet-last destination id cs small (omega (arith, count, few)) t front last packet
          unknown (subst (λ (n : ℕ). All (λ (i : ℕ). i < n) front) n_is inside)
          (omega (arith, n_is, elem_bound _ last packet it)) it absent
          (λ i inside'. all i (omega (arith, n_is, inside')))
        ∙ ap (λ (m : Bytes). ok (some m))
            (joined-chunks (length content) size content pos (omega arith)))
