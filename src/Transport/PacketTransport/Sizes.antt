-- ===== src/Transport/PacketTransport/Sizes.antt =====
-- crates/transport/src/packet_transport.rs: no packet that is sent is larger than the MTU.
use rsticulum.Prelude.{
  ℕ, zero, suc, ◌+◌, ◌%◌, ◌^◌, ◌≤◌, ◌≡◌, arith, inl, inr, List, [], ◌∷◌, ◌++◌, Bytes, length,
  length-append, length-take, drop, leb, leb→le, ◌==◌, to_be_bytes, length-to_be_bytes, ok,
  Bool-cases, All,
}
use mathlib.Core.Path.{subst}
use rsticulum.Identity.RnsAddress.{RnsAddress}
use rsticulum.Packet.{Packet, new_data, to_bytes}
use rsticulum.Transport.Resource.{chunks}
use rsticulum.Transport.PacketTransport.{
  PacketTransport, fragment_packet, number_fragments, fragments_of, fragment_count, max_payload,
  send_packet,
}

chunks-short :
    (rounds size : ℕ) (bs : Bytes) → All (λ (c : Bytes). length c ≤ size) (chunks rounds size bs)
unfolding chunks
chunks-short zero size bs = tt
chunks-short (suc rounds) size [] = tt
chunks-short (suc rounds) size (b ∷ bs) =
    (omega (arith, length-take size (b ∷ bs)), chunks-short rounds size (drop size (b ∷ bs)))

module _ (destination : RnsAddress) (whole : length destination.bytes ≡ 16) where
  length-to_bytes_data :
      (payload : Bytes) → length (to_bytes (new_data destination payload)) ≡ 19 + length payload
  unfolding to_bytes new_data
  length-to_bytes_data payload = omega (arith, whole, length-append destination.bytes (0 ∷ payload))

  length-to_bytes_fragment :
      (id n i : ℕ) (chunk : Bytes)
      → length (to_bytes (fragment_packet destination id n i chunk)) ≡ 31 + length chunk
  unfolding to_bytes new_data fragment_packet
  length-to_bytes_fragment id n i chunk =
      let a = to_be_bytes 8 id in
      let b = to_be_bytes 2 (i % 2 ^ 16) in
      let c = to_be_bytes 2 n in
      omega (
        arith,
        whole,
        length-append destination.bytes (1 ∷ (a ++ (b ++ (c ++ chunk)))),
        length-append a (b ++ (c ++ chunk)),
        length-append b (c ++ chunk),
        length-append c chunk,
        length-to_be_bytes 8 id,
        length-to_be_bytes 2 (i % 2 ^ 16),
        length-to_be_bytes 2 n,
      )

  fragments-small :
      (id n i size : ℕ) (cs : List Bytes)
      → All (λ (c : Bytes). length c ≤ size) cs
      → All
          (λ (p : Packet). length (to_bytes p) ≤ 31 + size)
          (number_fragments destination id n i cs)
  unfolding number_fragments
  fragments-small id n i size [] short = tt
  fragments-small id n i size (c ∷ cs) (first, short) =
      (omega (arith, length-to_bytes_fragment id n i c), fragments-small id n (i + 1) size cs short)

All_below :
    (a b : ℕ) (ps : List Packet)
    → a ≤ b
    → All (λ (p : Packet). length (to_bytes p) ≤ a) ps
    → All (λ (p : Packet). length (to_bytes p) ≤ b) ps
All_below a b [] h small = tt
All_below a b (p ∷ ps) h (first, small) = (omega arith, All_below a b ps h small)

-- With an MTU of 35 or more and a destination of 16 bytes, every packet that a message is sent in,
-- alone or as a fragment, takes no more bytes on the wire than the MTU.
pub send_packet-small :
    (t t' : PacketTransport) (destination : RnsAddress) (content : Bytes) (id : ℕ)
    (packets : List Packet)
    → 35 ≤ t.mtu
    → length destination.bytes ≡ 16
    → send_packet t destination content id ≡ (ok packets, t')
    → All (λ (p : Packet). length (to_bytes p) ≤ t.mtu) packets
unfolding send_packet
send_packet-small t t' destination content id packets wide whole sends =
    let size = max_payload t.mtu in
    elim (Bool-cases (leb (length content) size)) [
      | inl alone ↦
          let this : new_data destination content ∷ [] ≡ packets = cc (rw alone at sends) in
          subst (λ (ps : List Packet). All (λ (p : Packet). length (to_bytes p) ≤ t.mtu) ps) this
            (
              omega (
                arith,
                leb→le (length content) size alone,
                length-to_bytes_data destination whole content,
              ),
              tt,
            )
      | inr large ↦ elim (Bool-cases (size == 0)) [
        | inl nothing ↦ cc (rw (large, nothing) at sends)
        | inr some_room ↦
            let these : fragments_of destination id size content ≡ packets =
              cc (rw (large, some_room) at sends) in
            subst (λ (ps : List Packet). All (λ (p : Packet). length (to_bytes p) ≤ t.mtu) ps) these
              (All_below (31 + size) t.mtu _ (omega arith) (
                fragments-small destination whole id (fragment_count size content) 0 size
                  (chunks (length content) size content)
                  (chunks-short (length content) size content)))
      ]
    ]
