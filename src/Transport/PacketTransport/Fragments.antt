-- ===== src/Transport/PacketTransport/Fragments.antt =====
-- crates/transport/src/packet_transport.rs: one fragment on the wire, and a full set put together.
use rsticulum.Prelude.{
  ℕ, zero, suc, ◌+◌, ◌%◌, ◌^◌, ◌<◌, ◌≤◌, ◌≡◌, refl, sym, ap, ◌∙◌, arith, true, some, List, [], ◌++◌,
  Bytes, length, length-append, drop, get_elem?, ltb_of_le, to_be_bytes, from-to_be_bytes,
  length-to_be_bytes, ok, slice, slice_from, slice-append, slice_from-append, get, remove,
  get-remove, number_keys, ==_iff, Option-cases, inl, inr,
}
use mathlib.Core.List.{append_assoc}
use rsticulum.Identity.RnsAddress.{RnsAddress}
use rsticulum.Packet.{new_data}
use rsticulum.Transport.Error.{TransportError}
use rsticulum.Transport.Resource.{is_received}
use rsticulum.Transport.Resource.Presence.{Received, drop_at, drop_end}
use rsticulum.Transport.Resource.Chunks.{joined}
use rsticulum.Transport.PacketTransport.{
  fragment_packet, read_fragment, assemble, recv_packet, gather, gather_if, PacketTransport,
}

-- The third of four parts.
slice_third :
    (a b c d : Bytes)
    → length a ≡ 8
    → length b ≡ 2
    → length c ≡ 2
    → slice {E = TransportError} (a ++ (b ++ (c ++ d))) 10 12 ≡ ok c
slice_third a b c d ha hb hc =
    ap (λ (x : Bytes). slice {E = TransportError} x 10 12) (sym (append_assoc a b (c ++ d)))
    ∙ slice-append (a ++ b) c d 10 12 (omega (arith, length-append a b)) (omega arith)

slice_fourth :
    (a b c d : Bytes)
    → length a ≡ 8
    → length b ≡ 2
    → length c ≡ 2
    → slice_from {E = TransportError} (a ++ (b ++ (c ++ d))) 12 ≡ ok d
slice_fourth a b c d ha hb hc =
    ap (λ (x : Bytes). slice_from {E = TransportError} x 12)
      (sym (append_assoc a b (c ++ d)) ∙ sym (append_assoc (a ++ b) c d))
    ∙ slice_from-append ((a ++ b) ++ c) d 12
        (omega (arith, length-append (a ++ b) c, length-append a b))

read_parts :
    (id i n : ℕ) (chunk : Bytes)
    → id < 2 ^ 64
    → i < 2 ^ 16
    → n < 2 ^ 16
    → read_fragment (to_be_bytes 8 id ++ (to_be_bytes 2 (i % 2 ^ 16) ++ (to_be_bytes 2 n ++ chunk)))
      ≡ ok (record { id = id; index = i; total = n; chunk = chunk })
unfolding read_fragment
read_parts id i n chunk hid hi hn =
    let a = to_be_bytes 8 id in
    let b = to_be_bytes 2 (i % 2 ^ 16) in
    let c = to_be_bytes 2 n in
    let la = length-to_be_bytes 8 id in
    let lb = length-to_be_bytes 2 (i % 2 ^ 16) in
    let lc = length-to_be_bytes 2 n in
    let long : 12 ≤ length (a ++ (b ++ (c ++ chunk))) = omega (
      arith,
      la,
      lb,
      lc,
      length-append a (b ++ (c ++ chunk)),
      length-append b (c ++ chunk),
      length-append c chunk,
    ) in
    let index_is : i % 2 ^ 16 ≡ i = omega (arith, hi) in
    rw (
      ltb_of_le (length (a ++ (b ++ (c ++ chunk)))) 12 long,
      slice-append {E = TransportError} [] a (b ++ (c ++ chunk)) 0 8 refl (omega (arith, la)),
      slice-append {E = TransportError} a b (c ++ chunk) 8 10 la (omega (arith, lb)),
      slice_third a b c chunk la lb lc,
      slice_fourth a b c chunk la lb lc,
      from-to_be_bytes 8 id (omega (arith, hid)),
      from-to_be_bytes 2 (i % 2 ^ 16) (omega arith),
      from-to_be_bytes 2 n (omega (arith, hn)),
      index_is,
    )

-- A fragment that arrives is gathered under its id, its index and its total.
pub recv_packet-fragment_packet :
    (t : PacketTransport) (destination : RnsAddress) (id i n : ℕ) (chunk : Bytes)
    → id < 2 ^ 64
    → i < 2 ^ 16
    → n < 2 ^ 16
    → recv_packet t (fragment_packet destination id n i chunk)
      ≡ gather t (record { id = id; index = i; total = n; chunk = chunk })
unfolding recv_packet fragment_packet new_data gather_if
recv_packet-fragment_packet t destination id i n chunk hid hi hn =
    ap (gather_if t) (read_parts id i n chunk hid hi hn)

-- With every fragment from `i` on there, the loop returns the chunks from there on in order.
pub assemble-full :
    (cs : List Bytes) (rounds i : ℕ) (m : Received Bytes)
    → rounds + i ≡ length cs
    → ((j : ℕ) (c : Bytes) → get j m ≡ some c → get_elem? cs j ≡ some c)
    → ((j : ℕ) → i ≤ j → j < length cs → is_received (get j m) ≡ true)
    → (assemble rounds i m).0 ≡ ok (joined (drop i cs))
unfolding assemble
assemble-full cs zero i m e agrees full = rw (drop_end cs i (omega arith))
assemble-full cs (suc rounds) i m e agrees full = elim (Option-cases (get i m)) [
  | inl absent ↦ absurd (ground (arith, full i))
  | inr (c, found) ↦
      let rest =
        assemble-full cs rounds (i + 1) (remove i m) (omega arith)
          (λ j c' h. ground (arith, get-remove j i m, agrees j c'))
          (λ j after below. ground (arith, get-remove j i m, full j, ==_iff i j)) in
      rw (found, drop_at cs i c (agrees i c found), rest)
]
