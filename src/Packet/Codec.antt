-- ===== src/Packet/Codec.antt =====
-- The wire form of a packet: `from_bytes` after `to_bytes`.
use mathlib.Core.List.{append_assoc}
use rsticulum.Prelude.{
  ℕ, ◌+◌, ◌<◌, ◌≡◌, ◌≢◌, inl, inr, refl, ◌∙◌, arith, Option, none, some, [], ◌∷◌, ◌++◌, length,
  length-append, Bytes, index, slice-append, slice_from-append, index-append, ok, Option-cases,
}
use rsticulum.Packet.{
  Packet, PacketError, header_2, hash_length, flags_of, to_bytes, from_bytes, read_body,
  unpack_flags,
}
use rsticulum.Packet.Flags.{unpack_flags-pack_flags}

-- A transport id is there exactly in a HEADER_2 packet, and has its 16 bytes.
abbrev pub HasTransport : ℕ → Option Bytes → Type 0
HasTransport header_type none = header_type ≢ header_2
HasTransport header_type (some tid) = (header_type ≡ header_2) × (length tid ≡ hash_length)

-- Every field is in the range of its bits on the wire.
pub record IsValid (p : Packet) : Type 0 where
  pub header_type_fits : p.header_type < 4
  pub context_flag_fits : p.context_flag < 2
  pub transport_type_fits : p.transport_type < 2
  pub destination_type_fits : p.destination_type < 4
  pub packet_type_fits : p.packet_type < 4
  pub destination_length : length p.destination_hash ≡ hash_length
  pub transport : HasTransport p.header_type p.transport_id

unpack-flags_of :
    (p : Packet)
    → IsValid p
    → unpack_flags (flags_of p)
      ≡ (p.header_type, p.context_flag, p.transport_type, p.destination_type, p.packet_type)
unfolding flags_of
unpack-flags_of p v =
    unpack_flags-pack_flags p.header_type p.context_flag p.transport_type p.destination_type
      p.packet_type
    ∙ ground arith

-- The packet with these fields, in the order in which the wire has them.
abbrev pub packet_of : ℕ → ℕ → Option Bytes → Bytes → ℕ → Bytes → Packet
packet_of flags hops transport_id dest context payload = record {
  header_type = (unpack_flags flags).0;
  context_flag = (unpack_flags flags).1;
  transport_type = (unpack_flags flags).2;
  destination_type = (unpack_flags flags).3;
  packet_type = (unpack_flags flags).4;
  hops = hops;
  destination_hash = dest;
  transport_id = transport_id;
  context = context;
  payload = payload;
}

module _ (flags hops : ℕ) (dest : Bytes) (dest_length : length dest ≡ hash_length) (context : ℕ)
    (payload : Bytes) where
  read_body-append :
      (pre : Bytes) (transport_id : Option Bytes) (pos : ℕ)
      → length pre ≡ pos
      → read_body
          (unpack_flags flags)
          hops
          (pre ++ (dest ++ (context ∷ payload)))
          (transport_id, pos)
        ≡ ok (packet_of flags hops transport_id dest context payload)
  unfolding read_body
  read_body-append pre transport_id pos h =
      rw
        (
          slice-append pre dest (context ∷ payload) pos (pos + 16) h (omega arith),
          ← append_assoc pre dest (context ∷ payload),
          index-append (pre ++ dest) context payload (pos + 16)
              (omega (arith, length-append pre dest)),
        )
        (rw (← append_assoc (pre ++ dest) (context ∷ []) payload) (
          rw (
            slice_from-append ((pre ++ dest) ++ context ∷ []) payload (pos + 16 + 1)
              (omega (arith, length-append pre dest, length-append (pre ++ dest) (context ∷ []))))))

  pub from_bytes-header_1 :
      (unpack_flags flags).0 ≢ header_2
      → from_bytes (flags ∷ hops ∷ (dest ++ (context ∷ payload)))
        ≡ ok (packet_of flags hops none dest context payload)
  unfolding from_bytes index
  from_bytes-header_1 h = ground (
    arith,
    length-append dest (context ∷ payload),
    read_body-append (flags ∷ hops ∷ []) none 2 refl,
  )

  pub from_bytes-header_2 :
      (tid : Bytes)
      → length tid ≡ hash_length
      → (unpack_flags flags).0 ≡ header_2
      → from_bytes (flags ∷ hops ∷ (tid ++ (dest ++ (context ∷ payload))))
        ≡ ok (packet_of flags hops (some tid) dest context payload)
  unfolding from_bytes index
  from_bytes-header_2 tid l h = ground (
    arith,
    length-append tid (dest ++ (context ∷ payload)),
    length-append dest (context ∷ payload),
    slice-append {E = PacketError} (flags ∷ hops ∷ []) tid (dest ++ (context ∷ payload)) 2 18 refl,
    read_body-append (flags ∷ hops ∷ tid) (some tid) 18,
  )

packet_of-flags_of :
    (p : Packet)
    → IsValid p
    → packet_of (flags_of p) p.hops p.transport_id p.destination_hash p.context p.payload ≡ p
packet_of-flags_of p v = rw (unpack-flags_of p v)

-- A valid packet is read back from its wire form, field by field.
pub from_bytes-to_bytes : (p : Packet) → IsValid p → from_bytes (to_bytes p) ≡ ok p
unfolding to_bytes
from_bytes-to_bytes p v = elim (Option-cases p.transport_id) [
  | inl missing ↦ ground (
    arith,
    from_bytes-header_1 (flags_of p) p.hops p.destination_hash v.destination_length p.context
        p.payload,
    packet_of-flags_of p v,
    unpack-flags_of p v,
  )
  | inr (tid, present) ↦ ground (
    arith,
    from_bytes-header_2 (flags_of p) p.hops p.destination_hash v.destination_length p.context
        p.payload tid,
    packet_of-flags_of p v,
    unpack-flags_of p v,
  )
]
