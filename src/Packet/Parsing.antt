-- ===== src/Packet/Parsing.antt =====
-- `from_bytes` on arbitrary input: which inputs it accepts, and what it returns.
use mathlib.Core.Path.{subst}
use rsticulum.Prelude.{
  ℕ, ◌≤◌, ◌<◌, ◌≡◌, ◌≢◌, inl, inr, refl, sym, ap, ◌∙◌, arith, Option, none, some, [], ◌∷◌, ◌++◌,
  length, take, drop, length-take, length-drop, take-append-drop, Bytes, IsByte, AllBytes, index,
  ltb, ◌==◌, if◌then◌else◌, ok, err, ok≢err, ok-injective, ltb→lt, Bool-cases,
}
use rsticulum.Packet.{
  Packet, PacketError, header_2, header_minsize, header_maxsize, too_short, header_1_too_short,
  header_2_too_short, hash_length, flags_of, to_bytes, from_bytes, read_transport_id, unpack_flags,
}
use rsticulum.Packet.Codec.{
  HasTransport, IsValid, packet_of, from_bytes-header_1, from_bytes-header_2,
}
use rsticulum.Packet.Flags.{pack_flags-unpack_flags, unpack_flags_lem}

-- What a long enough input is made of.
cut_body :
    (bs : Bytes)
    → 17 ≤ length bs
    → (dest : Bytes) × (context : ℕ) × (payload : Bytes) × (length dest ≡ 16)
      × (bs ≡ dest ++ (context ∷ payload))
cut_body bs h = go (drop 16 bs) refl
  where
    go :
        (rest : Bytes)
        → drop 16 bs ≡ rest
        → (dest : Bytes) × (context : ℕ) × (payload : Bytes) × (length dest ≡ 16)
          × (bs ≡ dest ++ (context ∷ payload))
    go [] e = absurd (omega (arith, length-drop 16 bs, ap length e))
    go (context ∷ payload) e = (
      take 16 bs,
      context,
      payload,
      omega (arith, length-take 16 bs),
      sym (take-append-drop 16 bs) ∙ rw e,
    )

-- `p` is what `from_bytes` returns on `bs`, and `bs` is its wire form.
record Parses (bs : Bytes) (p : Packet) : Type 0 where
  accepted : from_bytes bs ≡ ok p
  valid : IsValid p
  printed : to_bytes p ≡ bs

abbrev Accepts : Bytes → Type 0
Accepts bs = (p : Packet) × Parses bs p

fields-IsValid :
    (flags hops : ℕ) (transport_id : Option Bytes) (dest : Bytes) (context : ℕ) (payload : Bytes)
    → IsByte flags
    → length dest ≡ hash_length
    → HasTransport (unpack_flags flags).0 transport_id
    → IsValid (packet_of flags hops transport_id dest context payload)
fields-IsValid flags hops transport_id dest context payload b l t = record {
  header_type_fits = rw (unpack_flags_lem flags b) (omega arith);
  context_flag_fits = rw (unpack_flags_lem flags b) (omega arith);
  transport_type_fits = rw (unpack_flags_lem flags b) (omega arith);
  destination_type_fits = rw (unpack_flags_lem flags b) (omega arith);
  packet_type_fits = rw (unpack_flags_lem flags b) (omega arith);
  destination_length = l;
  transport = t;
}

module _ (flags hops : ℕ) (b : IsByte flags) where
  Parses-header_1 :
      (dest : Bytes) (context : ℕ) (payload : Bytes)
      → length dest ≡ hash_length
      → (unpack_flags flags).0 ≢ header_2
      → Accepts (flags ∷ hops ∷ (dest ++ (context ∷ payload)))
  unfolding to_bytes flags_of
  Parses-header_1 dest context payload l h = (
    packet_of flags hops none dest context payload,
    record {
      accepted = from_bytes-header_1 flags hops dest l context payload h;
      valid = fields-IsValid flags hops none dest context payload b l h;
      printed = ground (arith, pack_flags-unpack_flags flags b);
    },
  )

  Parses-header_2 :
      (tid dest : Bytes) (context : ℕ) (payload : Bytes)
      → length tid ≡ hash_length
      → length dest ≡ hash_length
      → (unpack_flags flags).0 ≡ header_2
      → Accepts (flags ∷ hops ∷ (tid ++ (dest ++ (context ∷ payload))))
  unfolding to_bytes flags_of
  Parses-header_2 tid dest context payload k l h = (
    packet_of flags hops (some tid) dest context payload,
    record {
      accepted = from_bytes-header_2 flags hops dest l context payload tid k h;
      valid = fields-IsValid flags hops (some tid) dest context payload b l (h, k);
      printed = ground (arith, pack_flags-unpack_flags flags b);
    },
  )

  Accepts-header_1 :
      (rest : Bytes)
      → (unpack_flags flags).0 ≢ header_2
      → 17 ≤ length rest
      → Accepts (flags ∷ hops ∷ rest)
  Accepts-header_1 rest h l =
      let (dest, context, payload, dl, e) = cut_body rest l in
      subst (λ r. Accepts (flags ∷ hops ∷ r)) (sym e) (Parses-header_1 dest context payload dl h)

  Accepts-header_2 :
      (rest : Bytes)
      → (unpack_flags flags).0 ≡ header_2
      → 33 ≤ length rest
      → Accepts (flags ∷ hops ∷ rest)
  Accepts-header_2 rest h l =
      let (dest, context, payload, dl, e) =
        cut_body (drop 16 rest) (omega (arith, length-drop 16 rest)) in
      subst (λ r. Accepts (flags ∷ hops ∷ r))
        (ap (λ r. take 16 rest ++ r) (sym e) ∙ take-append-drop 16 rest)
        (Parses-header_2 (take 16 rest) dest context payload (omega (arith, length-take 16 rest)) dl
          h)

-- The bytes that a header of this type takes: 35 for HEADER_2, 19 for every other type.
abbrev pub header_size : Bytes → ℕ
header_size [] = 3
header_size (flags ∷ _) =
    if (unpack_flags flags).0 == header_2 then header_maxsize else header_minsize

from_bytes-Accepts : (bs : Bytes) → AllBytes bs → header_size bs ≤ length bs → Accepts bs
from_bytes-Accepts [] b h = absurd (omega arith)
from_bytes-Accepts (flags ∷ []) b h = absurd (ground arith)
from_bytes-Accepts (flags ∷ hops ∷ rest) b h =
    elim (Bool-cases ((unpack_flags flags).0 == header_2)) [
      | inl two ↦ Accepts-header_2 flags hops b.0 rest (ground arith) (ground arith)
      | inr one ↦ Accepts-header_1 flags hops b.0 rest (ground arith) (ground arith)
    ]

from_bytes_short :
    (bs : Bytes) → length bs < header_size bs → (e : PacketError) × (from_bytes bs ≡ err e)
unfolding from_bytes read_transport_id index
from_bytes_short [] h = (too_short, refl)
from_bytes_short (flags ∷ []) h = (too_short, refl)
from_bytes_short (flags ∷ hops ∷ []) h = (too_short, refl)
from_bytes_short (flags ∷ hops ∷ x ∷ rest) h =
    elim (Bool-cases ((unpack_flags flags).0 == header_2)) [
      | inl two ↦ (header_2_too_short, ground arith)
      | inr one ↦ (header_1_too_short, ground arith)
    ]

-- On every input of bytes the parser returns and never panics: a packet exactly if the input is at
-- least as long as the header that its first byte announces, and an error otherwise.
pub from_bytes_total :
    (bs : Bytes)
    → AllBytes bs
    → (header_size bs ≤ length bs → (p : Packet) × (from_bytes bs ≡ ok p))
      × (length bs < header_size bs → (e : PacketError) × (from_bytes bs ≡ err e))
from_bytes_total bs b =
    (λ h. let (p, parses) = from_bytes-Accepts bs b h in (p, parses.accepted), from_bytes_short bs)

-- Whatever the parser accepts is a valid packet, and prints back to the very input: no two inputs
-- are read as one packet.
pub to_bytes-from_bytes :
    (bs : Bytes) (p : Packet) → AllBytes bs → from_bytes bs ≡ ok p → (to_bytes p ≡ bs) × IsValid p
to_bytes-from_bytes bs p b h = elim (Bool-cases (ltb (length bs) (header_size bs))) [
  | inl short ↦
      let (e, refused) = from_bytes_short bs (ltb→lt _ _ short) in absurd (ok≢err (sym h ∙ refused))
  | inr long ↦
      let (q, parses) = from_bytes-Accepts bs b (ground arith) in
      rw (ok-injective (sym h ∙ parses.accepted)) (parses.printed, parses.valid)
]
