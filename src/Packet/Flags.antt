-- ===== src/Packet/Flags.antt =====
-- The flags byte of a packet: `pack_flags` and `unpack_flags`.
use rsticulum.Prelude.{
  ℕ, ◌+◌, ◌*◌, ◌/◌, ◌%◌, ◌<◌, ◌≡◌, refl, ◌∙◌, true, arith, bit_or, bit_and_mask, holds_below,
  holds_below_sound, ◌==◌, ==_iff,
}
use rsticulum.Packet.{pack_flags, unpack_flags, shl8}

-- The five fields of one byte, put together by `|`.
abbrev joined : ℕ → ℕ
joined n =
    bit_or
      (bit_or (bit_or (bit_or (shl8 (n / 64) 6) (shl8 (n / 32 % 2) 5)) (shl8 (n / 16 % 2) 4))
        (shl8 (n / 4 % 4) 2))
      (n % 4)

joined_table : holds_below (λ n. joined n == n) 256 ≡ true
unfolding holds_below
joined_table = refl

joined_lem : (n : ℕ) → n < 256 → joined n ≡ n
joined_lem n h = (==_iff _ n).0 (holds_below_sound (λ n. joined n == n) 256 n h joined_table)

module _ (header_type context_flag transport_type destination_type packet_type : ℕ) where
  abbrev sum : ℕ
  sum =
      header_type % 4 * 64
      + context_flag % 2 * 32
      + transport_type % 2 * 16
      + destination_type % 4 * 4
      + packet_type % 4

  sum-lt : sum < 256
  sum-lt = omega arith

  pack_flags-sum :
      pack_flags header_type context_flag transport_type destination_type packet_type ≡ sum
  unfolding pack_flags
  pack_flags-sum = ground (
    arith,
    joined_lem sum sum-lt,
    bit_and_mask 2 header_type,
    bit_and_mask 1 context_flag,
    bit_and_mask 1 transport_type,
    bit_and_mask 2 destination_type,
    bit_and_mask 2 packet_type,
  )

  -- Unpacking a packed flags byte returns every field cut to its width: two bits for the header,
  -- destination and packet types, one bit for the context flag and the transport type.
  pub unpack_flags-pack_flags :
      unpack_flags (pack_flags header_type context_flag transport_type destination_type packet_type)
      ≡ (
        header_type % 4,
        context_flag % 2,
        transport_type % 2,
        destination_type % 4,
        packet_type % 4,
      )
  unfolding unpack_flags
  unpack_flags-pack_flags = rw pack_flags-sum (
      ground (
        arith,
        bit_and_mask 2 (sum / 64),
        bit_and_mask 1 (sum / 32),
        bit_and_mask 1 (sum / 16),
        bit_and_mask 2 (sum / 4),
        bit_and_mask 2 sum,
      ))

-- `pack_flags` on the tuple that `unpack_flags` returns.
abbrev pub repack : ℕ × ℕ × ℕ × ℕ × ℕ → ℕ
repack (header_type, context_flag, transport_type, destination_type, packet_type) =
    pack_flags header_type context_flag transport_type destination_type packet_type

pub unpack_flags_lem :
    (flags : ℕ)
    → flags < 256
    → unpack_flags flags ≡ (flags / 64, flags / 32 % 2, flags / 16 % 2, flags / 4 % 4, flags % 4)
unfolding unpack_flags
unpack_flags_lem flags h = ground (
  arith,
  bit_and_mask 2 (flags / 64),
  bit_and_mask 1 (flags / 32),
  bit_and_mask 1 (flags / 16),
  bit_and_mask 2 (flags / 4),
  bit_and_mask 2 flags,
)

-- Packing what was unpacked from a byte returns the byte: no bit of the flags byte is lost.
pub pack_flags-unpack_flags : (flags : ℕ) → flags < 256 → repack (unpack_flags flags) ≡ flags
pack_flags-unpack_flags flags h = rw (unpack_flags_lem flags h) (
    pack_flags-sum (flags / 64) (flags / 32 % 2) (flags / 16 % 2) (flags / 4 % 4) (flags % 4)
    ∙ omega arith)
