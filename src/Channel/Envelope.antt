-- ===== src/Channel/Envelope.antt =====
-- crates/channel/src/message.rs: the envelope of a channel message, a type (2 bytes), a sequence
-- number (4 bytes) and the payload, numbers with the high byte first.
use rsticulum.Prelude.{
  ℕ, ◌+◌, ◌*◌, ◌/◌, ◌%◌, ◌^◌, ◌<◌, ◌≡◌, arith, ◌∷◌, Bytes, AllBytes, length, Result, ok, err,
}

abbrev pub envelope_header_len : ℕ
envelope_header_len = 6

pub data EnvelopeError : Type 0 where
  too_short : ℕ → EnvelopeError

pub data SystemMessageType : Type 0 where
  smt_channel_data smt_stream_data : SystemMessageType

-- `as u16`
abbrev pub code_of : SystemMessageType → ℕ
code_of smt_channel_data = 0
code_of smt_stream_data = 0xFF00

pub record ChannelEnvelope : Type 0 where
  pub message_type : ℕ
  pub sequence_number : ℕ
  pub payload : Bytes

-- The fields as the machine integers that they are.
pub record InRange (e : ChannelEnvelope) : Type 0 where
  pub message_type_bound : e.message_type < 2 ^ 16
  pub sequence_number_bound : e.sequence_number < 2 ^ 32

-- `to_be_bytes` of a `u16` and of a `u32`, before the bytes that follow.
abbrev pub u16_be : ℕ → Bytes → Bytes
u16_be n rest = n / 256 ∷ n % 256 ∷ rest

abbrev pub u32_be : ℕ → Bytes → Bytes
u32_be n rest = n / 16777216 ∷ n / 65536 % 256 ∷ n / 256 % 256 ∷ n % 256 ∷ rest

unfoldable pub pack : ChannelEnvelope → Bytes
pack e = u16_be e.message_type (u32_be e.sequence_number e.payload)

-- The indexing by clauses: every list of six bytes or more has the last form.
unfoldable pub unpack : Bytes → Result EnvelopeError ChannelEnvelope
unpack (a ∷ b ∷ c ∷ d ∷ e ∷ f ∷ payload) = ok (record {
  message_type = a * 256 + b;
  sequence_number = ((c * 256 + d) * 256 + e) * 256 + f;
  payload = payload;
})
unpack bs = err (too_short (length bs))

-- An envelope is read back from its wire form, for every type and sequence number of their widths.
pub unpack-pack : (e : ChannelEnvelope) → InRange e → unpack (pack e) ≡ ok e
unfolding unpack pack
unpack-pack e h = ground (arith, h.message_type_bound, h.sequence_number_bound)

pub length-pack : (e : ChannelEnvelope) → length (pack e) ≡ envelope_header_len + length e.payload
unfolding pack
length-pack e = omega arith

-- What is accepted is at least a header long and packs to the very bytes that were read.
pub pack-unpack :
    (bs : Bytes) (e : ChannelEnvelope)
    → AllBytes bs
    → unpack bs ≡ ok e
    → (InRange e) × (pack e ≡ bs)
unfolding unpack pack
pack-unpack (a ∷ b ∷ c ∷ d ∷ x ∷ f ∷ payload) e h eq = ground arith
pack-unpack bs e h eq = cc
