-- ===== src/Buffer/Message.antt =====
-- crates/buffer/src/lib.rs: the stream message, two flags and a 14-bit stream number in a header of
-- two bytes, high byte first.
use rsticulum.Prelude.{
  ℕ, ◌+◌, ◌-◌, ◌*◌, ◌/◌, ◌%◌, ◌^◌, ◌<◌, ◌≡◌, ap, ◌∙◌, arith, Bool, true, false, not, ◌∷◌, Bytes,
  ◌==◌, if◌then◌else◌, bit_and, bit_or, bit_and_mask, bit_and_split, bit_or_split, bit_and-zero,
  bit_or-zero, Result, ok, err,
}
use rsticulum.Channel.{ChannelError}

pub data BufferError : Type 0 where
  invalid_format : BufferError
  channel_error : ChannelError → BufferError
  stream_closed : BufferError

abbrev pub stream_id_max : ℕ
stream_id_max = 0x3FFF

abbrev pub flag_eof : ℕ
flag_eof = 0x8000

abbrev pub flag_compressed : ℕ
flag_compressed = 0x4000

abbrev pub stream_header_len : ℕ
stream_header_len = 2

pub record StreamDataMessage : Type 0 where
  pub stream_id : ℕ
  pub payload : Bytes
  pub eof : Bool
  pub compressed : Bool

unfoldable pub header_from : ℕ → Bool → Bool → ℕ
header_from stream_id eof compressed =
    let header = bit_and stream_id stream_id_max in
    let with_eof = if eof then bit_or header flag_eof else header in
    if compressed then bit_or with_eof flag_compressed else with_eof

abbrev pub header_of : StreamDataMessage → ℕ
header_of m = header_from m.stream_id m.eof m.compressed

unfoldable pub pack : StreamDataMessage → Bytes
pack m = header_of m / 256 ∷ header_of m % 256 ∷ m.payload

unfoldable pub from_header : ℕ → Bytes → StreamDataMessage
from_header header payload = record {
  stream_id = bit_and header stream_id_max;
  payload = payload;
  eof = not (bit_and header flag_eof == 0);
  compressed = not (bit_and header flag_compressed == 0);
}

unfoldable pub unpack : Bytes → Result BufferError StreamDataMessage
unpack (a ∷ b ∷ payload) = ok (from_header (a * 256 + b) payload)
unpack bs = err invalid_format

-- `saturating_sub`
abbrev pub max_data_len_of : ℕ → ℕ
max_data_len_of n = n - stream_header_len

-- The two flags above the 14 bits of the number.
abbrev top_bits : Bool → Bool → ℕ
top_bits true true = 3
top_bits true false = 2
top_bits false true = 1
top_bits false false = 0

joined : (id q m : ℕ) → id < 2 ^ 14 → bit_or (q * 16384 + id) (m * 16384) ≡ bit_or q m * 16384 + id
joined id q m h =
    ap (λ (n : ℕ). bit_or (q * 16384 + id) n) (omega arith)
    ∙ bit_or_split 14 q id m 0 h (omega arith)
    ∙ omega (arith, bit_or-zero id)

number_of : (id : ℕ) → id < 2 ^ 14 → bit_and id stream_id_max ≡ id
number_of id h = bit_and_mask 14 id ∙ omega arith

with_eof_lem : (id : ℕ) → id < 2 ^ 14 → bit_or id flag_eof ≡ 2 * 16384 + id
with_eof_lem id h = ap (λ (n : ℕ). bit_or n flag_eof) (omega arith) ∙ joined id 0 2 h

header_from_lem :
    (id : ℕ) (eof compressed : Bool)
    → id < 2 ^ 14
    → header_from id eof compressed ≡ top_bits eof compressed * 16384 + id
unfolding header_from
header_from_lem id true true h = rw (number_of id h, with_eof_lem id h) (joined id 2 1 h)
header_from_lem id true false h = rw (number_of id h) (with_eof_lem id h)
header_from_lem id false true h =
    rw (number_of id h) (ap (λ (n : ℕ). bit_or n flag_compressed) (omega arith) ∙ joined id 0 1 h)
header_from_lem id false false h = number_of id h ∙ omega arith

split_header :
    (id q m : ℕ) → id < 2 ^ 14 → bit_and (q * 16384 + id) (m * 16384) ≡ bit_and q m * 16384
split_header id q m h =
    ap (λ (n : ℕ). bit_and (q * 16384 + id) n) (omega arith)
    ∙ bit_and_split 14 q id m 0 h (omega arith)
    ∙ omega (arith, bit_and-zero id)

number_in : (id q : ℕ) → id < 2 ^ 14 → bit_and (q * 16384 + id) stream_id_max ≡ id
number_in id q h = bit_and_mask 14 (q * 16384 + id) ∙ omega arith

from_header_lem :
    (id : ℕ) (eof compressed : Bool) (payload : Bytes)
    → id < 2 ^ 14
    → from_header (top_bits eof compressed * 16384 + id) payload
      ≡ record { stream_id = id; payload = payload; eof = eof; compressed = compressed }
unfolding from_header
from_header_lem id true true payload h =
    rw (number_in id 3 h, split_header id 3 2 h, split_header id 3 1 h)
from_header_lem id true false payload h =
    rw (number_in id 2 h, split_header id 2 2 h, split_header id 2 1 h)
from_header_lem id false true payload h =
    rw (number_in id 1 h, split_header id 1 2 h, split_header id 1 1 h)
from_header_lem id false false payload h =
    rw (number_in id 0 h, split_header id 0 2 h, split_header id 0 1 h)

-- A stream message whose number has 14 bits is read back from its wire form.
pub unpack-pack_stream : (m : StreamDataMessage) → m.stream_id < 2 ^ 14 → unpack (pack m) ≡ ok m
unfolding unpack pack
unpack-pack_stream m h =
    let joined_bytes : header_of m / 256 * 256 + header_of m % 256 ≡ header_of m = omega arith in
    rw (
      joined_bytes,
      header_from_lem m.stream_id m.eof m.compressed h,
      from_header_lem m.stream_id m.eof m.compressed m.payload h,
    )
