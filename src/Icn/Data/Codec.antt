-- ===== src/Icn/Data/Codec.antt =====
-- Data packets on the wire: what is written is read back but for parts of a second of its age, and
-- what a producer signs is accepted behind the wire.
use rsticulum.Prelude.{
  ℕ, ◌+◌, ◌-◌, ◌%◌, ◌^◌, ◌<◌, ◌≤◌, ◌≡◌, refl, sym, ap, ◌∙◌, arith, [], ◌++◌, Bytes, length,
  length-append, drop-append, leb_of_lt, to_be_bytes, from-to_be_bytes, length-to_be_bytes,
  from_be_bytes, ok,
}
use mathlib.Core.List.{append_assoc, append-nil}
use rsticulum.Icn.Name.{Name}
use rsticulum.Icn.Name as NameModule
use rsticulum.Icn.Name.Codec as NameCodec
use rsticulum.Icn.Name.Codec.{from_bytes-to_bytes_name, length-to_bytes_name}
use rsticulum.Icn.Varint.{write_varint, read_varint-write_varint, length-write_varint}
use rsticulum.Icn.Metadata.Codec as MetadataCodec
use rsticulum.Icn.Metadata.Codec.{
  read_exact-append, whole_seconds, from_bytes-to_bytes_metadata, length-to_bytes_metadata,
}
use rsticulum.Icn.Metadata.{read_exact}
use rsticulum.Icn.Metadata as MetadataModule
use rsticulum.Icn.Data.{Data, to_bytes, from_bytes, with_length, some_length, read_at, read_block}
use rsticulum.Transport.Proof.{
  proof_len, from_bytes-to_bytes_proof, length-to_bytes_proof, HasLengths,
}
use rsticulum.Transport.Proof as ProofModule

-- A valid name, less than 2^32 bytes of content, valid metadata and a proof of 96 bytes.
pub record IsValid (d : Data) : Type 0 where
  pub name_valid : NameCodec.IsValid d.name
  pub content_short : length d.content < 2 ^ 32
  pub metadata_valid : MetadataCodec.IsValid d.metadata
  pub signature_lengths : HasLengths d.signature

read_block-with_length :
    (pos : ℕ) (bs rest : Bytes)
    → pos + length bs + 10 < 2 ^ 64
    → read_block pos (with_length bs ++ rest) ≡ ok (bs, rest)
unfolding read_block some_length read_at
read_block-with_length pos bs rest h =
    let used = length-write_varint (length bs) in
    rw (
      append_assoc (write_varint (length bs)) bs rest,
      read_varint-write_varint (length bs) (bs ++ rest) (omega (arith, h)),
      drop-append (write_varint (length bs)) (bs ++ rest) (length (write_varint (length bs))) refl,
      leb_of_lt (2 ^ 64) (pos + length (write_varint (length bs)) + length bs)
          (omega (arith, h, used)),
      read_exact-append (length bs) bs rest refl,
    )

length-with_length : (bs : Bytes) → length (with_length bs) ≤ length bs + 10
length-with_length bs =
    omega (arith, length-append (write_varint (length bs)) bs, length-write_varint (length bs))

-- Where the metadata of a packet starts.
metadata_at : (d : Data) → Bytes → ℕ
metadata_at d tail =
    length (
      with_length (NameModule.to_bytes d.name)
      ++ (to_be_bytes 4 (length d.content % 2 ^ 32) ++ (d.content ++ tail)))
    - length tail

metadata_at-lt : (d : Data) (tail : Bytes) → IsValid d → metadata_at d tail < 2 ^ 63
unfolding metadata_at
metadata_at-lt d tail v =
    let name_part = with_length (NameModule.to_bytes d.name) in
    let size = to_be_bytes 4 (length d.content % 2 ^ 32) in
    omega (
      arith,
      v.content_short,
      length-append name_part (size ++ (d.content ++ tail)),
      length-append size (d.content ++ tail),
      length-append d.content tail,
      length-with_length (NameModule.to_bytes d.name),
      length-to_bytes_name d.name v.name_valid,
      length-to_be_bytes 4 (length d.content % 2 ^ 32),
    )

read_proof :
    (p : ProofModule.Proof)
    → HasLengths p
    → read_exact proof_len (ProofModule.to_bytes p) ≡ ok (ProofModule.to_bytes p, [])
read_proof p h =
    ap (read_exact proof_len) (sym (append-nil (ProofModule.to_bytes p)))
    ∙ read_exact-append proof_len (ProofModule.to_bytes p) [] (length-to_bytes_proof p h)

-- A valid data packet is read back from its wire form, with its age cut to whole seconds.
pub from_bytes-to_bytes_data :
    (d : Data)
    → IsValid d
    → from_bytes (to_bytes d)
      ≡ ok (record d {
        metadata = record d.metadata { freshness = whole_seconds d.metadata.freshness };
      })
unfolding from_bytes to_bytes metadata_at
from_bytes-to_bytes_data d v =
    let name_bytes = NameModule.to_bytes d.name in
    let metadata_bytes = MetadataModule.to_bytes d.metadata in
    let proof_bytes = ProofModule.to_bytes d.signature in
    let size = to_be_bytes 4 (length d.content % 2 ^ 32) in
    let tail = with_length metadata_bytes ++ proof_bytes in
    let start = metadata_at-lt d tail v in
    let small = length-to_bytes_name d.name v.name_valid in
    let whole : from_be_bytes size ≡ length d.content =
      from-to_be_bytes 4 (length d.content % 2 ^ 32) (omega arith)
      ∙ omega (arith, v.content_short) in
    let short = length-to_bytes_metadata d.metadata v.metadata_valid in
    rw (
      read_block-with_length 0 name_bytes (size ++ (d.content ++ tail)) (omega (arith, small)),
      from_bytes-to_bytes_name d.name v.name_valid,
      read_exact-append 4 size (d.content ++ tail) (length-to_be_bytes 4 _),
      whole,
      read_exact-append (length d.content) d.content tail refl,
      read_block-with_length (metadata_at d tail) metadata_bytes proof_bytes
          (omega (arith, start, short)),
      from_bytes-to_bytes_metadata d.metadata v.metadata_valid,
      read_proof d.signature v.signature_lengths,
      from_bytes-to_bytes_proof d.signature v.signature_lengths,
    )
