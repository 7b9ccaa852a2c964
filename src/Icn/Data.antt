-- ===== src/Icn/Data.antt =====
-- crates/icn/src/interest.rs: data packets and their wire form.
pub mod Codec
mod Tests
use rsticulum.Prelude.{
  ℕ, ◌+◌, ◌-◌, ◌%◌, ◌^◌, Option, none, some, Bytes, ◌++◌, length, drop, leb, if◌then◌else◌,
  to_be_bytes, from_be_bytes, Result, ok, err, panic, map_err, ◌>>=◌,
}
use rsticulum.Icn.Name.{Name}
use rsticulum.Icn.Name as NameModule
use rsticulum.Icn.Varint.{write_varint, read_varint}
pub use rsticulum.Icn.Metadata.{
  DataError, buffer_too_short, invalid_name, invalid_signature, Freshness, fresh, stale,
  DataMetadata,
}
use rsticulum.Icn.Metadata.{read_exact}
use rsticulum.Icn.Metadata as MetadataModule
use rsticulum.Transport.Proof.{Proof, proof_len}
use rsticulum.Transport.Proof as ProofModule

pub record Data : Type 0 where
  pub name : Name
  pub content : Bytes
  pub signature : Proof
  pub metadata : DataMetadata

-- `new`, with the BLAKE3 hash as a parameter.
unfoldable pub new : (Bytes → Bytes) → Name → Bytes → Proof → Data
new blake3 name content signature = record {
  name = name;
  content = content;
  signature = signature;
  metadata = record { content_hash = some (blake3 content); sequence = none; freshness = fresh };
}

unfoldable pub with_sequence : Data → ℕ → Data
with_sequence d seq = record d { metadata = record d.metadata { sequence = some seq } }

unfoldable pub with_staleness : Data → ℕ → Data
with_staleness d age = record d { metadata = record d.metadata { freshness = stale age } }

-- What the proof signs: the hash of the name's wire form and the content, without the metadata.
unfoldable pub signed_hash : (Bytes → Bytes) → Data → Bytes
signed_hash blake3 d = blake3 (NameModule.to_bytes d.name ++ d.content)

-- A length in front of its bytes.
abbrev pub with_length : Bytes → Bytes
with_length bs = write_varint (length bs) ++ bs

unfoldable pub to_bytes : Data → Bytes
to_bytes d =
    with_length (NameModule.to_bytes d.name)
    ++ (to_be_bytes 4 (length d.content % 2 ^ 32)
        ++ (d.content
            ++ (with_length (MetadataModule.to_bytes d.metadata)
                ++ ProofModule.to_bytes d.signature)))

-- `.ok_or(DataError::BufferTooShort)?`
unfoldable pub some_length : Option (ℕ × ℕ) → Result DataError (ℕ × ℕ)
some_length none = err buffer_too_short
some_length (some pair) = ok pair

-- `n` bytes from the position `pos` on; `pos + n` on a `usize`, with overflow checks.
unfoldable pub read_at : ℕ → ℕ → Bytes → Result DataError (Bytes × Bytes)
read_at pos n bs = if leb (2 ^ 64) (pos + n) then panic else read_exact n bs

-- A length and as many bytes, with what follows them, from the position `pos` on.
unfoldable pub read_block : ℕ → Bytes → Result DataError (Bytes × Bytes)
unfolding some_length read_at
read_block pos bs = do
  (n, used) ← some_length (read_varint bs)
  read_at (pos + used) n (drop used bs)

unfoldable pub from_bytes : Bytes → Result DataError Data
from_bytes bs = do
  (name_bytes, after_name) ← read_block 0 bs
  name ← map_err (λ _. invalid_name) (NameModule.from_bytes name_bytes)
  (size, after_size) ← read_exact 4 after_name
  (content, after_content) ← read_exact (from_be_bytes size) after_size
  (metadata_bytes, after_metadata) ← read_block (length bs - length after_content) after_content
  metadata ← MetadataModule.from_bytes metadata_bytes
  (signature_bytes, rest) ← read_exact proof_len after_metadata
  signature ← map_err (λ _. invalid_signature) (ProofModule.from_bytes signature_bytes)
  ok (record { name = name; content = content; signature = signature; metadata = metadata })
