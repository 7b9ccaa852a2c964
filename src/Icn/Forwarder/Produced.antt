-- ===== src/Icn/Forwarder/Produced.antt =====
-- crates/icn/src/interest.rs and forwarder.rs: a data packet from its producer, over the wire, to a
-- forwarder that knows the producer's keys.
use rsticulum.Prelude.{◌^◌, ◌<◌, ◌≡◌, refl, List, some, ◌++◌, Bytes, length, ok, get, bytes_keys}
use rsticulum.Transport.Signer.{Signer, IsSigner}
use rsticulum.Transport.Proof.{
  generate_proof, verify_proof, verify_proof_iff, generate_proof-HasLengths,
}
use rsticulum.Icn.Name.{Name, producer_hash}
use rsticulum.Icn.Name as NameModule
use rsticulum.Icn.Name.Codec as NameCodec
use rsticulum.Icn.Metadata.Codec as MetadataCodec
use rsticulum.Icn.Metadata.Codec.{whole_seconds}
use rsticulum.Icn.Metadata.{DataMetadata}
use rsticulum.Icn.Data.{Data, new, to_bytes, from_bytes, signed_hash}
use rsticulum.Icn.Data.Codec.{from_bytes-to_bytes_data}
use rsticulum.Icn.Forwarder.{verify_data}

module _ (s : Signer) (laws : IsSigner s) (blake3 : Bytes → Bytes) where
  -- A data packet with the proof that its producer makes, and any metadata.
  abbrev pub published : s.Keys → Name → Bytes → DataMetadata → Data
  published keys name content metadata =
      record (new blake3 name content
        (generate_proof s keys (blake3 (NameModule.to_bytes name ++ content)))) {
          metadata = metadata;
        }

  verify_proof-own :
      (keys : s.Keys) (message : Bytes)
      → verify_proof s keys message (generate_proof s keys message) ≡ ok tt
  unfolding verify_proof
  verify_proof-own keys message =
      (verify_proof_iff s (s.identity_key keys) message (generate_proof s keys message)).1 (
        unfold generate_proof in
        (refl, laws.identity_key_point keys, laws.verify_sign keys message))

  -- A packet that was signed with keys that the forwarder knows for its name is read back from the
  -- wire and accepted, whatever valid metadata stands on it: nobody signs the metadata.
  pub verify_data-published :
      (keys : s.Keys) (name : Name) (content hash : Bytes) (metadata : DataMetadata)
      (key_store : List (Bytes × s.Keys))
      → NameCodec.IsValid name
      → length content < 2 ^ 32
      → MetadataCodec.IsValid metadata
      → producer_hash name ≡ ok hash
      → get hash key_store ≡ some keys
      → let received = record metadata { freshness = whole_seconds metadata.freshness } in
        (from_bytes (to_bytes (published keys name content metadata))
          ≡ ok (published keys name content received))
        × (verify_data s blake3 key_store (published keys name content received) ≡ ok tt)
  unfolding new verify_data signed_hash
  verify_data-published keys name content hash metadata key_store valid short fits producer known =
      let message = blake3 (NameModule.to_bytes name ++ content) in
      (
        from_bytes-to_bytes_data (published keys name content metadata) (record {
          name_valid = valid;
          content_short = short;
          metadata_valid = fits;
          signature_lengths = generate_proof-HasLengths s laws keys message;
        }),
        rw (producer, known, verify_proof-own keys message),
      )
