-- ===== src/Transport/Proof.antt =====
-- crates/transport/src/proof.rs: proofs, a hash and a signature of a message.
use rsticulum.Prelude.{
  ℕ, ◌≡◌, ◌↔◌, refl, arith, true, not, [], ◌++◌, Bytes, length, length-append, ◌==◌, if◌then◌else◌,
  same, same_iff, Result, ok, err, ◌>>=◌, slice, slice_from, slice-append, slice_from-append,
}
use rsticulum.Transport.Signer.{Signer, IsSigner}

abbrev pub proof_len : ℕ
proof_len = 96

abbrev pub proof_hash_len : ℕ
proof_hash_len = 32

abbrev pub proof_sig_len : ℕ
proof_sig_len = 64

pub data ProofError : Type 0 where
  invalid_format signature_mismatch hash_mismatch : ProofError

pub record Proof : Type 0 where
  pub packet_hash : Bytes
  pub signature : Bytes

abbrev pub HasLengths : Proof → Type 0
HasLengths p = (length p.packet_hash ≡ proof_hash_len) × (length p.signature ≡ proof_sig_len)

unfoldable pub to_bytes : Proof → Bytes
to_bytes p = p.packet_hash ++ p.signature

unfoldable pub from_bytes : Bytes → Result ProofError Proof
from_bytes bs = if not (length bs == proof_len) then err invalid_format else do
  packet_hash ← slice bs 0 proof_hash_len
  signature ← slice_from bs proof_hash_len
  ok (record { packet_hash = packet_hash; signature = signature })

pub length-to_bytes_proof : (p : Proof) → HasLengths p → length (to_bytes p) ≡ proof_len
unfolding to_bytes
length-to_bytes_proof p h = omega (arith, length-append p.packet_hash p.signature)

-- A proof is read back from its 96 bytes.
pub from_bytes-to_bytes_proof : (p : Proof) → HasLengths p → from_bytes (to_bytes p) ≡ ok p
unfolding from_bytes to_bytes
from_bytes-to_bytes_proof p h =
    let n : length (p.packet_hash ++ p.signature) ≡ 96 =
      omega (arith, length-append p.packet_hash p.signature) in
    rw (
      n,
      slice-append {E = ProofError} [] p.packet_hash p.signature 0 32 refl (omega arith),
      slice_from-append {E = ProofError} p.packet_hash p.signature 32 h.0,
    )

module _ (s : Signer) where
  unfoldable pub generate_proof : s.Keys → Bytes → Proof
  generate_proof keys message = record {
    packet_hash = s.sha256 message;
    signature = s.sign keys message;
  }

  unfoldable pub verify_proof_with_public_key : Bytes → Bytes → Proof → Result ProofError (Unit {0})
  verify_proof_with_public_key key message p =
      let computed_hash = s.sha256 message in
      if not (same computed_hash p.packet_hash)
      then err hash_mismatch
      else if not (s.is_point key)
      then err invalid_format
      else if s.verify_strict key message p.signature
      then ok tt
      else err signature_mismatch

  unfoldable pub verify_proof : s.Keys → Bytes → Proof → Result ProofError (Unit {0})
  unfolding verify_proof_with_public_key
  verify_proof keys = verify_proof_with_public_key (s.identity_key keys)

  -- A proof is accepted exactly if it holds the hash of the message, the key is a point, and the
  -- signature of the message verifies under the key.
  pub verify_proof_iff :
      (key message : Bytes) (p : Proof)
      → (verify_proof_with_public_key key message p ≡ ok tt) ↔ (
          (p.packet_hash ≡ s.sha256 message)
          × (s.is_point key ≡ true)
          × (s.verify_strict key message p.signature ≡ true))
  unfolding verify_proof_with_public_key
  verify_proof_iff key message p = ground (arith, same_iff (s.sha256 message) p.packet_hash)

  module _ (laws : IsSigner s) where
    pub generate_proof-HasLengths :
        (keys : s.Keys) (message : Bytes) → HasLengths (generate_proof keys message)
    unfolding generate_proof
    generate_proof-HasLengths keys message =
        (laws.length_sha256 message, laws.length_sign keys message)

    -- The proof that a node generates for a message survives the wire and is accepted by whoever
    -- holds the node's public key.
    pub verify_proof-generate_proof :
        (keys : s.Keys) (message : Bytes)
        → (do p ← from_bytes (to_bytes (generate_proof keys message)); verify_proof keys message p)
          ≡ ok tt
    unfolding verify_proof
    verify_proof-generate_proof keys message =
        rw (from_bytes-to_bytes_proof _ (generate_proof-HasLengths keys message)) (
          (verify_proof_iff (s.identity_key keys) message (generate_proof keys message)).1 (
            unfold generate_proof in
            (refl, laws.identity_key_point keys, laws.verify_sign keys message)))
