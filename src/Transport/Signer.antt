-- ===== src/Transport/Signer.antt =====
-- What the links use of `Keys` of crates/identity: Ed25519 signatures and SHA-256, code of other
-- packages, and the encryption to a public key. `Keys` are a value that these functions take.
use rsticulum.Prelude.{
  ◌≡◌, refl, Bool, true, Option, some, Bytes, length, replicate, same, same_iff,
}

pub record Signer : Type 1 where
  pub Keys : Type 0
  pub identity_key : Keys → Bytes
  pub sha256 : Bytes → Bytes
  pub sign : Keys → Bytes → Bytes
  -- `VerifyingKey::from_bytes` accepts the key.
  pub is_point : Bytes → Bool
  -- `verify_strict`, of a key, a message and a signature
  pub verify_strict : Bytes → Bytes → Bytes → Bool
  -- `Keys::encrypt_for` of a remote key, a salt and a plaintext, and `Keys::decrypt_from`
  pub encrypt_for : Keys → Bytes → Bytes → Bytes → Option Bytes
  pub decrypt_from : Keys → Bytes → Option Bytes

pub record IsSigner (s : Signer) : Type 0 where
  pub length_sha256 : (text : Bytes) → length (s.sha256 text) ≡ 32
  pub length_sign : (keys : s.Keys) (text : Bytes) → length (s.sign keys text) ≡ 64
  pub identity_key_point : (keys : s.Keys) → s.is_point (s.identity_key keys) ≡ true
  pub verify_sign :
      (keys : s.Keys) (text : Bytes)
      → s.verify_strict (s.identity_key keys) text (s.sign keys text) ≡ true

-- Signatures that anybody can make, to show that the promises can be kept.
abbrev pub toy_signature : Bytes
toy_signature = replicate 64 7

abbrev pub toy : Signer
toy = record {
  Keys = Bytes;
  identity_key = λ keys. keys;
  sha256 = λ text. replicate 32 3;
  sign = λ keys text. toy_signature;
  is_point = λ key. true;
  verify_strict = λ key text signature. same signature toy_signature;
  encrypt_for = λ keys key salt text. some text;
  decrypt_from = λ keys text. some text;
}

pub toy-IsSigner : IsSigner toy
toy-IsSigner = record {
  length_sha256 = λ text. refl;
  length_sign = λ keys text. refl;
  identity_key_point = λ keys. refl;
  verify_sign = λ keys text. (same_iff toy_signature toy_signature).1 refl;
}
