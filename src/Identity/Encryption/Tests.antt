-- ===== src/Identity/Encryption/Tests.antt =====
-- The theorems on encryption to a key pair over toy curves and a toy cipher.
use rsticulum.Prelude.{
  ◌≡◌, ◌≢◌, refl, arith, true, Bytes, [], ◌∷◌, length, replicate, ok, map_err, ◌>>=◌,
}
use rsticulum.Crypto.Cipher.{toy, toy-IsCipher}
use rsticulum.Crypto.Token as TokenModule
use rsticulum.Identity.Encryption.{
  Curve, Keys, DerivedKey, from_derived_key, encrypt, decrypt, encrypt_for, decrypt_from,
  encrypt_packet, decrypt_packet, encryption_key, rns_address, identity_key_bytes,
}
use rsticulum.Identity.Encryption.Tokens.{as_crypto_error, from_derived_key_lem}
use rsticulum.Identity.Encryption.Delivery.{
  IsCurve, decrypt_from-encrypt_for, decrypt_packet-encrypt_packet,
}

-- Curves with one public key, to show that the promises can be kept.
abbrev flat : Curve
flat = record {
  diffie_hellman = λ a b. replicate 32 5;
  public_of = λ a. replicate 32 9;
  ed25519_public = λ seed. seed;
  is_point = λ key. true;
  to_montgomery = λ key. replicate 32 9;
  sha512 = λ text. replicate 64 1;
  sha256 = λ text. replicate 32 2;
  expand = λ salt shared. shared;
}

flat-IsCurve : IsCurve flat
flat-IsCurve = record {
  agreement = λ a b. refl;
  length_public = λ a. refl;
  public_point = λ seed. refl;
  montgomery = λ seed. refl;
  bytes_sha512 = λ seed. omega arith;
}

abbrev bob : Keys
bob = record { signing = replicate 32 7; encryption = replicate 32 8 }

abbrev vector : Bytes
vector = replicate 16 6

decrypt_from-encrypt_for_example :
    (do
      ciphertext ←
          encrypt_for flat toy
            (replicate 32 4)
            vector
            (encryption_key flat bob)
            (rns_address flat bob)
            (1 ∷ 2 ∷ [])
      decrypt_from flat toy bob ciphertext)
    ≡ ok (1 ∷ 2 ∷ [])
decrypt_from-encrypt_for_example =
    decrypt_from-encrypt_for flat flat-IsCurve toy toy-IsCipher bob (replicate 32 4) vector
      (1 ∷ 2 ∷ []) refl

decrypt_packet-encrypt_packet_example :
    (do
      encrypted ←
          encrypt_packet flat toy
            (replicate 32 4)
            vector
            (1 ∷ 2 ∷ [])
            (identity_key_bytes flat bob)
            (replicate 16 3)
      decrypt_packet flat toy encrypted bob (replicate 16 3))
    ≡ ok (1 ∷ 2 ∷ [])
decrypt_packet-encrypt_packet_example =
    decrypt_packet-encrypt_packet flat flat-IsCurve toy toy-IsCipher bob (replicate 32 4) vector
      (1 ∷ 2 ∷ []) (replicate 16 3) refl

abbrev key : DerivedKey
key = record { key = replicate 32 5 }

abbrev token : Bytes
token = TokenModule.encrypt toy vector (1 ∷ []) key.key

token_long : length token ≢ 48
unfolding TokenModule.encrypt
token_long e = cc

from_derived_key_lem_example :
    (encrypt toy (from_derived_key key) vector (1 ∷ []) ≡ ok token)
    × (decrypt toy (from_derived_key key) token
        ≡ map_err as_crypto_error (TokenModule.decrypt toy token key.key))
from_derived_key_lem_example =
    from_derived_key_lem toy key toy-IsCipher vector (1 ∷ []) token token_long
