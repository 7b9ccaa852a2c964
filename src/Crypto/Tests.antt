-- ===== src/Crypto/Tests.antt =====
-- The theorems on key derivation and tokens at a concrete cipher and concrete keys.
use rsticulum.Prelude.{
  ◌+◌, ◌*◌, ◌/◌, ◌%◌, ◌≤◌, ◌≡◌, refl, none, [], ◌∷◌, Bytes, length, replicate, min,
}
use rsticulum.Crypto.Cipher.{toy, toy-IsCipher}
use rsticulum.Crypto.Hkdf.{hkdf_sha256, length-hkdf_sha256}
use rsticulum.Crypto.Token.{encrypt, Authentic, decrypt-encrypt, decrypt-Authentic}

abbrev key : Bytes
key = replicate 32 5

abbrev vector : Bytes
vector = replicate 16 1

length-hkdf_sha256_example :
    (length (hkdf_sha256 toy.hmac 8192 key none none) ≡ min 8192 (32 * ((8192 + 31) / 32 % 256)))
    × (8192 ≤ 8160 → length (hkdf_sha256 toy.hmac 8192 key none none) ≡ 8192)
length-hkdf_sha256_example = length-hkdf_sha256 toy.hmac toy-IsCipher.length_hmac 8192 key none none

decrypt-Authentic_example : Authentic toy (encrypt toy vector (1 ∷ 2 ∷ []) key) key (1 ∷ 2 ∷ [])
decrypt-Authentic_example =
    decrypt-Authentic toy (encrypt toy vector (1 ∷ 2 ∷ []) key) key (1 ∷ 2 ∷ [])
      (decrypt-encrypt toy toy-IsCipher vector (1 ∷ 2 ∷ []) key refl)
