-- ===== src/Identity/Encryption.antt =====
-- crates/identity/src/crypto.rs and keys.rs: end-to-end encryption to a key pair, over an ephemeral
-- key, a derived key and a token. The curves, SHA-512, SHA-256 and the hkdf package are the parameter
-- `Curve`; the cipher and the MAC are those of Crypto/Cipher. Ephemeral keys and initial vectors
-- are random and arguments here.
pub mod Tokens
pub mod Delivery
mod Tests
use rsticulum.Prelude.{
  ℕ, ◌+◌, ◌-◌, ◌*◌, ◌/◌, ◌%◌, ◌≡◌, Bool, true, not, Option, none, some, [], ◌∷◌, ◌++◌, Bytes,
  length, take, drop, replicate, bit_and, bit_or, ltb, ◌==◌, if◌then◌else◌, same, Result, ok, err,
  panic, map_err, ◌>>=◌, slice, slice_from,
}
use rsticulum.Crypto.Cipher.{Cipher}
use rsticulum.Crypto.Hkdf.{hkdf_sha256}
use rsticulum.Crypto.Token.{TokenError}
use rsticulum.Crypto.Token as TokenModule

pub data Reason : Type 0 where
  token_too_short hmac_verification decryption_failed ciphertext_too_short : Reason
  of_token : TokenError → Reason

pub data CryptoError : Type 0 where
  encryption rng : CryptoError
  decryption : Reason → CryptoError

abbrev pub aes_key_size : ℕ
aes_key_size = 16

abbrev pub hmac_out_size : ℕ
hmac_out_size = 32

abbrev pub aes_block_size : ℕ
aes_block_size = 16

abbrev pub fernet_overhead : ℕ
fernet_overhead = 48

abbrev pub ephemeral_key_len : ℕ
ephemeral_key_len = 32

-- What the encryption uses of other packages. A secret and a public key are their bytes.
pub record Curve : Type 0 where
  pub diffie_hellman : Bytes → Bytes → Bytes
  pub public_of : Bytes → Bytes
  -- the Ed25519 key of a seed, whether `VerifyingKey::from_bytes` accepts a key, and `to_montgomery`
  pub ed25519_public : Bytes → Bytes
  pub is_point : Bytes → Bool
  pub to_montgomery : Bytes → Bytes
  pub sha512 : Bytes → Bytes
  pub sha256 : Bytes → Bytes
  -- 32 bytes of the hkdf package, of a salt and a shared secret, without info
  pub expand : Bytes → Bytes → Bytes

pub record Keys : Type 0 where
  pub signing : Bytes
  pub encryption : Bytes

pub record DerivedKey : Type 0 where
  pub key : Bytes

abbrev pub sign_key : DerivedKey → Bytes
sign_key d = take aes_key_size d.key

abbrev pub enc_key : DerivedKey → Bytes
enc_key d = drop aes_key_size d.key

pub record Fernet : Type 0 where
  pub sign_key : Bytes
  pub enc_key : Bytes

abbrev pub from_derived_key : DerivedKey → Fernet
from_derived_key d = record { sign_key = sign_key d; enc_key = enc_key d }

abbrev or_zeros : Option Bytes → Bytes
or_zeros none = replicate 32 0
or_zeros (some salt) = salt

module _ (c : Cipher) where
  -- The tag fills what the ciphertext left of the token, or the copy panics.
  unfoldable pub encrypt : Fernet → Bytes → Bytes → Result CryptoError Bytes
  encrypt f iv plaintext =
      let padded_len = (length plaintext / aes_block_size + 1) * aes_block_size in
      let ciphertext = c.seal f.enc_key iv plaintext in
      if length ciphertext == padded_len
      then ok (iv ++ (ciphertext ++ c.hmac f.sign_key (iv ++ ciphertext)))
      else panic

  -- `.map_err(…)?`
  abbrev pub unsealed : Option Bytes → Result CryptoError Bytes
  unsealed none = err (decryption decryption_failed)
  unsealed (some plaintext) = ok plaintext

  unfoldable pub decrypt : Fernet → Bytes → Result CryptoError Bytes
  decrypt f token =
      if ltb (length token) (fernet_overhead + 1) then err (decryption token_too_short) else do
        let ct_end = length token - hmac_out_size
        expected_tag ← slice_from token ct_end
        signed ← slice token 0 ct_end
        if not (same (c.hmac f.sign_key signed) expected_tag)
            then err (decryption hmac_verification)
            else do
              iv ← slice token 0 aes_block_size
              ciphertext ← slice token aes_block_size ct_end
              unsealed (c.unseal f.enc_key iv ciphertext)

-- `scalar[0] &= 248`, `scalar[31] &= 127`, `scalar[31] |= 64`, of 32 bytes.
abbrev clamp_last : Bytes → Bytes
clamp_last [] = []
clamp_last (b ∷ bs) = bit_or (bit_and b 127) 64 ∷ bs

unfoldable pub clamp : Bytes → Bytes
clamp [] = []
clamp (b ∷ bs) = bit_and b 248 ∷ (take 30 bs ++ clamp_last (drop 30 bs))

module _ (k : Curve) where
  unfoldable pub new_derived_key : Bytes → Option Bytes → DerivedKey
  new_derived_key shared salt = record { key = k.expand (or_zeros salt) shared }

  unfoldable pub from_static : Bytes → Bytes → DerivedKey
  unfolding new_derived_key
  from_static our_key their_key = new_derived_key (k.diffie_hellman our_key their_key) none

  abbrev pub identity_key_bytes : Keys → Bytes
  identity_key_bytes keys = k.ed25519_public keys.signing

  abbrev pub encryption_key : Keys → Bytes
  encryption_key keys = k.public_of keys.encryption

  abbrev pub full_public_key_bytes : Keys → Bytes
  full_public_key_bytes keys = encryption_key keys ++ identity_key_bytes keys

  -- The address of the whole public key.
  abbrev pub rns_address : Keys → Bytes
  rns_address keys = take 16 (k.sha256 (full_public_key_bytes keys))

  unfoldable pub ed25519_pub_to_x25519 : Bytes → Result CryptoError Bytes
  ed25519_pub_to_x25519 key = if k.is_point key then ok (k.to_montgomery key) else err encryption

  unfoldable pub ed25519_secret_to_x25519 : Bytes → Bytes
  unfolding clamp
  ed25519_secret_to_x25519 seed = clamp (take 32 (k.sha512 seed))

  module _ (c : Cipher) where
    unfoldable pub encrypt_for : Bytes → Bytes → Bytes → Bytes → Bytes → Result CryptoError Bytes
    unfolding new_derived_key
    encrypt_for ephemeral iv recipient_public recipient_hash plaintext = do
      let shared = k.diffie_hellman ephemeral recipient_public
      let derived = new_derived_key shared (some recipient_hash)
      token ← encrypt c (from_derived_key derived) iv plaintext
      ok (k.public_of ephemeral ++ token)

    unfoldable pub decrypt_from : Keys → Bytes → Result CryptoError Bytes
    unfolding new_derived_key
    decrypt_from keys ciphertext =
        if ltb (length ciphertext) (ephemeral_key_len + fernet_overhead + 1)
        then err (decryption ciphertext_too_short)
        else do
          their_ephemeral ← slice ciphertext 0 ephemeral_key_len
          token ← slice_from ciphertext ephemeral_key_len
          let shared = k.diffie_hellman keys.encryption their_ephemeral
          let derived = new_derived_key shared (some (rns_address keys))
          decrypt c (from_derived_key derived) token

    -- `hkdf_sha256` of crates/crypto, 32 bytes.
    abbrev pub packet_key : Bytes → Bytes → Bytes
    packet_key shared recipient_hash =
        take 32 (hkdf_sha256 c.hmac 32 shared (some recipient_hash) none)

    unfoldable pub encrypt_packet : Bytes → Bytes → Bytes → Bytes → Bytes → Result CryptoError Bytes
    unfolding ed25519_pub_to_x25519
    encrypt_packet ephemeral iv plaintext recipient_ed25519_pub recipient_hash = do
      recipient ← ed25519_pub_to_x25519 recipient_ed25519_pub
      let key = packet_key (k.diffie_hellman ephemeral recipient) recipient_hash
      ok (k.public_of ephemeral ++ TokenModule.encrypt c iv plaintext key)

    unfoldable pub decrypt_packet : Bytes → Keys → Bytes → Result CryptoError Bytes
    unfolding ed25519_secret_to_x25519
    decrypt_packet encrypted recipient_keys recipient_hash =
        if ltb (length encrypted) (32 + 1) then err (decryption ciphertext_too_short) else do
          ephemeral_pub ← slice encrypted 0 32
          token_bytes ← slice_from encrypted 32
          let secret = ed25519_secret_to_x25519 recipient_keys.signing
          let key = packet_key (k.diffie_hellman secret ephemeral_pub) recipient_hash
          map_err (λ e. decryption (of_token e)) (TokenModule.decrypt c token_bytes key)
