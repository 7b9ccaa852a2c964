-- ===== src/Identity/Encryption/Delivery.antt =====
-- crates/identity/src/crypto.rs: what is encrypted to a key pair is what the key pair decrypts.
use rsticulum.Prelude.{
  ℕ, ◌+◌, ◌*◌, ◌/◌, ◌%◌, ◌<◌, ◌≤◌, ◌≡◌, refl, ap, ap₂, zero, suc, arith, true, some, [], ◌∷◌, ◌++◌,
  Bytes, length, take, drop, length-append, bit_and, bit_or, ltb_of_le, ◌==◌, ==_iff, holds_below,
  holds_below_sound, ok, ◌>>=◌, All, slice-append, slice_from-append,
}
use rsticulum.Crypto.Cipher.{Cipher, IsCipher}
use rsticulum.Crypto.Token as TokenModule
use rsticulum.Identity.Encryption.{
  CryptoError, Curve, Keys, from_derived_key, decrypt, clamp, new_derived_key, identity_key_bytes,
  encryption_key, rns_address, packet_key, clamp_last, encrypt_for, decrypt_from, encrypt_packet,
  decrypt_packet, ed25519_pub_to_x25519, ed25519_secret_to_x25519,
}
use rsticulum.Identity.Encryption.Tokens.{agree-encrypt, length-encrypt, decrypt-encrypt_fernet}

-- The clamping of RFC 7748 as arithmetic: the lowest three bits of the first byte cleared, and the
-- top two bits of the last byte of 32 set to 01.
unfoldable pub rfc_last : Bytes → Bytes
rfc_last [] = []
rfc_last (b ∷ bs) = (b % 64 + 64) ∷ bs

unfoldable pub rfc_clamp : Bytes → Bytes
unfolding rfc_last
rfc_clamp [] = []
rfc_clamp (b ∷ bs) = (b / 8 * 8) ∷ (take 30 bs ++ rfc_last (drop 30 bs))

-- What the documentation of the curves promises: the agreement of Diffie and Hellman, and that an
-- Ed25519 key on the other curve is the public key of its clamped scalar.
pub record IsCurve (k : Curve) : Type 0 where
  pub agreement :
      (a b : Bytes) → k.diffie_hellman a (k.public_of b) ≡ k.diffie_hellman b (k.public_of a)
  pub length_public : (a : Bytes) → length (k.public_of a) ≡ 32
  pub public_point : (seed : Bytes) → k.is_point (k.ed25519_public seed) ≡ true
  pub montgomery :
      (seed : Bytes)
      → k.to_montgomery (k.ed25519_public seed) ≡ k.public_of (rfc_clamp (take 32 (k.sha512 seed)))
  pub bytes_sha512 : (seed : Bytes) → All (λ (b : ℕ). b < 256) (take 32 (k.sha512 seed))

first_table : holds_below (λ b. bit_and b 248 == b / 8 * 8) 256 ≡ true
unfolding holds_below
first_table = refl

last_table : holds_below (λ b. bit_or (bit_and b 127) 64 == b % 64 + 64) 256 ≡ true
unfolding holds_below
last_table = refl

All-drop : (n : ℕ) (bs : Bytes) → All (λ (b : ℕ). b < 256) bs → All (λ (b : ℕ). b < 256) (drop n bs)
All-drop zero bs h = h
All-drop (suc n) [] h = h
All-drop (suc n) (b ∷ bs) (first, rest) = All-drop n bs rest

clamp_last_lem : (bs : Bytes) → All (λ (b : ℕ). b < 256) bs → clamp_last bs ≡ rfc_last bs
unfolding rfc_last
clamp_last_lem [] h = refl
clamp_last_lem (b ∷ bs) (first, rest) =
    ap (λ (x : ℕ). x ∷ bs)
      ((==_iff _ _).0
        (holds_below_sound (λ b. bit_or (bit_and b 127) 64 == b % 64 + 64) 256 b first last_table))

clamp_lem : (bs : Bytes) → All (λ (b : ℕ). b < 256) bs → clamp bs ≡ rfc_clamp bs
unfolding clamp rfc_clamp
clamp_lem [] h = refl
clamp_lem (b ∷ bs) (first, rest) =
    ap₂ (λ (x : ℕ) (last : Bytes). x ∷ (take 30 bs ++ last))
      ((==_iff _ _).0 (holds_below_sound (λ b. bit_and b 248 == b / 8 * 8) 256 b first first_table))
      (clamp_last_lem (drop 30 bs) (All-drop 30 bs rest))

module _ (k : Curve) (curve : IsCurve k) (c : Cipher) (cipher : IsCipher c) where
  decrypt_from-parts :
      (keys : Keys) (ephemeral token : Bytes)
      → 64 ≤ length token
      → decrypt_from k c keys (k.public_of ephemeral ++ token)
        ≡ decrypt c
            (from_derived_key (
              new_derived_key k
                (k.diffie_hellman ephemeral (encryption_key k keys))
                (some (rns_address k keys))))
            token
  unfolding decrypt_from
  decrypt_from-parts keys ephemeral token long =
      let public = k.public_of ephemeral in
      rw (
        ltb_of_le (length (public ++ token)) 81
            (omega (arith, length-append public token, curve.length_public ephemeral)),
        slice-append {E = CryptoError} [] public token 0 32 refl
            (omega (arith, curve.length_public ephemeral)),
        slice_from-append {E = CryptoError} public token 32 (curve.length_public ephemeral),
        curve.agreement keys.encryption ephemeral,
      )

  -- What anybody encrypts for the public encryption key and the address of a key pair is what the
  -- key pair decrypts, for every text, ephemeral key and initial vector of 16 bytes.
  pub decrypt_from-encrypt_for :
      (keys : Keys) (ephemeral iv plaintext : Bytes)
      → length iv ≡ 16
      → (do
        ciphertext ←
            encrypt_for k c ephemeral iv (encryption_key k keys) (rns_address k keys) plaintext
        decrypt_from k c keys ciphertext)
        ≡ ok plaintext
  unfolding encrypt_for
  decrypt_from-encrypt_for keys ephemeral iv plaintext l =
      let d =
        new_derived_key k (k.diffie_hellman ephemeral (encryption_key k keys))
          (some (rns_address k keys)) in
      rw
        (
          agree-encrypt c d cipher iv plaintext,
          decrypt_from-parts keys ephemeral (TokenModule.encrypt c iv plaintext d.key)
              (length-encrypt c d cipher iv plaintext l),
        )
        (decrypt-encrypt_fernet c d cipher iv plaintext l)

  -- What is encrypted for the Ed25519 key of a key pair, under any address, is what the key pair
  -- decrypts with the seed of that key under the same address.
  pub decrypt_packet-encrypt_packet :
      (keys : Keys) (ephemeral iv plaintext hash : Bytes)
      → length iv ≡ 16
      → (do
        encrypted ← encrypt_packet k c ephemeral iv plaintext (identity_key_bytes k keys) hash
        decrypt_packet k c encrypted keys hash)
        ≡ ok plaintext
  unfolding encrypt_packet decrypt_packet ed25519_pub_to_x25519 ed25519_secret_to_x25519
  decrypt_packet-encrypt_packet keys ephemeral iv plaintext hash l =
      let public = k.public_of ephemeral in
      let scalar = rfc_clamp (take 32 (k.sha512 keys.signing)) in
      let key = packet_key k c (k.diffie_hellman ephemeral (k.public_of scalar)) hash in
      let token = TokenModule.encrypt c iv plaintext key in
      rw (
        curve.public_point keys.signing,
        curve.montgomery keys.signing,
        clamp_lem (take 32 (k.sha512 keys.signing)) (curve.bytes_sha512 keys.signing),
        ltb_of_le (length (public ++ token)) 33 (
            omega (
              arith,
              length-append public token,
              curve.length_public ephemeral,
              length-encrypt c (record { key = key }) cipher iv plaintext l,
            )),
        slice-append {E = CryptoError} [] public token 0 32 refl
            (omega (arith, curve.length_public ephemeral)),
        slice_from-append {E = CryptoError} public token 32 (curve.length_public ephemeral),
        curve.agreement scalar ephemeral,
        TokenModule.decrypt-encrypt c cipher iv plaintext key l,
      )
