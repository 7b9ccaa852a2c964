-- ===== src/Identity/Encryption/Tokens.antt =====
-- crates/identity/src/crypto.rs and crates/crypto/src/token.rs: the two implementations of the same
-- token.
use mathlib.Core.List.{append_assoc}
use rsticulum.Prelude.{
  ◌+◌, ◌-◌, ◌*◌, ◌/◌, ◌<◌, ◌≤◌, ◌≡◌, ◌≢◌, refl, sym, ap, ◌∙◌, arith, inl, inr, true, not, [], ◌++◌,
  Bytes, length, take, drop, length-append, length-take, length-drop, take-append-drop, ltb, ltb→lt,
  lt→ltb, ltb_of_le, ◌==◌, ==_iff, same, if◌then◌else◌, Bool-cases, ok, err, map_err, slice-append,
  slice_from-append,
}
use rsticulum.Crypto.Cipher.{Cipher, IsCipher}
use rsticulum.Crypto.Token.{TokenError, too_short, bad_hmac, decrypt_parts, decrypt_short, unsealed}
use rsticulum.Crypto.Token as TokenModule
use rsticulum.Identity.Encryption.{
  CryptoError, decryption, token_too_short, hmac_verification, decryption_failed, DerivedKey,
  from_derived_key, encrypt, decrypt,
}
use rsticulum.Identity.Encryption as EncryptionModule

-- The error that the one reports where the other reports it.
abbrev pub as_crypto_error : TokenError → CryptoError
as_crypto_error too_short = decryption token_too_short
as_crypto_error bad_hmac = decryption hmac_verification
as_crypto_error TokenModule.decryption_failed = decryption decryption_failed

module _ (c : Cipher) (d : DerivedKey) where
  decrypt_parts_fernet :
      (iv ciphertext tag : Bytes)
      → length iv ≡ 16
      → length tag ≡ 32
      → 0 < length ciphertext
      → decrypt c (from_derived_key d) (iv ++ (ciphertext ++ tag)) ≡ (
          if not (same (c.hmac (take 16 d.key) (iv ++ ciphertext)) tag)
          then err (decryption hmac_verification)
          else EncryptionModule.unsealed c (c.unseal (drop 16 d.key) iv ciphertext))
  unfolding decrypt
  decrypt_parts_fernet iv ciphertext tag l k some_text =
      let n : length (iv ++ (ciphertext ++ tag)) ≡ length ciphertext + 48 =
        omega (arith, length-append iv (ciphertext ++ tag), length-append ciphertext tag) in
      let m : length ciphertext + 48 - 32 ≡ 16 + length ciphertext = omega arith in
      rw (
        n,
        ltb_of_le (length ciphertext + 48) 49 (omega arith),
        m,
        slice-append {E = CryptoError} [] iv (ciphertext ++ tag) 0 16 refl (omega arith),
        slice-append {E = CryptoError} iv ciphertext tag 16 (16 + length ciphertext) l refl,
        ← append_assoc iv ciphertext tag,
        slice_from-append {E = CryptoError} (iv ++ ciphertext) tag (16 + length ciphertext)
            (omega (arith, length-append iv ciphertext)),
        slice-append {E = CryptoError} [] (iv ++ ciphertext) tag 0 (16 + length ciphertext) refl
            (omega (arith, length-append iv ciphertext)),
      )

  decrypt_short_fernet :
      (token : Bytes)
      → length token < 49
      → decrypt c (from_derived_key d) token ≡ err (decryption token_too_short)
  unfolding decrypt
  decrypt_short_fernet token h = rw (lt→ltb (length token) 49 h)

  agree-parts :
      (iv ciphertext tag : Bytes)
      → length iv ≡ 16
      → length tag ≡ 32
      → 0 < length ciphertext
      → decrypt c (from_derived_key d) (iv ++ (ciphertext ++ tag))
        ≡ map_err as_crypto_error (TokenModule.decrypt c (iv ++ (ciphertext ++ tag)) d.key)
  unfolding unsealed
  agree-parts iv ciphertext tag l k some_text =
      rw
        (
          decrypt_parts_fernet iv ciphertext tag l k some_text,
          decrypt_parts c iv ciphertext tag d.key l k,
        )
        (ground arith)

  agree-decrypt :
      (token : Bytes)
      → length token ≢ 48
      → decrypt c (from_derived_key d) token
        ≡ map_err as_crypto_error (TokenModule.decrypt c token d.key)
  agree-decrypt token other = elim (Bool-cases (ltb (length token) 49)) [
    | inl short ↦
        let below : length token < 48 = ground (arith, ltb→lt (length token) 49 short) in
        decrypt_short_fernet token (omega (arith, below))
        ∙ ap (map_err as_crypto_error) (sym (decrypt_short c token d.key below))
    | inr long ↦
        let rest = drop 16 token in
        let n = length token - 48 in
        let cut : take 16 token ++ (take n rest ++ drop n rest) ≡ token =
          ap (λ r. take 16 token ++ r) (take-append-drop n rest) ∙ take-append-drop 16 token in
        let size : 49 ≤ length token = ground arith in
        rw cut at (
          agree-parts (take 16 token) (take n rest) (drop n rest)
            (omega (arith, length-take 16 token))
            (omega (arith, length-drop n rest, length-drop 16 token))
            (omega (arith, length-take n rest, length-drop 16 token)))
  ]

  module _ (laws : IsCipher c) where
    pub agree-encrypt :
        (iv plaintext : Bytes)
        → encrypt c (from_derived_key d) iv plaintext
          ≡ ok (TokenModule.encrypt c iv plaintext d.key)
    unfolding encrypt TokenModule.encrypt
    agree-encrypt iv plaintext =
        let padded = laws.length_seal (drop 16 d.key) iv plaintext in
        let test : (length (c.seal (drop 16 d.key) iv plaintext)
              == (length plaintext / 16 + 1) * 16)
            ≡ true =
          (==_iff _ _).1 padded in
        rw test

    -- The two implementations agree. Under a derived key the one encrypts every text to the token
    -- of the other, and decrypts every token, other than one of exactly 48 bytes, to what the other
    -- does, or fails where it fails for the same reason.
    pub from_derived_key_lem :
        (iv plaintext token : Bytes)
        → length token ≢ 48
        → (encrypt c (from_derived_key d) iv plaintext
            ≡ ok (TokenModule.encrypt c iv plaintext d.key))
          × (decrypt c (from_derived_key d) token
              ≡ map_err as_crypto_error (TokenModule.decrypt c token d.key))
    from_derived_key_lem iv plaintext token other =
        (agree-encrypt iv plaintext, agree-decrypt token other)

    pub length-encrypt :
        (iv plaintext : Bytes)
        → length iv ≡ 16
        → 64 ≤ length (TokenModule.encrypt c iv plaintext d.key)
    unfolding TokenModule.encrypt
    length-encrypt iv plaintext l =
        let ciphertext = c.seal (drop 16 d.key) iv plaintext in
        omega (
          arith,
          length-append iv (ciphertext ++ c.hmac (take 16 d.key) (iv ++ ciphertext)),
          length-append ciphertext (c.hmac (take 16 d.key) (iv ++ ciphertext)),
          laws.length_hmac (take 16 d.key) (iv ++ ciphertext),
          laws.length_seal (drop 16 d.key) iv plaintext,
        )

    pub decrypt-encrypt_fernet :
        (iv plaintext : Bytes)
        → length iv ≡ 16
        → decrypt c (from_derived_key d) (TokenModule.encrypt c iv plaintext d.key) ≡ ok plaintext
    decrypt-encrypt_fernet iv plaintext l =
        agree-decrypt (TokenModule.encrypt c iv plaintext d.key)
          (λ e. absurd (omega (arith, e, length-encrypt iv plaintext l)))
        ∙ ap (map_err as_crypto_error) (TokenModule.decrypt-encrypt c laws iv plaintext d.key l)
