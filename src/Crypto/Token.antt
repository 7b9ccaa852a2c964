-- ===== src/Crypto/Token.antt =====
-- crates/crypto/src/token.rs: authenticated tokens, `iv ++ ciphertext ++ hmac`.
use mathlib.Core.List.{append_assoc}
use rsticulum.Prelude.{
  ◌+◌, ◌-◌, ◌≤◌, ◌≡◌, refl, sym, ◌∙◌, ap, arith, not, Option, none, some, [], ◌++◌, Bytes, length,
  take, drop, length-append, length-take, length-drop, take-append-drop, ltb, ltb_of_le,
  if◌then◌else◌, same, same_iff, Result, ok, err, ok≢err, ltb→lt, lt→ltb, ◌<◌, ◌>>=◌, slice,
  slice_from, slice-append, slice_from-append, inl, inr, Bool-cases,
}
use rsticulum.Crypto.Cipher.{Cipher, IsCipher}

pub data TokenError : Type 0 where
  too_short bad_hmac decryption_failed : TokenError

module _ (c : Cipher) where
  -- The random initial vector is an argument.
  unfoldable pub encrypt : Bytes → Bytes → Bytes → Bytes
  encrypt iv plaintext key =
      let signing_key = take 16 key in
      let encryption_key = drop 16 key in
      let ciphertext = c.seal encryption_key iv plaintext in
      iv ++ (ciphertext ++ c.hmac signing_key (iv ++ ciphertext))

  -- `.map_err(|_| DecryptionFailed)?`
  unfoldable pub unsealed : Option Bytes → Result TokenError Bytes
  unsealed none = err decryption_failed
  unsealed (some plaintext) = ok plaintext

  unfoldable pub decrypt : Bytes → Bytes → Result TokenError Bytes
  unfolding unsealed
  decrypt token key = if ltb (length token) 48 then err too_short else do
    let ciphertext_len = length token - 48
    iv ← slice token 0 16
    ciphertext ← slice token 16 (16 + ciphertext_len)
    expected_hmac ← slice_from token (16 + ciphertext_len)
    let computed_hmac = c.hmac (take 16 key) (iv ++ ciphertext)
    if not (same computed_hmac expected_hmac)
        then err bad_hmac
        else unsealed (c.unseal (drop 16 key) iv ciphertext)

  pub decrypt_parts :
      (iv ciphertext tag key : Bytes)
      → length iv ≡ 16
      → length tag ≡ 32
      → decrypt (iv ++ (ciphertext ++ tag)) key ≡ (
          if not (same (c.hmac (take 16 key) (iv ++ ciphertext)) tag)
          then err bad_hmac
          else unsealed (c.unseal (drop 16 key) iv ciphertext))
  unfolding decrypt
  decrypt_parts iv ciphertext tag key l k =
      let n : length (iv ++ (ciphertext ++ tag)) ≡ length ciphertext + 48 =
        omega (arith, length-append iv (ciphertext ++ tag), length-append ciphertext tag) in
      let m : 16 + (length ciphertext + 48 - 48) ≡ 16 + length ciphertext = omega arith in
      rw (
        n,
        ltb_of_le (length ciphertext + 48) 48 (omega arith),
        m,
        slice-append {E = TokenError} [] iv (ciphertext ++ tag) 0 16 refl (omega arith),
        slice-append {E = TokenError} iv ciphertext tag 16 (16 + length ciphertext) l refl,
        ← append_assoc iv ciphertext tag,
        slice_from-append {E = TokenError} (iv ++ ciphertext) tag (16 + length ciphertext)
            (omega (arith, length-append iv ciphertext)),
      )

  module _ (laws : IsCipher c) where
    -- A token that is decrypted with the key that made it gives the plaintext back, for every
    -- plaintext, key and initial vector of 16 bytes.
    pub decrypt-encrypt :
        (iv plaintext key : Bytes)
        → length iv ≡ 16
        → decrypt (encrypt iv plaintext key) key ≡ ok plaintext
    unfolding encrypt unsealed
    decrypt-encrypt iv plaintext key l =
        let ciphertext = c.seal (drop 16 key) iv plaintext in
        let tag = c.hmac (take 16 key) (iv ++ ciphertext) in
        decrypt_parts iv ciphertext tag key l (laws.length_hmac _ _)
        ∙ rw ((same_iff tag tag).1 refl, laws.unseal_seal (drop 16 key) iv plaintext)

  pub decrypt_short : (token key : Bytes) → length token < 48 → decrypt token key ≡ err too_short
  unfolding decrypt
  decrypt_short token key h = rw (lt→ltb (length token) 48 h)

  -- The initial vector, the ciphertext and the tag of a token, and what accepting it means.
  pub record Authentic (token key plaintext : Bytes) : Type 0 where
    pub iv : Bytes
    pub ciphertext : Bytes
    pub length_iv : length iv ≡ 16
    pub made_of : token ≡ iv ++ (ciphertext ++ c.hmac (take 16 key) (iv ++ ciphertext))
    pub opens : c.unseal (drop 16 key) iv ciphertext ≡ some plaintext

  Authentic-parts :
      (iv ciphertext tag key plaintext : Bytes)
      → length iv ≡ 16
      → (if not (same (c.hmac (take 16 key) (iv ++ ciphertext)) tag)
          then err bad_hmac
          else unsealed (c.unseal (drop 16 key) iv ciphertext))
        ≡ ok plaintext
      → Authentic (iv ++ (ciphertext ++ tag)) key plaintext
  unfolding unsealed
  Authentic-parts iv ciphertext tag key plaintext l h = record {
    iv = iv;
    ciphertext = ciphertext;
    length_iv = l;
    made_of =
        let tag_is : tag ≡ c.hmac (take 16 key) (iv ++ ciphertext) =
          ground (arith, same_iff (c.hmac (take 16 key) (iv ++ ciphertext)) tag) in
        ap (λ t. iv ++ (ciphertext ++ t)) tag_is;
    opens = ground arith;
  }

  -- What `decrypt` accepts is 16 bytes of initial vector, a ciphertext, and the MAC of these two
  -- under the first half of the key; the plaintext is what the second half of the key opens that
  -- ciphertext to. No byte of an accepted token is unauthenticated.
  pub decrypt-Authentic :
      (token key plaintext : Bytes)
      → decrypt token key ≡ ok plaintext
      → Authentic token key plaintext
  decrypt-Authentic token key plaintext h = elim (Bool-cases (ltb (length token) 48)) [
    | inl short ↦ absurd (ok≢err (sym h ∙ decrypt_short token key (ltb→lt _ _ short)))
    | inr long ↦
        let rest = drop 16 token in
        let n = length token - 48 in
        let cut : take 16 token ++ (take n rest ++ drop n rest) ≡ token =
          ap (λ r. take 16 token ++ r) (take-append-drop n rest) ∙ take-append-drop 16 token in
        let size : 48 ≤ length token = ground arith in
        let l : length (take 16 token) ≡ 16 = omega (arith, length-take 16 token) in
        let k : length (drop n rest) ≡ 32 =
          omega (arith, length-drop n rest, length-drop 16 token) in
        rw cut at (
          Authentic-parts (take 16 token) (take n rest) (drop n rest) key plaintext l (
            sym (decrypt_parts (take 16 token) (take n rest) (drop n rest) key l k)
            ∙ ap (λ t. decrypt t key) cut
            ∙ h))
  ]
