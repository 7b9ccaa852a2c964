-- ===== src/Transport/LinkData.antt =====
-- crates/transport/src/link.rs, `encrypt_link_data` and `decrypt_link_data`: the symmetric
-- encryption of an established link. Key and initial vector are both derived from the shared key
-- and the link id, so equal plaintexts on one link have equal ciphertexts.
use Prim.Native.Char.{code}
use Prim.Native.String.{String}
use rsticulum.Prelude.{
  ◌+◌, ◌-◌, ◌*◌, ◌/◌, ◌≡◌, refl, arith, not, Option, none, some, [], ◌∷◌, ◌++◌, Bytes, length, take,
  drop, length-append, take-append, drop-append, ltb, ltb_of_le, if◌then◌else◌, same, same_iff,
  Result, ok, err, ◌>>=◌, slice, slice_lem,
}
use rsticulum.Crypto.Cipher.{Cipher, IsCipher}
use rsticulum.Transport.Error.{TransportError}
use rsticulum.Crypto.Hkdf.{hkdf_sha256, length-hkdf_sha256}

-- The bytes of an ASCII literal.
abbrev pub ascii : String → Bytes
ascii String.[] = []
ascii (String.◌∷◌ c s) = code c ∷ ascii s

pub data LinkDataError : Type 0 where
  ciphertext_too_short hmac_failed decryption_failed : LinkDataError

module _ (c : Cipher) where
  pub derived : Bytes → Bytes → Bytes
  derived shared_key link_id =
      hkdf_sha256 c.hmac 32 shared_key (some link_id) (some (ascii "ReticulumLinkKey"))

  unfoldable pub encrypt_link_data : {E : Type 0} → Bytes → Bytes → Bytes → Result E Bytes
  unfolding derived
  encrypt_link_data plaintext shared_key link_id = do
    enc_key ← slice (derived shared_key link_id) 0 16
    iv ← slice (derived shared_key link_id) 16 32
    let encrypted = c.seal enc_key iv plaintext
    ok (encrypted ++ c.hmac enc_key encrypted)

  -- `.map_err(|e| format!("decryption failed: {e}"))?`
  decrypted : Option Bytes → Result LinkDataError Bytes
  decrypted none = err decryption_failed
  decrypted (some plaintext) = ok plaintext

  unfoldable pub decrypt_link_data : Bytes → Bytes → Bytes → Result LinkDataError Bytes
  unfolding derived decrypted
  decrypt_link_data data_with_hmac shared_key link_id =
      if ltb (length data_with_hmac) 32 then err ciphertext_too_short else do
        let at = length data_with_hmac - 32
        let ciphertext = take at data_with_hmac
        let hmac_received = drop at data_with_hmac
        enc_key ← slice (derived shared_key link_id) 0 16
        iv ← slice (derived shared_key link_id) 16 32
        if not (same (c.hmac enc_key ciphertext) hmac_received)
            then err hmac_failed
            else decrypted (c.unseal enc_key iv ciphertext)

  module _ (laws : IsCipher c) where
    length-derived : (shared_key link_id : Bytes) → length (derived shared_key link_id) ≡ 32
    unfolding derived
    length-derived shared_key link_id =
        (length-hkdf_sha256 c.hmac laws.length_hmac 32 shared_key _ _).1 (omega arith)

    abbrev pub key_of : Bytes → Bytes → Bytes
    key_of shared_key link_id = take 16 (derived shared_key link_id)

    abbrev pub iv_of : Bytes → Bytes → Bytes
    iv_of shared_key link_id = take 16 (drop 16 (derived shared_key link_id))

    abbrev pub sealed : Bytes → Bytes → Bytes → Bytes
    sealed plaintext shared_key link_id =
        let encrypted = c.seal (key_of shared_key link_id) (iv_of shared_key link_id) plaintext in
        encrypted ++ c.hmac (key_of shared_key link_id) encrypted

    slices :
        {E : Type 0} (shared_key link_id : Bytes)
        → (slice {E = E} (derived shared_key link_id) 0 16 ≡ ok (key_of shared_key link_id))
          × (slice {E = E} (derived shared_key link_id) 16 32 ≡ ok (iv_of shared_key link_id))
    slices shared_key link_id =
        let n = length-derived shared_key link_id in
        (
          slice_lem _ 0 16 (omega arith) (omega (arith, n)),
          slice_lem _ 16 32 (omega arith) (omega (arith, n)),
        )

    pub encrypt_link_data-sealed :
        {E : Type 0} (plaintext shared_key link_id : Bytes)
        → encrypt_link_data {E = E} plaintext shared_key link_id
          ≡ ok (sealed plaintext shared_key link_id)
    unfolding encrypt_link_data
    encrypt_link_data-sealed {E} plaintext shared_key link_id =
        rw ((slices {E = E} shared_key link_id).0, (slices {E = E} shared_key link_id).1)

    pub length-sealed :
        (plaintext shared_key link_id : Bytes)
        → length (sealed plaintext shared_key link_id) ≡ (length plaintext / 16 + 1) * 16 + 32
    length-sealed plaintext shared_key link_id =
        let encrypted = c.seal (key_of shared_key link_id) (iv_of shared_key link_id) plaintext in
        omega (
          arith,
          length-append encrypted (c.hmac (key_of shared_key link_id) encrypted),
          laws.length_hmac (key_of shared_key link_id) encrypted,
          laws.length_seal (key_of shared_key link_id) (iv_of shared_key link_id) plaintext,
        )

    pub decrypt_link_data-sealed :
        (plaintext shared_key link_id : Bytes)
        → decrypt_link_data (sealed plaintext shared_key link_id) shared_key link_id ≡ ok plaintext
    unfolding decrypt_link_data
    decrypt_link_data-sealed plaintext shared_key link_id =
        let key = key_of shared_key link_id in
        let encrypted = c.seal key (iv_of shared_key link_id) plaintext in
        let tag = c.hmac key encrypted in
        let n : length (encrypted ++ tag) ≡ length encrypted + 32 =
          omega (arith, length-append encrypted tag, laws.length_hmac key encrypted) in
        rw (
          n,
          ltb_of_le (length encrypted + 32) 32 (omega arith),
          take-append encrypted tag (length encrypted + 32 - 32) (omega arith),
          drop-append encrypted tag (length encrypted + 32 - 32) (omega arith),
          (slices {E = LinkDataError} shared_key link_id).0,
          (slices {E = LinkDataError} shared_key link_id).1,
          (same_iff tag tag).1 refl,
          laws.unseal_seal key (iv_of shared_key link_id) plaintext,
        )

    -- Encryption never fails or panics, adds a whole number of 16-byte blocks up to the next
    -- boundary and 32 bytes of MAC, and is undone by decryption with the same shared key and link id.
    pub decrypt-encrypt_link_data :
        (plaintext shared_key link_id : Bytes)
        → (sent : Bytes) × (encrypt_link_data {E = TransportError} plaintext shared_key link_id
            ≡ ok sent)
          × (length sent ≡ (length plaintext / 16 + 1) * 16 + 32)
          × (decrypt_link_data sent shared_key link_id ≡ ok plaintext)
    decrypt-encrypt_link_data plaintext shared_key link_id = (
      sealed plaintext shared_key link_id,
      encrypt_link_data-sealed plaintext shared_key link_id,
      length-sealed plaintext shared_key link_id,
      decrypt_link_data-sealed plaintext shared_key link_id,
    )
