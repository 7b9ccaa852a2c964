-- ===== src/Crypto/Cipher.antt =====
-- AES-128 in CBC mode with PKCS#7 padding, and HMAC-SHA256: code of other packages, taken as
-- functions of the key, the initial vector and the text, with what their documentation promises.
use rsticulum.Prelude.{
  ℕ, ◌+◌, ◌-◌, ◌*◌, ◌/◌, ◌%◌, ◌≡◌, refl, ap, arith, Option, none, some, [], ◌∷◌, ◌++◌, Bytes,
  length, drop, replicate, length-append, length-replicate, drop-append,
}

pub record Cipher : Type 0 where
  pub hmac : Bytes → Bytes → Bytes
  pub seal : Bytes → Bytes → Bytes → Bytes
  -- `none` where the padding or the length of the ciphertext is wrong.
  pub unseal : Bytes → Bytes → Bytes → Option Bytes

pub record IsCipher (c : Cipher) : Type 0 where
  pub length_hmac : (key text : Bytes) → length (c.hmac key text) ≡ 32
  pub unseal_seal : (key iv text : Bytes) → c.unseal key iv (c.seal key iv text) ≡ some text
  -- PKCS#7 always adds between 1 and 16 bytes.
  pub length_seal :
      (key iv text : Bytes) → length (c.seal key iv text) ≡ (length text / 16 + 1) * 16

-- A cipher that only pads, to show that the promises can be kept.
abbrev pub toy_pad : Bytes → ℕ
toy_pad text = 16 - length text % 16

abbrev pub toy_unseal : Bytes → Option Bytes
toy_unseal [] = none
toy_unseal (pad ∷ rest) = some (drop (pad - 1) rest)

abbrev pub toy : Cipher
toy = record {
  hmac = λ key text. replicate 32 0;
  seal = λ key iv text. toy_pad text ∷ (replicate (toy_pad text - 1) 0 ++ text);
  unseal = λ key iv text. toy_unseal text;
}

pub toy-IsCipher : IsCipher toy
toy-IsCipher = record {
  length_hmac = λ key text. refl;
  unseal_seal = λ key iv text. ap some (
      drop-append (replicate (toy_pad text - 1) 0) text (toy_pad text - 1)
        (length-replicate (toy_pad text - 1) 0));
  length_seal = λ key iv text. omega (
    arith,
    length-append (replicate (toy_pad text - 1) 0) text,
    length-replicate {A = ℕ} (toy_pad text - 1) 0,
  );
}
