-- ===== src/Crypto/Hkdf.antt =====
-- crates/crypto/src/hkdf.rs: HKDF-SHA256.
use rsticulum.Prelude.{
  ℕ, zero, suc, ◌+◌, ◌*◌, ◌/◌, ◌%◌, ◌≤◌, ◌≡◌, refl, arith, Option, none, some, [], ◌∷◌, ◌++◌, Bytes,
  length, take, replicate, length-append, length-take, min,
}

-- `match salt { Some(s) if !s.is_empty() => s, _ => &[0u8; 32] }`
abbrev salt_or_zeros : Option Bytes → Bytes
salt_or_zeros none = replicate 32 0
salt_or_zeros (some []) = replicate 32 0
salt_or_zeros (some (b ∷ bs)) = b ∷ bs

-- `context.unwrap_or(&[])`
abbrev context_or_empty : Option Bytes → Bytes
context_or_empty none = []
context_or_empty (some bs) = bs

module _ (hmac : Bytes → Bytes → Bytes) where
  -- The loop over `i`, with the rounds left; `t_prev` is the last block.
  expand : Bytes → Bytes → ℕ → ℕ → Bytes → Bytes
  expand prk context zero i t_prev = []
  expand prk context (suc rounds) i t_prev =
      let t_i = hmac prk (t_prev ++ (context ++ i ∷ [])) in
      t_i ++ expand prk context rounds (i + 1) t_i

  -- `for i in 1..=n as u8` runs `n % 256` times.
  unfoldable pub hkdf_sha256 : ℕ → Bytes → Option Bytes → Option Bytes → Bytes
  unfolding expand
  hkdf_sha256 count derive_from salt context =
      let prk = hmac (salt_or_zeros salt) derive_from in
      let n = (count + 31) / 32 in take count (expand prk (context_or_empty context) (n % 256) 1 [])

  module _ (length_hmac : (key text : Bytes) → length (hmac key text) ≡ 32) where
    length-expand :
        (prk context : Bytes) (rounds i : ℕ) (t_prev : Bytes)
        → length (expand prk context rounds i t_prev) ≡ 32 * rounds
    unfolding expand
    length-expand prk context zero i t_prev = refl
    length-expand prk context (suc rounds) i t_prev =
        let t_i = hmac prk (t_prev ++ (context ++ i ∷ [])) in
        omega (
          arith,
          length-append t_i (expand prk context rounds (i + 1) t_i),
          length_hmac prk (t_prev ++ (context ++ i ∷ [])),
          length-expand prk context rounds (i + 1) t_i,
        )

    -- With a 32-byte MAC the derived key has the length that was asked for up to 255 blocks, that
    -- is 8160 bytes. Beyond that the block counter wraps and the result is short: its length is the
    -- smaller of what was asked for and 32 bytes for each of the blocks, their number modulo 256.
    pub length-hkdf_sha256 :
        (count : ℕ) (derive_from : Bytes) (salt context : Option Bytes)
        → (length (hkdf_sha256 count derive_from salt context)
            ≡ min count (32 * ((count + 31) / 32 % 256)))
          × (count ≤ 8160 → length (hkdf_sha256 count derive_from salt context) ≡ count)
    unfolding hkdf_sha256
    length-hkdf_sha256 count derive_from salt context =
        let prk = hmac (salt_or_zeros salt) derive_from in
        let blocks = expand prk (context_or_empty context) ((count + 31) / 32 % 256) 1 [] in
        let cut = length-take count blocks in
        let all = length-expand prk (context_or_empty context) ((count + 31) / 32 % 256) 1 [] in
        (omega (arith, cut, all), λ h. omega (arith, cut, all))
