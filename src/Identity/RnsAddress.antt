-- ===== src/Identity/RnsAddress.antt =====
-- crates/identity/src/rns_address.rs and error.rs. SHA-256 is code of another package: a
-- parameter of the two derivations.
use rsticulum.Prelude.{
  ℕ, ◌≡◌, ◌↔◌, arith, length, Bytes, ◌==◌, if◌then◌else◌, Result, ok, err, ◌>>=◌, slice,
}
use native.Mathlib.Decide.{ℕ_discrete}

abbrev pub rns_address_len : ℕ
rns_address_len = 16

-- `InvalidLength` of `IdentityError`, with the type's name left out.
pub data IdentityError : Type 0 where
  invalid_length : ℕ → ℕ → IdentityError

pub record RnsAddress : Type 0 where
  pub bytes : Bytes

pub RnsAddress-discrete : Discrete RnsAddress
RnsAddress-discrete = hlevel ℕ_discrete

-- `[u8; 16]` has its length by its type.
abbrev pub IsAddress : RnsAddress → Type 0
IsAddress a = length a.bytes ≡ rns_address_len

unfoldable pub from_bytes : Bytes → Result IdentityError RnsAddress
from_bytes bs =
    if length bs == rns_address_len
    then ok (record { bytes = bs })
    else err (invalid_length rns_address_len (length bs))

-- `SHA-256(key)[..16]`, of the Ed25519 key or of the whole public key.
unfoldable pub from_key : (Bytes → Bytes) → Bytes → Result IdentityError RnsAddress
from_key sha256 key = do hash ← slice (sha256 key) 0 rns_address_len; ok (record { bytes = hash })

-- `from_bytes` accepts exactly the strings of 16 bytes, and returns the address that holds them.
pub from_bytes_iff :
    (bs : Bytes) (a : RnsAddress)
    → (from_bytes bs ≡ ok a) ↔ ((a ≡ record { bytes = bs }) × (length bs ≡ rns_address_len))
unfolding from_bytes
from_bytes_iff bs a = ground arith
