-- ===== src/Icn/Name/Codec.antt =====
-- Names on the wire: what is written is read back, and what is read need not be a producer's name.
use mathlib.Core.List.{append_assoc}
use rsticulum.Prelude.{
  ◌*◌, ℕ, ◌+◌, ◌%◌, ◌<◌, ◌≤◌, ◌≡◌, ◌≢◌, refl, arith, Option, none, some, List, [], ◌∷◌, ◌++◌, Bytes,
  length, length-append, drop, take-append, drop-append, take_all, All, ltb_of_le, ==_ne, ok, panic,
}
use rsticulum.Icn.Name.{
  Name, write_components, write_hash, read_components, read_hash, to_bytes, from_bytes,
  producer_hash, first_as_hash, max_components, len,
}

abbrev HashFits : Option Bytes → Type 0
HashFits none = Unit
HashFits (some hash) = length hash ≡ 32

-- At least one component and at most 32, each of at most 255 bytes; a content hash has 32.
pub record IsValid (n : Name) : Type 0 where
  pub nonempty : 0 < len n
  pub few : len n ≤ max_components
  pub short : All (λ (c : Bytes). length c < 256) n.components
  pub hash_fits : HashFits n.content_hash

read-write_components :
    (cs : List Bytes) (got pos : ℕ) (tail : Bytes)
    → All (λ (c : Bytes). length c < 256) cs
    → read_components (length cs) got pos (write_components cs ++ tail)
      ≡ ok (cs, record { pos = pos + length (write_components cs); rest = tail })
unfolding read_components write_components
read-write_components [] got pos tail h = ground arith
read-write_components (c ∷ cs) got pos tail (h, hs) =
    let written = write_components cs in
    let m : length c % 256 ≡ length c = omega arith in
    rw
      (
        m,
        append_assoc c written tail,
        ltb_of_le (length (c ++ (written ++ tail))) (length c)
            (omega (arith, length-append c (written ++ tail))),
        take-append c (written ++ tail) (length c) refl,
        drop-append c (written ++ tail) (length c) refl,
        read-write_components cs got (pos + 1 + length c) tail hs,
      )
      (ground (arith, length-append c written))

read-write_hash :
    (hash : Option Bytes) (got pos : ℕ)
    → HashFits hash
    → read_hash got pos (write_hash hash) ≡ ok hash
unfolding read_hash write_hash
read-write_hash none got pos h = refl
read-write_hash (some hash) got pos h =
    rw (ltb_of_le (length hash) 32 (omega arith), take_all hash 32 (omega arith))

-- A valid name is read back from its wire form.
pub from_bytes-to_bytes_name : (n : Name) → IsValid n → from_bytes (to_bytes n) ≡ ok n
unfolding from_bytes to_bytes
from_bytes-to_bytes_name n v =
    let written = write_components n.components in
    let m : length n.components % 256 ≡ length n.components = omega arith in
    rw (
      m,
      ==_ne (length n.components) 0 (λ e. absurd (omega arith)),
      ltb_of_le max_components (length n.components) v.few,
      read-write_components n.components (length (written ++ write_hash n.content_hash) + 1) 1
          (write_hash n.content_hash) v.short,
      read-write_hash n.content_hash (length (written ++ write_hash n.content_hash) + 1)
          (1 + length written) v.hash_fits,
    )

drop_all : (xs : Bytes) → drop (length xs) xs ≡ []
drop_all [] = refl
drop_all (x ∷ xs) = drop_all xs

-- The parser takes any first component. A name that came over the wire with a first component of
-- another length than 32 is accepted, and asking for its producer's hash panics.
pub producer_hash_panics :
    (c : Bytes)
    → length c < 256
    → length c ≢ 32
    → (from_bytes (1 ∷ length c ∷ c) ≡ ok (record { components = c ∷ []; content_hash = none }))
      × (producer_hash (record { components = c ∷ []; content_hash = none }) ≡ panic)
unfolding from_bytes read_components read_hash first_as_hash
producer_hash_panics c short other = (
  rw (
    ltb_of_le (length c) (length c) (omega arith),
    take_all c (length c) (omega arith),
    drop_all c,
  ),
  rw (==_ne (length c) 32 other),
)

length-write_components :
    (cs : List Bytes)
    → All (λ (c : Bytes). length c < 256) cs
    → length (write_components cs) ≤ 256 * length cs
unfolding write_components
length-write_components [] h = omega arith
length-write_components (c ∷ cs) (h, hs) =
    omega (arith, length-append c (write_components cs), length-write_components cs hs)

length-write_hash : (hash : Option Bytes) → HashFits hash → length (write_hash hash) ≤ 33
unfolding write_hash
length-write_hash none h = omega arith
length-write_hash (some hash) h = omega arith

-- The wire form of a valid name is short.
pub length-to_bytes_name : (n : Name) → IsValid n → length (to_bytes n) ≤ 8226
unfolding to_bytes
length-to_bytes_name n v = omega (
  arith,
  length-append (write_components n.components) (write_hash n.content_hash),
  length-write_components n.components v.short,
  length-write_hash n.content_hash v.hash_fits,
  v.few,
)
