-- ===== src/Icn/Name.antt =====
-- crates/icn/src/name.rs: names, a list of components (the producer's hash first) and an optional
-- content hash.
pub mod Prefixes
pub mod Codec
use rsticulum.Prelude.{
  ℕ, zero, suc, ◌+◌, ◌%◌, ◌≡◌, Bool, true, false, ◌&&◌, ◌||◌, Option, none, some, List, [], ◌∷◌,
  ◌++◌, Bytes, length, take, drop, ltb, ◌==◌, if◌then◌else◌, same, Result, ok, err, panic, ◌>>=◌,
}

pub data NameError : Type 0 where
  empty component_too_long : NameError
  buffer_too_short : ℕ → ℕ → NameError
  missing_hash_discriminator : NameError

abbrev pub max_components : ℕ
max_components = 32

abbrev pub hash_discriminator : ℕ
hash_discriminator = 0xFF

pub record Name : Type 0 where
  pub components : List Bytes
  pub content_hash : Option Bytes

unfoldable pub new : Bytes → List Bytes → Name
new producer_hash path = record { components = producer_hash ∷ path; content_hash = none }

unfoldable pub with_content_hash : Name → Bytes → Name
with_content_hash n hash = record n { content_hash = some hash }

-- `self.components[0].as_slice().try_into().expect(…)`
unfoldable pub first_as_hash : List Bytes → Result NameError Bytes
first_as_hash [] = panic
first_as_hash (c ∷ cs) = if length c == 32 then ok c else panic

abbrev pub producer_hash : Name → Result NameError Bytes
producer_hash n = first_as_hash n.components

abbrev pub len : Name → ℕ
len n = length n.components

unfoldable pub is_root : Name → Bool
is_root n = len n == 1

-- The loop over the zipped components.
unfoldable pub zip_all_same : List Bytes → List Bytes → Bool
zip_all_same [] ps = true
zip_all_same (a ∷ xs) [] = true
zip_all_same (a ∷ xs) (b ∷ ys) = same a b && zip_all_same xs ys

unfoldable pub starts_with : Name → Name → Bool
unfolding zip_all_same
starts_with n prefix =
    if ltb (len n) (len prefix) then false else zip_all_same n.components prefix.components

unfoldable pub is_prefix_of : Name → Name → Bool
unfolding starts_with
is_prefix_of n other = starts_with other n

unfoldable pub write_components : List Bytes → Bytes
write_components [] = []
write_components (c ∷ cs) = length c % 256 ∷ (c ++ write_components cs)

unfoldable pub write_hash : Option Bytes → Bytes
write_hash none = []
write_hash (some hash) = hash_discriminator ∷ hash

unfoldable pub to_bytes : Name → Bytes
unfolding write_components write_hash
to_bytes n =
    length n.components % 256 ∷ (write_components n.components ++ write_hash n.content_hash)

-- The position in the input, and the input from there on.
pub record Cursor : Type 0 where
  pub pos : ℕ
  pub rest : Bytes

-- `count` rounds of the loop; `got` is the length of the input.
unfoldable pub read_components : ℕ → ℕ → ℕ → Bytes → Result NameError (List Bytes × Cursor)
read_components zero got pos rest = ok ([], record { pos = pos; rest = rest })
read_components (suc count) got pos [] = err (buffer_too_short (pos + 1) got)
read_components (suc count) got pos (n ∷ rest) =
    if ltb (length rest) n then err (buffer_too_short (pos + 1 + n) got) else do
      (components, cursor) ← read_components count got (pos + 1 + n) (drop n rest)
      ok (take n rest ∷ components, cursor)

unfoldable pub read_hash : ℕ → ℕ → Bytes → Result NameError (Option Bytes)
read_hash got pos [] = ok none
read_hash got pos (b ∷ rest) =
    if b == hash_discriminator
    then if ltb (length rest) 32
      then err (buffer_too_short (pos + 1 + 32) got)
      else ok (some (take 32 rest))
    else ok none

unfoldable pub from_bytes : Bytes → Result NameError Name
unfolding read_components read_hash
from_bytes [] = err empty
from_bytes (count ∷ rest) = if count == 0 || ltb max_components count then err empty else do
  let got = length rest + 1
  (components, cursor) ← read_components count got 1 rest
  content_hash ← read_hash got cursor.pos cursor.rest
  ok (record { components = components; content_hash = content_hash })
