-- ===== src/Icn/Metadata.antt =====
-- crates/icn/src/interest.rs: the metadata of a data packet and its wire form. A `Duration` is its
-- nanoseconds.
pub mod Codec
use rsticulum.Prelude.{
  ℕ, ◌*◌, ◌/◌, ◌^◌, ◌<◌, ◌≤◌, ◌≡◌, refl, sym, ap, ◌∙◌, arith, Bool, true, false, Option, none, some,
  [], ◌∷◌, ◌++◌, Bytes, length, take, drop, take-append, drop-append, length-append, ltb, ltb_of_le,
  if◌then◌else◌, to_be_bytes, from_be_bytes, from-to_be_bytes, length-to_be_bytes, Result, ok, err,
  ◌>>=◌,
}
use mathlib.Core.List.{append-nil}
use rsticulum.Icn.Selector.{has, with_flag, is_some}

pub data DataError : Type 0 where
  buffer_too_short invalid_name invalid_signature : DataError

pub data Freshness : Type 0 where
  fresh : Freshness
  stale : ℕ → Freshness

pub record DataMetadata : Type 0 where
  pub content_hash : Option Bytes
  pub sequence : Option ℕ
  pub freshness : Freshness

abbrev pub ns_per_second : ℕ
ns_per_second = 10 ^ 9

abbrev has_age : Freshness → Bool
has_age fresh = false
has_age (stale age) = true

abbrev bytes_of : Option Bytes → Bytes
bytes_of none = []
bytes_of (some bs) = bs

abbrev sequence_field : Option ℕ → Option Bytes
sequence_field none = none
sequence_field (some seq) = some (to_be_bytes 8 seq)

-- `age.as_secs().to_be_bytes()`
abbrev age_field : Freshness → Option Bytes
age_field fresh = none
age_field (stale age) = some (to_be_bytes 8 (age / ns_per_second))

unfoldable pub to_bytes : DataMetadata → Bytes
to_bytes m =
    with_flag (with_flag (with_flag 0 (is_some m.content_hash) 0x01) (is_some m.sequence) 0x02)
        (has_age m.freshness) 0x04
      ∷ bytes_of m.content_hash
    ++ (bytes_of (sequence_field m.sequence) ++ bytes_of (age_field m.freshness))

-- `n` bytes, and what follows them.
unfoldable pub read_exact : ℕ → Bytes → Result DataError (Bytes × Bytes)
read_exact n bs = if ltb (length bs) n then err buffer_too_short else ok (take n bs, drop n bs)

-- A field that is there if its flag is set.
unfoldable read_optional : Bool → ℕ → Bytes → Result DataError (Option Bytes × Bytes)
unfolding read_exact
read_optional false n bs = ok (none, bs)
read_optional true n bs = do (field, rest) ← read_exact n bs; ok (some field, rest)

abbrev sequence_of : Option Bytes → Option ℕ
sequence_of none = none
sequence_of (some field) = some (from_be_bytes field)

abbrev freshness_of : Option Bytes → Freshness
freshness_of none = fresh
freshness_of (some field) = stale (from_be_bytes field * ns_per_second)

unfoldable pub from_bytes : Bytes → Result DataError DataMetadata
unfolding read_optional
from_bytes [] = err buffer_too_short
from_bytes (flags ∷ bs) = do
  (content_hash, after_hash) ← read_optional (has flags 0x01) 32 bs
  (sequence, after_sequence) ← read_optional (has flags 0x02) 8 after_hash
  (age, rest) ← read_optional (has flags 0x04) 8 after_sequence
  ok (record {
    content_hash = content_hash;
    sequence = sequence_of sequence;
    freshness = freshness_of age;
  })
