-- ===== src/Icn/Metadata/Codec.antt =====
-- crates/icn/src/interest.rs: the metadata of a data packet is read back from its wire form.
use rsticulum.Prelude.{
  ℕ, ◌*◌, ◌/◌, ◌^◌, ◌<◌, ◌≤◌, ◌≡◌, refl, sym, ap, ◌∙◌, arith, Bool, true, false, Option, none, some,
  [], ◌++◌, Bytes, length, take-append, drop-append, length-append, ltb_of_le, to_be_bytes,
  from-to_be_bytes, length-to_be_bytes, ok,
}
use mathlib.Core.List.{append-nil}
use rsticulum.Icn.Selector.{has, with_flag, is_some}
use rsticulum.Icn.Metadata.{
  Freshness, fresh, stale, DataMetadata, ns_per_second, has_age, bytes_of, sequence_field,
  age_field, to_bytes, read_exact, read_optional, sequence_of, freshness_of, from_bytes,
}

abbrev Fits : ℕ → Option Bytes → Type 0
Fits n none = Unit
Fits n (some bs) = length bs ≡ n

abbrev SequenceFits : Option ℕ → Type 0
SequenceFits none = Unit
SequenceFits (some seq) = seq < 2 ^ 64

abbrev FreshnessFits : Freshness → Type 0
FreshnessFits fresh = Unit
FreshnessFits (stale age) = age / ns_per_second < 2 ^ 64

-- A hash of 32 bytes, and a sequence number and an age in seconds of 64 bits, where they are there.
pub record IsValid (m : DataMetadata) : Type 0 where
  pub hash_fits : Fits 32 m.content_hash
  pub sequence_fits : SequenceFits m.sequence
  pub freshness_fits : FreshnessFits m.freshness

-- The age cut to whole seconds.
abbrev pub whole_seconds : Freshness → Freshness
whole_seconds fresh = fresh
whole_seconds (stale age) = stale (age / ns_per_second * ns_per_second)

pub read_exact-append :
    (n : ℕ) (bs rest : Bytes) → length bs ≡ n → read_exact n (bs ++ rest) ≡ ok (bs, rest)
unfolding read_exact
read_exact-append n bs rest h = rw (
  ltb_of_le (length (bs ++ rest)) n (omega (arith, length-append bs rest)),
  take-append bs rest n h,
  drop-append bs rest n h,
)

read_optional-append :
    (n : ℕ) (field : Option Bytes) (rest : Bytes)
    → Fits n field
    → read_optional (is_some field) n (bytes_of field ++ rest) ≡ ok (field, rest)
unfolding read_optional
read_optional-append n none rest h = refl
read_optional-append n (some bs) rest h = rw (read_exact-append n bs rest h)

sequence_field-Fits : (sequence : Option ℕ) → Fits 8 (sequence_field sequence)
sequence_field-Fits none = tt
sequence_field-Fits (some seq) = length-to_be_bytes 8 seq

age_field-Fits : (freshness : Freshness) → Fits 8 (age_field freshness)
age_field-Fits fresh = tt
age_field-Fits (stale age) = length-to_be_bytes 8 (age / ns_per_second)

read_optional-sequence :
    (sequence : Option ℕ) (rest : Bytes)
    → read_optional (is_some sequence) 8 (bytes_of (sequence_field sequence) ++ rest)
      ≡ ok (sequence_field sequence, rest)
unfolding read_optional
read_optional-sequence none rest = refl
read_optional-sequence (some seq) rest =
    read_optional-append 8 (some (to_be_bytes 8 seq)) rest (length-to_be_bytes 8 seq)

sequence_of-sequence_field :
    (sequence : Option ℕ) → SequenceFits sequence → sequence_of (sequence_field sequence) ≡ sequence
sequence_of-sequence_field none h = refl
sequence_of-sequence_field (some seq) h = ap some (from-to_be_bytes 8 seq (omega (arith, h)))

read_optional-age :
    (freshness : Freshness)
    → read_optional (has_age freshness) 8 (bytes_of (age_field freshness))
      ≡ ok (age_field freshness, [])
unfolding read_optional
read_optional-age fresh = refl
read_optional-age (stale age) =
    let field = to_be_bytes 8 (age / ns_per_second) in
    ap (read_optional true 8) (sym (append-nil field))
    ∙ read_optional-append 8 (some field) [] (length-to_be_bytes 8 (age / ns_per_second))

freshness_of-age_field :
    (freshness : Freshness)
    → FreshnessFits freshness
    → freshness_of (age_field freshness) ≡ whole_seconds freshness
freshness_of-age_field fresh h = refl
freshness_of-age_field (stale age) h =
    ap (λ (t : ℕ). stale (t * ns_per_second))
      (from-to_be_bytes 8 (age / ns_per_second) (omega (arith, h)))

flags_lem :
    (a b c : Bool)
    → let flags = with_flag (with_flag (with_flag 0 a 0x01) b 0x02) c 0x04 in
      (has flags 0x01 ≡ a) × (has flags 0x02 ≡ b) × (has flags 0x04 ≡ c)
flags_lem true true true = (refl, refl, refl)
flags_lem true true false = (refl, refl, refl)
flags_lem true false true = (refl, refl, refl)
flags_lem true false false = (refl, refl, refl)
flags_lem false true true = (refl, refl, refl)
flags_lem false true false = (refl, refl, refl)
flags_lem false false true = (refl, refl, refl)
flags_lem false false false = (refl, refl, refl)

-- Valid metadata is read back from its wire form, with the age cut to whole seconds.
pub from_bytes-to_bytes_metadata :
    (m : DataMetadata)
    → IsValid m
    → from_bytes (to_bytes m) ≡ ok (record m { freshness = whole_seconds m.freshness })
unfolding from_bytes to_bytes
from_bytes-to_bytes_metadata m v =
    let flags = flags_lem (is_some m.content_hash) (is_some m.sequence) (has_age m.freshness) in
    rw (
      flags.0,
      flags.1,
      flags.2,
      read_optional-append 32 m.content_hash _ v.hash_fits,
      read_optional-sequence m.sequence (bytes_of (age_field m.freshness)),
      read_optional-age m.freshness,
      sequence_of-sequence_field m.sequence v.sequence_fits,
      freshness_of-age_field m.freshness v.freshness_fits,
    )

length-bytes_of : (n : ℕ) (field : Option Bytes) → Fits n field → length (bytes_of field) ≤ n
length-bytes_of n none h = omega arith
length-bytes_of n (some bs) h = omega (arith, h)

-- The flags and three fields.
pub length-to_bytes_metadata : (m : DataMetadata) → IsValid m → length (to_bytes m) ≤ 49
unfolding to_bytes
length-to_bytes_metadata m v = omega (
  arith,
  length-append (bytes_of m.content_hash)
      (bytes_of (sequence_field m.sequence) ++ bytes_of (age_field m.freshness)),
  length-append (bytes_of (sequence_field m.sequence)) (bytes_of (age_field m.freshness)),
  length-bytes_of 32 m.content_hash v.hash_fits,
  length-bytes_of 8 (sequence_field m.sequence) (sequence_field-Fits m.sequence),
  length-bytes_of 8 (age_field m.freshness) (age_field-Fits m.freshness),
)
