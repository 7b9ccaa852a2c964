-- ===== src/Icn/Selector.antt =====
-- crates/icn/src/interest.rs: the selector of an interest and its wire form.
use rsticulum.Prelude.{
  ℕ, zero, suc, ◌%◌, ◌^◌, ◌<◌, ◌≡◌, refl, ap, ◌∙◌, arith, Bool, true, false, not, Option, none,
  some, List, [], ◌∷◌, ◌++◌, Bytes, length, length-append, take, drop, take-append, drop-append,
  ltb, ltb_of_le, ◌==◌, if◌then◌else◌, bit_and, bit_or, All, to_be_bytes, from_be_bytes,
  from-to_be_bytes, length-to_be_bytes, Result, ok, err, ◌>>=◌,
}

pub data InterestError : Type 0 where
  buffer_too_short invalid_name : InterestError

pub record InterestSelector : Type 0 where
  pub min_sequence : Option ℕ
  pub exclude_hashes : List Bytes
  pub must_be_fresh : Bool

-- `if flags & bit != 0` and `flags |= bit`
abbrev pub has : ℕ → ℕ → Bool
has flags bit = not (bit_and flags bit == 0)

abbrev pub with_flag : ℕ → Bool → ℕ → ℕ
with_flag flags set bit = if set then bit_or flags bit else flags

abbrev pub is_some {ℓ} : {A : Type ℓ} → Option A → Bool
is_some none = false
is_some (some _) = true

abbrev pub any_hashes : List Bytes → Bool
any_hashes [] = false
any_hashes (h ∷ hs) = true

-- `n` bytes at the front, and what follows. The input is no longer than an address space allows, so
-- the sum with a fixed size does not overflow.
unfoldable pub read_fixed : ℕ → Bytes → Result InterestError (Bytes × Bytes)
read_fixed n bs = if ltb (length bs) n then err buffer_too_short else ok (take n bs, drop n bs)

unfoldable pub write_sequence : Option ℕ → Bytes
write_sequence none = []
write_sequence (some n) = to_be_bytes 8 n

unfoldable pub write_hashes : List Bytes → Bytes
write_hashes [] = []
write_hashes (h ∷ hs) = h ++ write_hashes hs

unfoldable pub write_excluded : List Bytes → Bytes
unfolding write_hashes
write_excluded [] = []
write_excluded (h ∷ hs) = length (h ∷ hs) % 256 ∷ write_hashes (h ∷ hs)

unfoldable pub write_to : InterestSelector → Bytes
unfolding write_sequence write_excluded
write_to s =
    with_flag
      (with_flag (with_flag 0 (is_some s.min_sequence) 0x01) (any_hashes s.exclude_hashes) 0x02)
      s.must_be_fresh 0x04
    ∷ (write_sequence s.min_sequence ++ write_excluded s.exclude_hashes)

unfoldable pub read_sequence : Bool → Bytes → Result InterestError (Option ℕ × Bytes)
read_sequence false bs = ok (none, bs)
read_sequence true bs = do (field, rest) ← read_fixed 8 bs; ok (some (from_be_bytes field), rest)

unfoldable pub read_hashes : ℕ → Bytes → Result InterestError (List Bytes)
read_hashes zero bs = ok []
read_hashes (suc count) bs = do
  (h, rest) ← read_fixed 32 bs
  hs ← read_hashes count rest
  ok (h ∷ hs)

unfoldable pub read_excluded : Bool → Bytes → Result InterestError (List Bytes)
unfolding read_hashes
read_excluded false bs = ok []
read_excluded true [] = err buffer_too_short
read_excluded true (count ∷ bs) = read_hashes count bs

unfoldable pub read_from : Bytes → Result InterestError InterestSelector
unfolding read_sequence read_excluded
read_from [] = err buffer_too_short
read_from (flags ∷ bs) = do
  (min_sequence, rest) ← read_sequence (has flags 0x01) bs
  exclude_hashes ← read_excluded (has flags 0x02) rest
  ok (record {
    min_sequence = min_sequence;
    exclude_hashes = exclude_hashes;
    must_be_fresh = has flags 0x04;
  })

abbrev SequenceFits : Option ℕ → Type 0
SequenceFits none = Unit
SequenceFits (some n) = n < 2 ^ 64

-- A sequence number of 64 bits, and at most 255 hashes of 32 bytes.
pub record IsValid (s : InterestSelector) : Type 0 where
  pub sequence_fits : SequenceFits s.min_sequence
  pub few : length s.exclude_hashes < 256
  pub whole : All (λ (h : Bytes). length h ≡ 32) s.exclude_hashes

pub read_fixed-append :
    (n : ℕ) (bs rest : Bytes) → length bs ≡ n → read_fixed n (bs ++ rest) ≡ ok (bs, rest)
unfolding read_fixed
read_fixed-append n bs rest h = rw (
  ltb_of_le (length (bs ++ rest)) n (omega (arith, length-append bs rest)),
  take-append bs rest n h,
  drop-append bs rest n h,
)

read-write_hashes :
    (hs : List Bytes)
    → All (λ (h : Bytes). length h ≡ 32) hs
    → read_hashes (length hs) (write_hashes hs) ≡ ok hs
unfolding read_hashes write_hashes
read-write_hashes [] w = refl
read-write_hashes (h ∷ hs) (w, ws) =
    rw (read_fixed-append 32 h (write_hashes hs) w, read-write_hashes hs ws)

read-write_excluded :
    (hs : List Bytes)
    → length hs < 256
    → All (λ (h : Bytes). length h ≡ 32) hs
    → read_excluded (any_hashes hs) (write_excluded hs) ≡ ok hs
unfolding read_excluded write_excluded
read-write_excluded [] few w = refl
read-write_excluded (h ∷ hs) few w =
    let count : length (h ∷ hs) % 256 ≡ length (h ∷ hs) = omega arith in
    ap (λ (n : ℕ). read_hashes n (write_hashes (h ∷ hs))) count ∙ read-write_hashes (h ∷ hs) w

read-write_sequence :
    (sequence : Option ℕ) (rest : Bytes)
    → SequenceFits sequence
    → read_sequence (is_some sequence) (write_sequence sequence ++ rest) ≡ ok (sequence, rest)
unfolding read_sequence write_sequence
read-write_sequence none rest h = refl
read-write_sequence (some n) rest h = rw (
  read_fixed-append 8 (to_be_bytes 8 n) rest (length-to_be_bytes 8 n),
  from-to_be_bytes 8 n (omega arith),
)

-- The three flags are read as they were written.
flags_lem :
    (a b c : Bool)
    → let flags = with_flag (with_flag (with_flag 0 a 0x01) b 0x02) c 0x04 in
      (has flags 0x01 ≡ a) × (has flags 0x02 ≡ b) × (has flags 0x04 ≡ c)
flags_lem true true true = (refl, refl, refl)
flags_lem true true false = (refl, refl, refl)
flags_lem true false true = (refl, refl, refl)
flags_lem true false false = (refl, refl, refl)
flags_lem false true true = (refl, refl, refl)
flags_lem false true false = (refl, refl, refl)
flags_lem false false true = (refl, refl, refl)
flags_lem false false false = (refl, refl, refl)

pub read_from-write_to : (s : InterestSelector) → IsValid s → read_from (write_to s) ≡ ok s
unfolding read_from write_to
read_from-write_to s v =
    let flags = flags_lem (is_some s.min_sequence) (any_hashes s.exclude_hashes) s.must_be_fresh in
    rw (
      flags.0,
      flags.1,
      flags.2,
      read-write_sequence s.min_sequence (write_excluded s.exclude_hashes) v.sequence_fits,
      read-write_excluded s.exclude_hashes v.few v.whole,
    )
