-- ===== src/Icn/Varint.antt =====
-- crates/icn/src/interest.rs: write_varint and read_varint, numbers of 64 bits in groups of 7, low
-- group first, the top bit of a byte set if another follows.
use native.Mathlib.Nat.{pow-suc, one-le-pow, mul-le-mul_right, pow-le-pow_right}
use native.Mathlib.Numerals.{towards_suc}
use rsticulum.Prelude.{
  ℕ, zero, suc, ◌+◌, ◌*◌, ◌/◌, ◌%◌, ◌^◌, ◌<◌, ◌≤◌, ◌≡◌, refl, ap, ap₂, lt→ltb, ltb_of_le, leb→le,
  leb_of_lt, ◌∙◌, arith, true, Option, none, some, [], ◌∷◌, ◌++◌, Bytes, length, ltb, leb, ◌==◌,
  if◌then◌else◌, bit_and, bit_or, bit_or_split, bit_or-zero, zero-bit_or, holds_below,
  holds_below_sound, ==_iff, inl, inr, Bool-cases,
}

-- The `while` loop in at most `rounds` rounds; ten are enough for 64 bits.
unfoldable pub write_groups : ℕ → ℕ → Bytes
write_groups zero value = []
write_groups (suc rounds) value =
    let rest = write_groups rounds (value / 2 ^ 7) in
    if leb 0x80 value then bit_or (value % 256) 0x80 ∷ rest else value % 256 ∷ []

unfoldable pub write_varint : ℕ → Bytes
write_varint value = write_groups 10 value

-- `value |= ((byte & 0x7F) as u64) << shift`, which drops what goes beyond 64 bits.
abbrev pub with_group : ℕ → ℕ → ℕ → ℕ
with_group value byte shift = bit_or value (bit_and byte 0x7F * 2 ^ shift % 2 ^ 64)

-- The value and the number of bytes read; `i` bytes were read before.
unfoldable pub read_groups : ℕ → ℕ → ℕ → Bytes → Option (ℕ × ℕ)
read_groups value shift i [] = none
read_groups value shift i (byte ∷ bytes) =
    let rest = read_groups (with_group value byte shift) (shift + 7) (i + 1) bytes in
    if bit_and byte 0x80 == 0
    then some (with_group value byte shift, i + 1)
    else if leb 64 (shift + 7)
    then none
    else rest

unfoldable pub read_varint : Bytes → Option (ℕ × ℕ)
read_varint = read_groups 0 0 0

low_table : holds_below (λ b. bit_and b 0x7F == b % 128) 256 ≡ true
unfolding holds_below
low_table = refl

top_table : holds_below (λ b. bit_and b 0x80 == (if ltb b 128 then 0 else 128)) 256 ≡ true
unfolding holds_below
top_table = refl

mark_table : holds_below (λ b. bit_or b 0x80 == b % 128 + 128) 256 ≡ true
unfolding holds_below
mark_table = refl

-- The masks of a byte.
low_lem : (b : ℕ) → b < 256 → bit_and b 0x7F ≡ b % 128
low_lem b h = (==_iff _ _).0 (holds_below_sound (λ b. bit_and b 0x7F == b % 128) 256 b h low_table)

top_lem : (b : ℕ) → b < 256 → bit_and b 0x80 ≡ (if ltb b 128 then 0 else 128)
top_lem b h =
    (==_iff _ _).0
      (holds_below_sound (λ b. bit_and b 0x80 == (if ltb b 128 then 0 else 128)) 256 b h top_table)

mark_lem : (b : ℕ) → b < 256 → bit_or b 0x80 ≡ b % 128 + 128
mark_lem b h =
    (==_iff _ _).0 (holds_below_sound (λ b. bit_or b 0x80 == b % 128 + 128) 256 b h mark_table)

-- A group above the bits that the value has.
with_group_lem :
    (value byte shift : ℕ)
    → value < 2 ^ shift
    → byte < 256
    → byte % 128 * 2 ^ shift < 2 ^ 64
    → with_group value byte shift ≡ value + byte % 128 * 2 ^ shift
with_group_lem value byte shift h b fits =
    let group = byte % 128 in
    let low : value ≡ 0 * 2 ^ shift + value = omega arith in
    let high : group * 2 ^ shift % 2 ^ 64 ≡ group * 2 ^ shift + 0 = omega arith in
    let split = bit_or_split shift 0 value group 0 h (omega (arith, one-le-pow shift 2)) in
    rw (low_lem byte b) (
      ap₂ bit_or low high
      ∙ split
      ∙ omega (arith, ap (λ (t : ℕ). t * 2 ^ shift) (zero-bit_or group), bit_or-zero value))

next_shift : (shift : ℕ) → 2 ^ (shift + 7) ≡ 128 * 2 ^ shift
next_shift shift = simp towards_suc (omega (arith, pow-suc 2 shift))

-- The last group.
read_last :
    (value low shift i : ℕ) (rest : Bytes)
    → value < 128
    → low < 2 ^ shift
    → value * 2 ^ shift < 2 ^ 64
    → read_groups low shift i (value % 256 ∷ rest) ≡ some (low + value * 2 ^ shift, i + 1)
unfolding read_groups
read_last value low shift i rest small l fits =
    let same : value % 256 ≡ value = omega arith in
    let group : value % 128 ≡ value = omega arith in
    rw (
      same,
      top_lem value (omega arith),
      lt→ltb value 128 small,
      with_group_lem low value shift l (omega arith) (rw group fits),
      group,
    )

-- What has a group above `shift` ends below the 64 bits.
room : (value shift : ℕ) → 128 ≤ value → value * 2 ^ shift < 2 ^ 64 → shift + 7 < 64
room value shift large fits = elim (Bool-cases (leb 64 (shift + 7))) [
  | inl beyond ↦
      let grows =
        pow-le-pow_right {n = 2} (omega arith) {i = 64} {j = shift + 7}
          (leb→le 64 (shift + 7) beyond) in
      let scaled = mul-le-mul_right (2 ^ shift) large in
      absurd (omega (arith, grows, scaled, next_shift shift))
  | inr within ↦ ground arith
]

-- A group that another follows.
read_more :
    (value low shift i : ℕ) (rest : Bytes)
    → 128 ≤ value
    → low < 2 ^ shift
    → value * 2 ^ shift < 2 ^ 64
    → read_groups low shift i (bit_or (value % 256) 0x80 ∷ rest)
      ≡ read_groups (low + value % 128 * 2 ^ shift) (shift + 7) (i + 1) rest
unfolding read_groups
read_more value low shift i rest large l fits =
    let byte = value % 128 + 128 in
    let marked : bit_or (value % 256) 0x80 ≡ byte =
      mark_lem (value % 256) (omega arith) ∙ omega arith in
    let group : byte % 128 ≡ value % 128 = omega arith in
    let smaller : value % 128 ≤ value = omega arith in
    let below = mul-le-mul_right (2 ^ shift) smaller in
    let within = room value shift large fits in
    rw (
      marked,
      top_lem byte (omega arith),
      ltb_of_le byte 128 (omega arith),
      leb_of_lt 64 (shift + 7) within,
      with_group_lem low byte shift l (omega arith) (rw group (omega (arith, below))),
      group,
    )

read-write_groups :
    (rounds value low shift i : ℕ) (rest : Bytes)
    → value < 128 ^ suc rounds
    → low < 2 ^ shift
    → value * 2 ^ shift < 2 ^ 64
    → read_groups low shift i (write_groups (suc rounds) value ++ rest)
      ≡ some (low + value * 2 ^ shift, i + length (write_groups (suc rounds) value))
unfolding write_groups
read-write_groups zero value low shift i rest h l fits = elim (Bool-cases (leb 0x80 value)) [
  | inl more ↦ let large = leb→le 128 value more in absurd (omega arith)
  | inr last ↦ rw last (read_last value low shift i rest (omega arith) l fits)
]
read-write_groups (suc rounds) value low shift i rest h l fits =
    elim (Bool-cases (leb 0x80 value)) [
      | inl more ↦
          let p = 2 ^ shift in
          let large = leb→le 128 value more in
          let quotient = value / 2 ^ 7 in
          let written = write_groups (suc rounds) quotient in
          let parts : value ≡ quotient * 128 + value % 128 = omega arith in
          let scaled : value * p ≡ (quotient * 128 + value % 128) * p =
            ap (λ (t : ℕ). t * p) parts in
          let group : value % 128 ≤ 127 = omega arith in
          let below = mul-le-mul_right p group in
          let ih =
            read-write_groups rounds quotient (low + value % 128 * p) (shift + 7) (i + 1) rest
              (omega (arith, pow-suc 128 (suc rounds))) (omega (arith, next_shift shift, below))
              (rw (next_shift shift) (omega (arith, scaled))) in
          let value_is : low + value % 128 * p + quotient * 2 ^ (shift + 7) ≡ low + value * p =
            rw (next_shift shift) (omega (arith, scaled)) in
          let count_is : i + 1 + length written ≡ i + suc (length written) = omega arith in
          rw more (
            read_more value low shift i (written ++ rest) large l fits
            ∙ ih
            ∙ ap₂ (λ (v n : ℕ). some (v, n)) value_is count_is)
      | inr last ↦ rw last (read_last value low shift i rest (ground arith) l fits)
    ]

-- Every number of 64 bits is read back from its groups, with their number, whatever follows.
pub read_varint-write_varint :
    (value : ℕ) (rest : Bytes)
    → value < 2 ^ 64
    → read_varint (write_varint value ++ rest) ≡ some (value, length (write_varint value))
unfolding read_varint write_varint
read_varint-write_varint value rest h =
    read-write_groups 9 value 0 0 0 rest (omega arith) (omega arith) (omega arith)
    ∙ ap₂ (λ (v n : ℕ). some (v, n)) (omega arith) (omega arith)

length-write_groups : (rounds value : ℕ) → length (write_groups rounds value) ≤ rounds
unfolding write_groups
length-write_groups zero value = omega arith
length-write_groups (suc rounds) value = ground (arith, length-write_groups rounds (value / 2 ^ 7))

pub length-write_varint : (value : ℕ) → length (write_varint value) ≤ 10
unfolding write_varint
length-write_varint value = length-write_groups 10 value
