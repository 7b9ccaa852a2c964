-- ===== src/Prelude/ByteStrings.antt =====
-- Byte strings: indexing and slicing with Rust's bounds checks, and bit fields of a byte.
use Prim.Native.Nat.{ℕ, zero, suc, ◌+◌, ◌-◌, ◌≤◌, ◌<◌}
use mathlib.Core.Path.{◌≡◌, refl, ◌∙◌}
use mathlib.Core.Bool.{◌&&◌}
use mathlib.Core.Option.{none, some}
use mathlib.Core.List.{List, [], ◌∷◌, ◌++◌}
use mathlib.Core.Bool.{Bool, true, false}
use mathlib.Core.Logic.{◌↔◌}
use native.Mathlib.Decide.{ℕ_discrete}
use native.Mathlib.Omega.{arith}
use rsticulum.Prelude.Tests.{leb, leb_of_le, if◌then◌else◌}
use rsticulum.Prelude.Lists.{
  length, get_elem?, take, drop, All, length-append, take-append, drop-append, get_elem?-append,
}
use rsticulum.Prelude.Outcome.{Result, ok, panic}

abbrev pub Bytes : Type 0
Bytes = List ℕ

abbrev pub IsByte : ℕ → Type 0
IsByte b = b < 256

abbrev pub AllBytes : Bytes → Type 0
AllBytes = All IsByte

unfoldable pub Bytes-discrete : Discrete Bytes
Bytes-discrete = hlevel ℕ_discrete

-- `a == b` on byte strings
abbrev pub same : Bytes → Bytes → Bool
same a b = elim (Bytes-discrete a b) [ yes _ ↦ true | no _ ↦ false ]

pub same_iff : (a b : Bytes) → (same a b ≡ true) ↔ (a ≡ b)
same_iff a b = ground arith

-- `data[i]`
unfoldable pub index : {E : Type 0} → Bytes → ℕ → Result E ℕ
index bs i = elim (get_elem? bs i) [ none ↦ panic | some b ↦ ok b ]

-- `data[a..b]`
unfoldable pub slice : {E : Type 0} → Bytes → ℕ → ℕ → Result E Bytes
slice bs a b = if leb a b && leb b (length bs) then ok (take (b - a) (drop a bs)) else panic

-- `data[a..]`
unfoldable pub slice_from : {E : Type 0} → Bytes → ℕ → Result E Bytes
slice_from bs a = if leb a (length bs) then ok (drop a bs) else panic

module _ {E : Type 0} where
  pub index-lt : (bs : Bytes) (i : ℕ) → i < length bs → (b : ℕ) × (index {E = E} bs i ≡ ok b)
  unfolding index
  index-lt [] i h = absurd (omega arith)
  index-lt (b ∷ bs) zero h = (b, refl)
  index-lt (b ∷ bs) (suc i) h = index-lt bs i (omega arith)

  pub slice_lem :
      (bs : Bytes) (a b : ℕ)
      → a ≤ b
      → b ≤ length bs
      → slice {E = E} bs a b ≡ ok (take (b - a) (drop a bs))
  unfolding slice
  slice_lem bs a b h k = rw (leb_of_le a b h, leb_of_le b (length bs) k)

  pub slice_from_lem :
      (bs : Bytes) (a : ℕ) → a ≤ length bs → slice_from {E = E} bs a ≡ ok (drop a bs)
  unfolding slice_from
  slice_from_lem bs a h = rw (leb_of_le a (length bs) h)

  -- Reading behind a prefix of known length.
  pub index-append :
      (pre : Bytes) (x : ℕ) (rest : Bytes) (n : ℕ)
      → length pre ≡ n
      → index {E = E} (pre ++ (x ∷ rest)) n ≡ ok x
  unfolding index
  index-append pre x rest n h = rw (← h, index, get_elem?-append pre rest x)

  pub slice-append :
      (pre mid rest : Bytes) (a b : ℕ)
      → length pre ≡ a
      → a + length mid ≡ b
      → slice {E = E} (pre ++ (mid ++ rest)) a b ≡ ok mid
  slice-append pre mid rest a b h k =
      slice_lem _ a b (omega arith)
        (omega (arith, length-append pre (mid ++ rest), length-append mid rest))
      ∙ rw (drop-append pre (mid ++ rest) a h, take-append mid rest (b - a) (omega arith))

  pub slice_from-append :
      (pre rest : Bytes) (a : ℕ) → length pre ≡ a → slice_from {E = E} (pre ++ rest) a ≡ ok rest
  slice_from-append pre rest a h =
      slice_from_lem _ a (omega (arith, length-append pre rest)) ∙ rw (drop-append pre rest a h)
