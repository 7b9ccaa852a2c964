-- ===== src/Prelude/Maps.antt =====
-- A `HashMap` as an association list: `get`, `insert` and `remove`, for keys that a Boolean test
-- compares. An insertion replaces what was there; the order of the entries is not observed.
use rsticulum.Prelude.Lists.{length}
use rsticulum.Prelude.Tests.{◌==◌, ==_iff, if◌then◌else◌, Bool-cases}
use rsticulum.Prelude.ByteStrings.{Bytes, same, same_iff}
use Prim.Native.Nat.{ℕ, ◌<◌, ◌≤◌}
use mathlib.Core.Path.{◌≡◌}
use mathlib.Core.Logic.{◌↔◌, inl, inr}
use mathlib.Core.Bool.{Bool, true}
use mathlib.Core.Option.{Option, none, some}
use mathlib.Core.List.{List, [], ◌∷◌}
use native.Mathlib.Omega.{arith}

-- `Eq` of the keys: the test decides equality.
pub record Keyed (K : Type 0) : Type 0 where
  pub eq : K → K → Bool
  pub eq_iff : (j k : K) → (eq j k ≡ true) ↔ (j ≡ k)

instance abbrev pub number_keys : Keyed ℕ
number_keys = record { eq = ◌==◌; eq_iff = ==_iff }

instance abbrev pub bytes_keys : Keyed Bytes
bytes_keys = record { eq = same; eq_iff = same_iff }

module _ {ℓ} {K : Type 0} {V : Type ℓ} ⦃e : Keyed K⦄ where
  unfoldable pub get : K → List (K × V) → Option V
  get k [] = none
  get k ((j, v) ∷ m) = if e.eq j k then some v else get k m

  unfoldable pub remove : K → List (K × V) → List (K × V)
  remove k [] = []
  remove k ((j, v) ∷ m) = let rest = remove k m in if e.eq j k then rest else (j, v) ∷ rest

  unfoldable pub insert : K → V → List (K × V) → List (K × V)
  unfolding remove
  insert k v m = (k, v) ∷ remove k m

  pub get-remove :
      (j k : K) (m : List (K × V)) → get j (remove k m) ≡ (if e.eq k j then none else get j m)
  unfolding get remove
  get-remove j k [] = elim (Bool-cases (e.eq k j)) [ inl h ↦ rw h | inr h ↦ rw h ]
  get-remove j k ((i, v) ∷ m) =
      ground (arith, get-remove j k m, e.eq_iff i k, e.eq_iff i j, e.eq_iff k j, e.eq_iff k k)

  pub get-insert :
      (j k : K) (v : V) (m : List (K × V))
      → get j (insert k v m) ≡ (if e.eq k j then some v else get j m)
  unfolding get insert
  get-insert j k v m = ground (arith, get-remove j k m)

  pub length-remove : (k : K) (m : List (K × V)) → length (remove k m) ≤ length m
  unfolding remove
  length-remove k [] = omega arith
  length-remove k ((j, v) ∷ m) = ground (arith, length-remove k m)

  -- What is removed makes the map smaller.
  pub length-remove-some :
      (k : K) (v : V) (m : List (K × V)) → get k m ≡ some v → length (remove k m) < length m
  unfolding get remove
  length-remove-some k v [] h = cc
  length-remove-some k v ((j, w) ∷ m) h =
      ground (arith, length-remove k m, length-remove-some k v m)
