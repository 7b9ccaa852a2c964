-- ===== src/Prelude/BigEndian.antt =====
-- `to_be_bytes` and `from_be_bytes` of an integer of `k` bytes.
use rsticulum.Prelude.Lists.{length, length-append}
use rsticulum.Prelude.ByteStrings.{Bytes}
use Prim.Native.Nat.{ℕ, zero, suc, ◌+◌, ◌*◌, ◌/◌, ◌%◌, ◌^◌, ◌<◌}
use mathlib.Core.Path.{◌≡◌, refl, ◌∙◌}
use mathlib.Core.List.{[], ◌∷◌, ◌++◌}
use native.Mathlib.Nat.{pow-suc}
use native.Mathlib.Omega.{arith}

unfoldable pub to_be_bytes : ℕ → ℕ → Bytes
to_be_bytes zero n = []
to_be_bytes (suc k) n = to_be_bytes k (n / 256) ++ n % 256 ∷ []

unfoldable pub of_be_bytes : ℕ → Bytes → ℕ
of_be_bytes acc [] = acc
of_be_bytes acc (b ∷ bs) = of_be_bytes (acc * 256 + b) bs

abbrev pub from_be_bytes : Bytes → ℕ
from_be_bytes = of_be_bytes 0

of_be_bytes-append :
    (acc : ℕ) (bs : Bytes) (b : ℕ) → of_be_bytes acc (bs ++ b ∷ []) ≡ of_be_bytes acc bs * 256 + b
unfolding of_be_bytes
of_be_bytes-append acc [] b = refl
of_be_bytes-append acc (x ∷ bs) b = of_be_bytes-append (acc * 256 + x) bs b

pub length-to_be_bytes : (k n : ℕ) → length (to_be_bytes k n) ≡ k
unfolding to_be_bytes
length-to_be_bytes zero n = refl
length-to_be_bytes (suc k) n =
    omega (
      arith,
      length-append (to_be_bytes k (n / 256)) (n % 256 ∷ []),
      length-to_be_bytes k (n / 256),
    )

-- An integer that fits its width is read back.
pub from-to_be_bytes : (k n : ℕ) → n < 256 ^ k → from_be_bytes (to_be_bytes k n) ≡ n
unfolding to_be_bytes of_be_bytes
from-to_be_bytes zero n h = omega arith
from-to_be_bytes (suc k) n h =
    let small : n / 256 < 256 ^ k = omega (arith, pow-suc 256 k) in
    let ih = from-to_be_bytes k (n / 256) small in
    of_be_bytes-append 0 (to_be_bytes k (n / 256)) (n % 256) ∙ omega (arith, ih)
