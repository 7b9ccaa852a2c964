-- ===== src/Prelude/Bits.antt =====
-- Bit operations on numbers that are split at a digit: the operations act on the two parts alone.
-- Each fact is proved for every width, from the equation for the lowest digit.
use Prim.Native.Nat.{
  ℕ, zero, suc, ◌+◌, ◌-◌, ◌*◌, ◌/◌, ◌%◌, ◌^◌, ◌≤◌, ◌<◌, min, max, bit_and, bit_or, digits,
  bit_and-bitwise, bit_or-bitwise, bit_xor, bit_xor-bitwise, differ,
}
use mathlib.Core.Path.{◌≡◌, refl, ap}
use native.Mathlib.Nat.{pow-suc, one-le-pow}
use native.Mathlib.Omega.{arith}

module _ (z : ℕ → ℕ) (f : ℕ → ℕ → ℕ) where
  -- Two counts of digits that both cover the first number give the same result.
  digits-covered : (m n a b : ℕ) → a ≤ m → a ≤ n → digits z f m a b ≡ digits z f n a b
  digits-covered zero zero a b h k = refl
  digits-covered zero (suc n) zero b h k = refl
  digits-covered (suc m) zero zero b h k = refl
  digits-covered (suc m) (suc n) zero b h k = refl
  digits-covered (suc m) (suc n) (suc a) b h k =
      ap (λ (d : ℕ). d * 2 + f (suc a % 2) (b % 2))
        (digits-covered m n (suc a / 2) (b / 2) (omega arith) (omega arith))
  digits-covered m n a b h k = absurd (omega arith)

pub and_low : (a b : ℕ) → bit_and a b ≡ bit_and (a / 2) (b / 2) * 2 + min (a % 2) (b % 2)
and_low zero b = simp bit_and-bitwise (omega arith)
and_low (suc a) b = simp bit_and-bitwise (
    omega (
      arith,
      digits-covered (λ b. 0) min a (suc a / 2) (suc a / 2) (b / 2) (omega arith) (omega arith),
    ))

pub or_low : (a b : ℕ) → bit_or a b ≡ bit_or (a / 2) (b / 2) * 2 + max (a % 2) (b % 2)
or_low zero b = simp bit_or-bitwise (omega arith)
or_low (suc a) b = simp bit_or-bitwise (
    omega (
      arith,
      digits-covered (λ b. b) max a (suc a / 2) (suc a / 2) (b / 2) (omega arith) (omega arith),
    ))

and-zero_upto : (n a : ℕ) → a ≤ n → bit_and a 0 ≡ 0
and-zero_upto n zero h = refl
and-zero_upto zero (suc a) h = absurd (omega arith)
and-zero_upto (suc n) (suc a) h =
    omega (arith, and_low (suc a) 0, and-zero_upto n (suc a / 2) (omega arith))

or-zero_upto : (n a : ℕ) → a ≤ n → bit_or a 0 ≡ a
or-zero_upto n zero h = refl
or-zero_upto zero (suc a) h = absurd (omega arith)
or-zero_upto (suc n) (suc a) h =
    omega (arith, or_low (suc a) 0, or-zero_upto n (suc a / 2) (omega arith))

pub bit_and-zero : (a : ℕ) → bit_and a 0 ≡ 0
bit_and-zero a = and-zero_upto a a (omega arith)

zero-or_upto : (n a : ℕ) → a ≤ n → bit_or 0 a ≡ a
zero-or_upto zero a h = ground (arith, or_low 0 0)
zero-or_upto (suc n) a h = ground (arith, or_low 0 a, zero-or_upto n (a / 2))

pub zero-bit_or : (a : ℕ) → bit_or 0 a ≡ a
zero-bit_or a = zero-or_upto a a (omega arith)

pub bit_or-zero : (a : ℕ) → bit_or a 0 ≡ a
bit_or-zero a = or-zero_upto a a (omega arith)

double : (q k : ℕ) → q * 2 ^ suc k ≡ 2 * (q * 2 ^ k)
double q k = omega (arith, ap (λ (t : ℕ). q * t) (pow-suc 2 k))

-- `&` and `|` of `q·2^k + r` and `m·2^k + s`, with `r` and `s` below `2^k`.
pub bit_and_split :
    (k q r m s : ℕ)
    → r < 2 ^ k
    → s < 2 ^ k
    → bit_and (q * 2 ^ k + r) (m * 2 ^ k + s) ≡ bit_and q m * 2 ^ k + bit_and r s
bit_and_split zero q r m s h h' = ground (arith, bit_and-zero r)
bit_and_split (suc k) q r m s h h' = ground (
  arith,
  and_low (q * 2 ^ suc k + r) (m * 2 ^ suc k + s),
  and_low r s,
  double q k,
  double m k,
  double (bit_and q m) k,
  pow-suc 2 k,
  bit_and_split k q (r / 2) m (s / 2) (omega arith) (omega arith),
)

pub bit_or_split :
    (k q r m s : ℕ)
    → r < 2 ^ k
    → s < 2 ^ k
    → bit_or (q * 2 ^ k + r) (m * 2 ^ k + s) ≡ bit_or q m * 2 ^ k + bit_or r s
bit_or_split zero q r m s h h' = ground (arith, bit_or-zero r)
bit_or_split (suc k) q r m s h h' = ground (
  arith,
  or_low (q * 2 ^ suc k + r) (m * 2 ^ suc k + s),
  or_low r s,
  double q k,
  double m k,
  double (bit_or q m) k,
  pow-suc 2 k,
  bit_or_split k q (r / 2) m (s / 2) (omega arith) (omega arith),
)

-- `& (2^k - 1)` leaves the low `k` bits.
low_part : (k r : ℕ) → r < 2 ^ k → bit_and r (2 ^ k - 1) ≡ r
low_part zero r h = ground arith
low_part (suc k) r h =
    ground (arith, and_low r (2 ^ suc k - 1), pow-suc 2 k, one-le-pow k 2, low_part k (r / 2))

pub bit_and_mask : (k a : ℕ) → bit_and a (2 ^ k - 1) ≡ a % 2 ^ k
bit_and_mask k a = ground (
  arith,
  one-le-pow k 2,
  bit_and_split k (a / 2 ^ k) (a % 2 ^ k) 0 (2 ^ k - 1),
  bit_and-zero (a / 2 ^ k),
  low_part k (a % 2 ^ k),
)

differ-zero : (b : ℕ) → differ zero b ≡ b
differ-zero b = refl

differ_comm : (a b : ℕ) → differ a b ≡ differ b a
differ_comm zero zero = refl
differ_comm zero (suc b) = refl
differ_comm (suc a) zero = refl
differ_comm (suc a) (suc b) = differ_comm a b

xor_low : (a b : ℕ) → bit_xor a b ≡ bit_xor (a / 2) (b / 2) * 2 + differ (a % 2) (b % 2)
xor_low zero b =
    ground (arith, bit_xor-bitwise zero b, bit_xor-bitwise zero (b / 2), differ-zero (b % 2))
xor_low (suc a) b = simp bit_xor-bitwise (
    omega (
      arith,
      digits-covered (λ b. b) differ a (suc a / 2) (suc a / 2) (b / 2) (omega arith) (omega arith),
    ))

xor_comm_upto : (n a b : ℕ) → a ≤ n → b ≤ n → bit_xor a b ≡ bit_xor b a
xor_comm_upto zero zero zero h k = refl
xor_comm_upto zero (suc a) b h k = absurd (omega arith)
xor_comm_upto zero zero (suc b) h k = absurd (omega arith)
xor_comm_upto (suc n) a b h k = omega (
  arith,
  xor_low a b,
  xor_low b a,
  differ_comm (a % 2) (b % 2),
  xor_comm_upto n (a / 2) (b / 2) (omega arith) (omega arith),
)

pub bit_xor_comm : (a b : ℕ) → bit_xor a b ≡ bit_xor b a
bit_xor_comm a b = xor_comm_upto (a + b) a b (omega arith) (omega arith)
