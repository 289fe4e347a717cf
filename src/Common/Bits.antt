-- ===== src/Common/Bits.antt =====
-- The bit operations that the code uses, as arithmetic, from their digit recursion.
use Prim.Native.Nat.{ℕ, zero, suc, ◌+◌, ◌-◌, ◌*◌, ◌/◌, ◌%◌, ◌^◌, ◌≤◌, ◌<◌, min, max}
use Prim.Native.Nat.{bit_and, bit_or, bit_xor, digits, bitwise}
use Prim.Native.Nat.{bit_and-bitwise, bit_or-bitwise, bit_xor-bitwise}
use mathlib.Core.Path.{◌≡◌, refl, ap}
use native.Mathlib.Omega.{arith}
use Prim.Native.Nat.{differ}
use native.Mathlib.Nat.{le_refl, pow-suc, one-le-pow}

module _ (tail : ℕ → ℕ) (pair : ℕ → ℕ → ℕ) where
  -- Fuel of the first number or more gives the same digits.
  same_digits : (x y k l : ℕ) → x ≤ k → x ≤ l → digits tail pair k x y ≡ digits tail pair l x y
  same_digits zero y zero zero hk hl = refl
  same_digits zero y zero (suc l) hk hl = refl
  same_digits zero y (suc k) zero hk hl = refl
  same_digits zero y (suc k) (suc l) hk hl = refl
  same_digits (suc x) y zero l hk hl = absurd (omega arith)
  same_digits (suc x) y (suc k) zero hk hl = absurd (omega arith)
  same_digits (suc x) y (suc k) (suc l) hk hl =
      let half : suc x / 2 ≤ k = omega arith in
      let half_l : suc x / 2 ≤ l = omega arith in
      rw (same_digits (suc x / 2) (y / 2) k l half half_l)

  bitwise_halves :
      (x y : ℕ)
      → bitwise tail pair (suc x) y
        ≡ pair (suc x % 2) (y % 2) + bitwise tail pair (suc x / 2) (y / 2) * 2
  bitwise_halves x y =
      let enough : suc x / 2 ≤ x = omega arith in
      omega (arith, same_digits (suc x / 2) (y / 2) x (suc x / 2) enough (le_refl (suc x / 2)))

bit_or_step : (x y : ℕ) → bit_or x y ≡ max (x % 2) (y % 2) + bit_or (x / 2) (y / 2) * 2
bit_or_step zero y = simp bit_or-bitwise (omega arith)
bit_or_step (suc x) y = simp bit_or-bitwise (bitwise_halves (λ t. t) max x y)

pub bit_and_step : (x y : ℕ) → bit_and x y ≡ min (x % 2) (y % 2) + bit_and (x / 2) (y / 2) * 2
bit_and_step zero y = simp bit_and-bitwise (omega arith)
bit_and_step (suc x) y = simp bit_and-bitwise (bitwise_halves (λ y. 0) min x y)

twice_pow : (q k : ℕ) → q * 2 ^ suc k ≡ 2 * (q * 2 ^ k)
twice_pow q k = omega (arith, ap (λ (t : ℕ). q * t) (pow-suc 2 k))

-- `r | (q << k)` is a sum where `r` fits the low `k` bits.
pub bit_or_shifted : (k r q : ℕ) → r < 2 ^ k → bit_or r (q * 2 ^ k) ≡ r + q * 2 ^ k
bit_or_shifted zero zero q fits = ground (arith, bit_or-bitwise 0 (q * 2 ^ 0))
bit_or_shifted zero (suc r) q fits = absurd (omega arith)
bit_or_shifted (suc k) r q fits = ground (
  arith,
  bit_or_step r (q * 2 ^ suc k),
  twice_pow q k,
  bit_or_shifted k (r / 2) q (omega (arith, pow-suc 2 k)),
)

bit_xor_step : (x y : ℕ) → bit_xor x y ≡ differ (x % 2) (y % 2) + bit_xor (x / 2) (y / 2) * 2
bit_xor_step zero y = simp bit_xor-bitwise (ground (arith, digit (y % 2)))
  where
    digit : (d : ℕ) → differ 0 d ≡ d
    digit d = refl
bit_xor_step (suc x) y = simp bit_xor-bitwise (bitwise_halves (λ y. y) differ x y)

differ_zero : (d : ℕ) → differ d 0 ≡ d
differ_zero zero = refl
differ_zero (suc d) = refl

differ_one : (d : ℕ) → d < 2 → differ d 1 ≡ 1 - d
differ_one zero h = refl
differ_one (suc zero) h = refl
differ_one (suc (suc d)) h = absurd (omega arith)

bit_xor-zero_fuel : (n a : ℕ) → a ≤ n → bit_xor a 0 ≡ a
bit_xor-zero_fuel n zero h = refl
bit_xor-zero_fuel zero (suc a) h = absurd (omega arith)
bit_xor-zero_fuel (suc n) (suc a) h = omega (
  arith,
  bit_xor_step (suc a) 0,
  differ_zero (suc a % 2),
  bit_xor-zero_fuel n (suc a / 2) (omega arith),
)

pub bit_xor-zero : (a : ℕ) → bit_xor a 0 ≡ a
bit_xor-zero a = bit_xor-zero_fuel a a (le_refl a)

-- `a ^ b` with `b` all ones is the complement within `k` bits.
pub bit_xor_ones : (k a : ℕ) → a < 2 ^ k → bit_xor a (2 ^ k - 1) ≡ 2 ^ k - 1 - a
bit_xor_ones zero zero h = refl
bit_xor_ones zero (suc a) h = absurd (omega arith)
bit_xor_ones (suc k) a h = ground (
  arith,
  pow-suc 2 k,
  one-le-pow k 2,
  bit_xor_step a (2 ^ suc k - 1),
  differ_one (a % 2) (omega arith),
  bit_xor_ones k (a / 2) (omega (arith, pow-suc 2 k)),
)

bit_and-zero_fuel : (x k : ℕ) → x ≤ k → bit_and x 0 ≡ 0
bit_and-zero_fuel zero k below = refl
bit_and-zero_fuel (suc x) zero below = absurd (omega arith)
bit_and-zero_fuel (suc x) (suc k) below =
    let half : suc x / 2 ≤ k = omega arith in
    omega (arith, bit_and-zero_fuel (suc x / 2) k half, bit_and_step (suc x) 0)

pub bit_and_one : (a : ℕ) → bit_and a 1 ≡ a % 2
bit_and_one a = omega (arith, bit_and_step a 1, bit_and-zero_fuel (a / 2) (a / 2) (le_refl _))

bit_and_low3 : (a : ℕ) → bit_and a 7 ≡ a % 8
bit_and_low3 a = omega (arith, bit_and_step a 7, bit_and_step (a / 2) 3, bit_and_one (a / 2 / 2))

bit_and_low5 : (a : ℕ) → bit_and a 31 ≡ a % 32
bit_and_low5 a = omega (arith, bit_and_step a 31, bit_and_step (a / 2) 15, bit_and_low3 (a / 2 / 2))

-- `a & 0x7F`
pub bit_and_low7 : (a : ℕ) → bit_and a 0x7f ≡ a % 128
bit_and_low7 a =
    omega (arith, bit_and_step a 127, bit_and_step (a / 2) 63, bit_and_low5 (a / 2 / 2))

-- `r | 0x80` for a group of seven bits.
pub bit_or_top : (r : ℕ) → r < 128 → bit_or r 0x80 ≡ r + 128
bit_or_top r h = bit_or_shifted 7 r 1 h
