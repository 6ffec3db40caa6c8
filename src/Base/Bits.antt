-- ===== src/Base/Bits.antt =====
-- Single bits of a native number, under `bit_and` and `bit_or` with a power of two.
use Prim.Native.Nat.{
  ℕ, zero, suc, ◌+◌, ◌*◌, ◌/◌, ◌%◌, ◌^◌, ◌≤◌, min, max, bit_and, bit_or, digits, bit_and-bitwise,
  bit_or-bitwise,
}
use mathlib.Core.Path.{◌≡◌, refl, ◌∙◌, ap}
use native.Mathlib.Nat.{pow-suc}
use native.Mathlib.Omega.{arith}
use lab_monitor.Base.Tests.{◌==◌, if◌then◌else◌}

-- The bit of a number at a place.
abbrev pub bit : ℕ → ℕ → ℕ
bit zero a = a % 2
bit (suc k) a = bit k (a / 2)

-- The definition that the native operation stands for, with any fuel.
abbrev and_digits : ℕ → ℕ → ℕ → ℕ
and_digits n a b = digits (λ b. zero) min n a b

and_fuel : (n m a b : ℕ) → a ≤ n → a ≤ m → and_digits n a b ≡ and_digits m a b
and_fuel zero zero a b p q = refl
and_fuel zero (suc m) zero b p q = refl
and_fuel zero (suc m) (suc a) b p q = absurd (omega arith)
and_fuel (suc n) zero zero b p q = refl
and_fuel (suc n) zero (suc a) b p q = absurd (omega arith)
and_fuel (suc n) (suc m) zero b p q = refl
and_fuel (suc n) (suc m) (suc a) b p q =
    omega (arith, and_fuel n m (suc a / 2) (b / 2) (omega arith) (omega arith))

and_zero : (b : ℕ) → bit_and 0 b ≡ 0
and_zero b = bit_and-bitwise 0 b

and_step : (a b : ℕ) → bit_and a b ≡ bit_and (a / 2) (b / 2) * 2 + min (a % 2) (b % 2)
and_step zero b = omega (arith, and_zero b, and_zero (b / 2))
and_step (suc a) b = omega (
  arith,
  bit_and-bitwise (suc a) b,
  bit_and-bitwise (suc a / 2) (b / 2),
  and_fuel a (suc a / 2) (suc a / 2) (b / 2) (omega arith) (omega arith),
)

abbrev or_digits : ℕ → ℕ → ℕ → ℕ
or_digits n a b = digits (λ b. b) max n a b

or_fuel : (n m a b : ℕ) → a ≤ n → a ≤ m → or_digits n a b ≡ or_digits m a b
or_fuel zero zero a b p q = refl
or_fuel zero (suc m) zero b p q = refl
or_fuel zero (suc m) (suc a) b p q = absurd (omega arith)
or_fuel (suc n) zero zero b p q = refl
or_fuel (suc n) zero (suc a) b p q = absurd (omega arith)
or_fuel (suc n) (suc m) zero b p q = refl
or_fuel (suc n) (suc m) (suc a) b p q =
    omega (arith, or_fuel n m (suc a / 2) (b / 2) (omega arith) (omega arith))

or_zero : (b : ℕ) → bit_or 0 b ≡ b
or_zero b = bit_or-bitwise 0 b

or_step : (a b : ℕ) → bit_or a b ≡ bit_or (a / 2) (b / 2) * 2 + max (a % 2) (b % 2)
or_step zero b = omega (arith, or_zero b, or_zero (b / 2))
or_step (suc a) b = omega (
  arith,
  bit_or-bitwise (suc a) b,
  bit_or-bitwise (suc a / 2) (b / 2),
  or_fuel a (suc a / 2) (suc a / 2) (b / 2) (omega arith) (omega arith),
)

bit-or : (j a b : ℕ) → bit j (bit_or a b) ≡ max (bit j a) (bit j b)
bit-or zero a b = omega (arith, or_step a b)
bit-or (suc j) a b =
    let half : bit_or a b / 2 ≡ bit_or (a / 2) (b / 2) = omega (arith, or_step a b) in
    rw half (bit-or j (a / 2) (b / 2))

bit-zero : (j : ℕ) → bit j 0 ≡ 0
bit-zero zero = refl
bit-zero (suc j) = bit-zero j

-- A power of two has one bit.
bit-pow : (j k : ℕ) → bit j (2 ^ k) ≡ (if j == k then 1 else 0)
bit-pow zero zero = refl
bit-pow (suc j) zero = ground (arith, bit-zero j)
bit-pow zero (suc k) = ground (arith, pow-suc 2 k)
bit-pow (suc j) (suc k) =
    let half : 2 ^ suc k / 2 ≡ 2 ^ k = omega (arith, pow-suc 2 k) in
    rw half (ground (arith, bit-pow j k))

bit-le : (j a : ℕ) → bit j a ≤ 1
bit-le zero a = omega arith
bit-le (suc j) a = bit-le j (a / 2)

and_right_fuel : (n a : ℕ) → a ≤ n → bit_and a 0 ≡ 0
and_right_fuel n zero h = refl
and_right_fuel zero (suc a) h = absurd (omega arith)
and_right_fuel (suc n) (suc a) h =
    omega (arith, and_step (suc a) 0, and_right_fuel n (suc a / 2) (omega arith))

and_right : (a : ℕ) → bit_and a 0 ≡ 0
and_right a = and_right_fuel a a (omega arith)

-- Setting a bit sets that bit and no other.
pub bit-or_pow : (j k a : ℕ) → bit j (bit_or a (2 ^ k)) ≡ (if j == k then 1 else bit j a)
bit-or_pow j k a = ground (arith, bit-or j a (2 ^ k), bit-pow j k, bit-le j a)

-- Masking with a power of two leaves nothing but that bit.
pub and_pow : (k a : ℕ) → bit_and a (2 ^ k) ≡ bit k a * 2 ^ k
and_pow zero a = omega (arith, and_step a 1, and_right (a / 2))
and_pow (suc k) a =
    let half : 2 ^ suc k / 2 ≡ 2 ^ k = omega (arith, pow-suc 2 k) in
    let step : bit_and a (2 ^ suc k) ≡ bit_and (a / 2) (2 ^ k) * 2 =
      omega (arith, rw half at (and_step a (2 ^ suc k)), pow-suc 2 k) in
    step ∙ omega (arith, and_pow k (a / 2), ap (λ t. bit k (a / 2) * t) (pow-suc 2 k))
