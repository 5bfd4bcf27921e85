-- ===== src/Prelude/Bits.antt =====
-- The laws of `^` and `|` on numbers that a comparison of byte buffers needs.
use Prim.Native.Nat.{
  ℕ, zero, suc, ◌+◌, ◌*◌, ◌/◌, ◌%◌, ◌≤◌, ◌<◌, ◌^◌, max, differ, digits, bitwise, bit_or, bit_xor,
  bit_or-bitwise, bit_xor-bitwise,
}
use mathlib.Core.Path.{◌≡◌, refl}
use native.Mathlib.Omega.{arith}
use native.Mathlib.Nat.{le_refl, pow-suc}

module _ (z : ℕ → ℕ) (f : ℕ → ℕ → ℕ) where
  digits_more : (n m a b : ℕ) → a ≤ n → a ≤ m → digits z f n a b ≡ digits z f m a b
  digits_more zero zero a b p q = refl
  digits_more zero (suc m) zero b p q = refl
  digits_more zero (suc m) (suc a) b p q = absurd (omega arith)
  digits_more (suc n) zero zero b p q = refl
  digits_more (suc n) zero (suc a) b p q = absurd (omega arith)
  digits_more (suc n) (suc m) zero b p q = refl
  digits_more (suc n) (suc m) (suc a) b p q =
      rw (digits_more n m (suc a / 2) (b / 2) (omega arith) (omega arith))

  bitwise-low :
      (a b : ℕ)
      → bitwise z f (suc a) b ≡ bitwise z f (suc a / 2) (b / 2) * 2 + f (suc a % 2) (b % 2)
  bitwise-low a b =
      omega (arith, digits_more a (suc a / 2) (suc a / 2) (b / 2) (omega arith) (le_refl _))

pub bit_or-low : (a b : ℕ) → bit_or a b ≡ bit_or (a / 2) (b / 2) * 2 + max (a % 2) (b % 2)
bit_or-low zero b = simp bit_or-bitwise (omega arith)
bit_or-low (suc a) b = simp bit_or-bitwise (bitwise-low (λ y. y) max a b)

pub bit_xor-low : (a b : ℕ) → bit_xor a b ≡ bit_xor (a / 2) (b / 2) * 2 + differ (a % 2) (b % 2)
bit_xor-low zero b = simp bit_xor-bitwise (omega arith)
bit_xor-low (suc a) b = simp bit_xor-bitwise (bitwise-low (λ y. y) differ a b)

differ_self : (x : ℕ) → differ x x ≡ 0
differ_self zero = refl
differ_self (suc x) = differ_self x

differ_zero : (x y : ℕ) → differ x y ≡ 0 → x ≡ y
differ_zero zero y h = omega arith
differ_zero (suc x) zero h = absurd (omega arith)
differ_zero (suc x) (suc y) h = omega (arith, differ_zero x y h)

xor_self_fuel : (n a : ℕ) → a ≤ n → bit_xor a a ≡ 0
xor_self_fuel n zero h = refl
xor_self_fuel zero (suc a) h = absurd (omega arith)
xor_self_fuel (suc n) (suc a) h = omega (
  arith,
  bit_xor-low (suc a) (suc a),
  differ_self (suc a % 2),
  xor_self_fuel n (suc a / 2) (omega arith),
)

pub bit_xor_self : (a : ℕ) → bit_xor a a ≡ 0
bit_xor_self a = xor_self_fuel a a (le_refl a)

zero-bit_xor : (b : ℕ) → bit_xor 0 b ≡ b
zero-bit_xor b = bit_xor-bitwise 0 b

xor_zero_fuel : (n a b : ℕ) → a ≤ n → bit_xor a b ≡ 0 → a ≡ b
xor_zero_fuel n zero b h e = omega (arith, zero-bit_xor b)
xor_zero_fuel zero (suc a) b h e = absurd (omega arith)
xor_zero_fuel (suc n) (suc a) b h e =
    let low : bit_xor (suc a / 2) (b / 2) * 2 + differ (suc a % 2) (b % 2) ≡ 0 =
      omega (arith, bit_xor-low (suc a) b) in
    let high : suc a / 2 ≡ b / 2 =
      xor_zero_fuel n (suc a / 2) (b / 2) (omega arith) (omega arith) in
    let bit : suc a % 2 ≡ b % 2 = differ_zero (suc a % 2) (b % 2) (omega arith) in omega arith

pub bit_xor_zero : (a b : ℕ) → bit_xor a b ≡ 0 → a ≡ b
bit_xor_zero a b = xor_zero_fuel a a b (le_refl a)

zero-bit_or : (b : ℕ) → bit_or 0 b ≡ b
zero-bit_or b = bit_or-bitwise 0 b

or_zero_fuel : (n a b : ℕ) → a ≤ n → bit_or a b ≡ 0 → (a ≡ 0) × (b ≡ 0)
or_zero_fuel n zero b h e = (refl, omega (arith, zero-bit_or b))
or_zero_fuel zero (suc a) b h e = absurd (omega arith)
or_zero_fuel (suc n) (suc a) b h e =
    let low : bit_or (suc a / 2) (b / 2) * 2 + max (suc a % 2) (b % 2) ≡ 0 =
      omega (arith, bit_or-low (suc a) b) in
    let high : (suc a / 2 ≡ 0) × (b / 2 ≡ 0) =
      or_zero_fuel n (suc a / 2) (b / 2) (omega arith) (omega arith) in
    omega (arith, high)

pub bit_or_zero : (a b : ℕ) → bit_or a b ≡ 0 → (a ≡ 0) × (b ≡ 0)
bit_or_zero a b = or_zero_fuel a a b (le_refl a)

-- A sum of the two digits bounds `|`, so bytes stay bytes.
or_bound_fuel : (n k a b : ℕ) → a ≤ n → a < 2 ^ k → b < 2 ^ k → bit_or a b < 2 ^ k
or_bound_fuel n k zero b h p q = omega (arith, zero-bit_or b)
or_bound_fuel zero k (suc a) b h p q = absurd (omega arith)
or_bound_fuel (suc n) zero (suc a) b h p q = absurd (omega arith)
or_bound_fuel (suc n) (suc k) (suc a) b h p q = omega (
  arith,
  pow-suc 2 k,
  bit_or-low (suc a) b,
  or_bound_fuel n k (suc a / 2) (b / 2) (omega arith) (omega (arith, pow-suc 2 k))
      (omega (arith, pow-suc 2 k)),
)

pub bit_or-lt : (k a b : ℕ) → a < 2 ^ k → b < 2 ^ k → bit_or a b < 2 ^ k
bit_or-lt k a b = or_bound_fuel a k a b (le_refl a)

pub differ-le_one : (x y : ℕ) → x < 2 → y < 2 → differ x y ≤ 1
differ-le_one zero y p q = omega arith
differ-le_one (suc zero) zero p q = omega arith
differ-le_one (suc zero) (suc zero) p q = omega arith
differ-le_one (suc zero) (suc (suc y)) p q = absurd (omega arith)
differ-le_one (suc (suc x)) y p q = absurd (omega arith)

xor_bound_fuel : (n k a b : ℕ) → a ≤ n → a < 2 ^ k → b < 2 ^ k → bit_xor a b < 2 ^ k
xor_bound_fuel n k zero b h p q = omega (arith, zero-bit_xor b)
xor_bound_fuel zero k (suc a) b h p q = absurd (omega arith)
xor_bound_fuel (suc n) zero (suc a) b h p q = absurd (omega arith)
xor_bound_fuel (suc n) (suc k) (suc a) b h p q = omega (
  arith,
  pow-suc 2 k,
  bit_xor-low (suc a) b,
  differ-le_one (suc a % 2) (b % 2) (omega arith) (omega arith),
  xor_bound_fuel n k (suc a / 2) (b / 2) (omega arith) (omega (arith, pow-suc 2 k))
      (omega (arith, pow-suc 2 k)),
)

pub bit_xor-lt : (k a b : ℕ) → a < 2 ^ k → b < 2 ^ k → bit_xor a b < 2 ^ k
bit_xor-lt k a b = xor_bound_fuel a k a b (le_refl a)
