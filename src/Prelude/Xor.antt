-- ===== src/Prelude/Xor.antt =====
-- The group laws of `^` on numbers.
use Prim.Native.Nat.{ℕ, zero, suc, ◌+◌, ◌*◌, ◌/◌, ◌%◌, ◌≤◌, ◌<◌, differ, bit_xor, bit_xor-bitwise}
use mathlib.Core.Path.{◌≡◌, refl, sym, ap, ap₂, ◌∙◌}
use native.Mathlib.Omega.{arith}
use native.Mathlib.Nat.{le_refl}
use safe_key_vault.Prelude.Bits.{bit_xor-low, bit_xor_self, differ-le_one}

pub zero-bit_xor : (b : ℕ) → bit_xor 0 b ≡ b
zero-bit_xor b = bit_xor-bitwise 0 b

halves :
    (a b : ℕ)
    → (bit_xor a b / 2 ≡ bit_xor (a / 2) (b / 2)) × (bit_xor a b % 2 ≡ differ (a % 2) (b % 2))
halves a b =
    omega (arith, bit_xor-low a b, differ-le_one (a % 2) (b % 2) (omega arith) (omega arith))

differ_comm : (x y : ℕ) → x < 2 → y < 2 → differ x y ≡ differ y x
differ_comm zero zero p q = refl
differ_comm zero (suc y) p q = refl
differ_comm (suc x) zero p q = refl
differ_comm (suc x) (suc y) p q = differ_comm x y (omega arith) (omega arith)

differ_assoc : (x y z : ℕ) → x < 2 → y < 2 → z < 2 → differ (differ x y) z ≡ differ x (differ y z)
differ_assoc zero y z p q r = refl
differ_assoc (suc zero) zero z p q r = refl
differ_assoc (suc zero) (suc zero) zero p q r = refl
differ_assoc (suc zero) (suc zero) (suc zero) p q r = refl
differ_assoc (suc zero) (suc zero) (suc (suc z)) p q r = absurd (omega arith)
differ_assoc (suc zero) (suc (suc y)) z p q r = absurd (omega arith)
differ_assoc (suc (suc x)) y z p q r = absurd (omega arith)

xor_comm_fuel : (n a b : ℕ) → a ≤ n → b ≤ n → bit_xor a b ≡ bit_xor b a
xor_comm_fuel zero zero zero p q = refl
xor_comm_fuel zero zero (suc b) p q = absurd (omega arith)
xor_comm_fuel zero (suc a) b p q = absurd (omega arith)
xor_comm_fuel (suc n) a b p q = omega (
  arith,
  bit_xor-low a b,
  bit_xor-low b a,
  differ_comm (a % 2) (b % 2) (omega arith) (omega arith),
  xor_comm_fuel n (a / 2) (b / 2) (omega arith) (omega arith),
)

pub bit_xor_comm : (a b : ℕ) → bit_xor a b ≡ bit_xor b a
bit_xor_comm a b = xor_comm_fuel (a + b) a b (omega arith) (omega arith)

xor_assoc_fuel : (n a b c : ℕ) → a ≤ n → bit_xor (bit_xor a b) c ≡ bit_xor a (bit_xor b c)
xor_assoc_fuel n zero b c p = rw (zero-bit_xor b, zero-bit_xor (bit_xor b c))
xor_assoc_fuel zero (suc a) b c p = absurd (omega arith)
xor_assoc_fuel (suc n) (suc a) b c p =
    let x = suc a in
    let left = halves x b in
    let right = halves b c in
    let digit = differ_assoc (x % 2) (b % 2) (c % 2) (omega arith) (omega arith) (omega arith) in
    let rest = xor_assoc_fuel n (x / 2) (b / 2) (c / 2) (omega arith) in
    bit_xor-low (bit_xor x b) c
    ∙ ap₂ (λ (s t : ℕ). bit_xor s (c / 2) * 2 + differ t (c % 2)) left.0 left.1
    ∙ ap₂ (λ (s t : ℕ). s * 2 + t) rest digit
    ∙ sym (ap₂ (λ (s t : ℕ). bit_xor (x / 2) s * 2 + differ (x % 2) t) right.0 right.1)
    ∙ sym (bit_xor-low x (bit_xor b c))

pub bit_xor_assoc : (a b c : ℕ) → bit_xor (bit_xor a b) c ≡ bit_xor a (bit_xor b c)
bit_xor_assoc a b c = xor_assoc_fuel a a b c (le_refl a)

pub bit_xor-zero : (a : ℕ) → bit_xor a 0 ≡ a
bit_xor-zero a = bit_xor_comm a 0 ∙ zero-bit_xor a

-- A byte that is added twice cancels out.
pub bit_xor_twice : (a b : ℕ) → bit_xor (bit_xor a b) b ≡ a
bit_xor_twice a b = bit_xor_assoc a b b ∙ ap (bit_xor a) (bit_xor_self b) ∙ bit_xor-zero a
