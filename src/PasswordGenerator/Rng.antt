-- ===== src/PasswordGenerator/Rng.antt =====
-- The xorshift generator of firmware/src/password_generator.c.
use safe_key_vault.Prelude.{
  ℕ, zero, suc, ◌+◌, ◌*◌, ◌/◌, ◌%◌, ◌^◌, ◌<◌, ◌≡◌, refl, inl, inr, List, [], ◌∷◌, bit_xor, ◌==◌,
  Bool-cases, arith,
}
use safe_key_vault.Prelude.Bits.{bit_xor_zero, bit_xor-lt}
use safe_key_vault.PasswordGenerator.{xor_left, xor_right, rng_step, seed_from, seed_from_bytes}

abbrev pub IsState : ℕ → Type 0
IsState x = (0 < x) × (x < 2 ^ 32)

left13 : (x : ℕ) → x ≡ x * 2 ^ 13 % 2 ^ 32 → x < 2 ^ 32 → x ≡ 0
left13 x e h = omega arith

right17 : (x : ℕ) → x ≡ x / 2 ^ 17 → x ≡ 0
right17 x e = omega arith

left5 : (x : ℕ) → x ≡ x * 2 ^ 5 % 2 ^ 32 → x < 2 ^ 32 → x ≡ 0
left5 x e h = omega arith

positive : (n : ℕ) → (n ≡ 0 → ⊥) → 0 < n
positive zero h = absurd (h refl)
positive (suc n) h = omega arith

-- An exclusive or is 0 only if its sides are equal.
xor-IsState : (x y : ℕ) → IsState x → y < 2 ^ 32 → (x ≡ y → x ≡ 0) → IsState (bit_xor x y)
xor-IsState x y (pos, lt) h only = (
  positive (bit_xor x y)
      (λ e. let nothing : x ≡ 0 = only (bit_xor_zero x y e) in absurd (omega arith)),
  bit_xor-lt 32 x y lt h,
)

-- From a state that is not 0 the generator never comes to 0, and it stays within 32 bits.
pub rng_step-IsState : (x : ℕ) → IsState x → IsState (rng_step x)
unfolding rng_step
rng_step-IsState x s0 =
    let a = xor_left 13 x in
    let s1 : IsState a =
      xor-IsState x (x * 2 ^ 13 % 2 ^ 32) s0 (omega arith) (λ e. left13 x e s0.1) in
    let b = xor_right 17 a in
    let s2 : IsState b = xor-IsState a (a / 2 ^ 17) s1 (omega (arith, s1.1)) (λ e. right17 a e) in
    xor-IsState b (b * 2 ^ 5 % 2 ^ 32) s2 (omega arith) (λ e. left5 b e s2.1)

seed_from-lt : (seed : List ℕ) (state i : ℕ) → state < 2 ^ 32 → seed_from state i seed < 2 ^ 32
unfolding seed_from
seed_from-lt [] state i h = h
seed_from-lt (b ∷ seed) state i h = seed_from-lt seed _ (i + 1) (omega arith)

-- Every seed gives a state that is not 0, within 32 bits.
pub seed_from_bytes-IsState : (seed : List ℕ) → IsState (seed_from_bytes seed)
unfolding seed_from_bytes
seed_from_bytes-IsState seed =
    let below = seed_from-lt seed 2783976767 0 (omega arith) in
    elim (Bool-cases (seed_from 2783976767 0 seed == 0)) [
      | inl zeroed ↦ rw zeroed (omega arith, omega arith)
      | inr other ↦
          let pos : 0 < seed_from 2783976767 0 seed = ground arith in rw other (pos, below)
    ]
