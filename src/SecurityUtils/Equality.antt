-- ===== src/SecurityUtils/Equality.antt =====
-- What the constant-time comparison of firmware/src/security_utils.c decides.
use safe_key_vault.Prelude.{
  ℕ, zero, suc, ◌%◌, ◌≤◌, ◌<◌, true, some, List, [], ◌∷◌, bit_or, bit_xor, arith, ◌≡◌, ◌↔◌, refl,
  length, take, All, ==_iff,
}
use safe_key_vault.Prelude.Bits.{bit_or_zero, bit_xor_zero, bit_xor_self, bit_xor-lt}
use safe_key_vault.SecurityUtils.{diff_bytes, sec_consttime_memeq}

abbrev pub IsByte : ℕ → Type 0
IsByte x = x < 256

diff_byte : (x y : ℕ) → IsByte x → IsByte y → bit_xor x y % 256 ≡ bit_xor x y
diff_byte x y p q = omega (arith, bit_xor-lt 8 x y p q)

-- The loop leaves 0 only if it began at 0 and met no difference.
diff_bytes-zero :
    (len : ℕ) (a b : List ℕ) (d : ℕ)
    → All IsByte a
    → All IsByte b
    → len ≤ length a
    → len ≤ length b
    → diff_bytes len a b d ≡ 0
    → (d ≡ 0) × (take len a ≡ take len b)
unfolding diff_bytes
diff_bytes-zero zero a b d ha hb la lb h = (h, refl)
diff_bytes-zero (suc len) [] b d ha hb la lb h = absurd (omega arith)
diff_bytes-zero (suc len) (x ∷ a) [] d ha hb la lb h = absurd (omega arith)
diff_bytes-zero (suc len) (x ∷ a) (y ∷ b) d (hx, ha) (hy, hb) la lb h =
    let (here, rest) =
      diff_bytes-zero len a b (bit_or d (bit_xor x y % 256)) ha hb (omega arith) (omega arith) h in
    let (before, diff) = bit_or_zero d (bit_xor x y % 256) here in
    let same : x ≡ y = bit_xor_zero x y (omega (arith, diff_byte x y hx hy)) in
    (before, ground arith)

diff_bytes_same : (len : ℕ) (a b : List ℕ) → take len a ≡ take len b → diff_bytes len a b 0 ≡ 0
unfolding diff_bytes
diff_bytes_same zero a b h = refl
diff_bytes_same (suc len) [] b h = refl
diff_bytes_same (suc len) (x ∷ a) [] h = refl
diff_bytes_same (suc len) (x ∷ a) (y ∷ b) h =
    let same : x ≡ y = ground arith in
    let tails : take len a ≡ take len b = ground arith in
    rw (← same, bit_xor_self x) (diff_bytes_same len a b tails)

-- For two buffers of at least `len` bytes, `sec_consttime_memeq` is true exactly when their first
-- `len` bytes are equal.
pub sec_consttime_memeq_iff :
    (len : ℕ) (a b : List ℕ)
    → All IsByte a
    → All IsByte b
    → len ≤ length a
    → len ≤ length b
    → (sec_consttime_memeq (some a) (some b) len ≡ true) ↔ (take len a ≡ take len b)
unfolding sec_consttime_memeq
sec_consttime_memeq_iff len a b ha hb la lb = (
  λ h. (diff_bytes-zero len a b 0 ha hb la lb ((==_iff _ 0).0 h)).1,
  λ e. (==_iff _ 0).1 (diff_bytes_same len a b e),
)

-- Whatever they hold, equal buffers compare equal.
pub sec_consttime_memeq_refl :
    (len : ℕ) (a : List ℕ) → sec_consttime_memeq (some a) (some a) len ≡ true
unfolding sec_consttime_memeq
sec_consttime_memeq_refl len a = (==_iff _ 0).1 (diff_bytes_same len a a refl)
