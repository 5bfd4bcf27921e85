-- ===== src/Totp/Pending.antt =====
-- The arithmetic of the pending bits in `base32_decode` of firmware/src/totp.c.
use safe_key_vault.Prelude.{
  ℕ, zero, suc, ◌+◌, ◌-◌, ◌*◌, ◌/◌, ◌%◌, ◌^◌, ◌<◌, ◌≤◌, ◌≡◌, refl, List, [], ◌∷◌, ◌++◌, arith,
}

abbrev pub low_number : ℕ → ℕ → ℕ
low_number v digit = v * 32 % 2 ^ 32 + digit

-- Fewer than eight bits are pending.
pub low :
    (bits v n total digit : ℕ)
    → bits < 3
    → digit < 32
    → n * 2 ^ bits + v % 2 ^ bits ≡ total
    → n * 2 ^ (bits + 5) + low_number v digit % 2 ^ (bits + 5) ≡ total * 32 + digit
low zero v n total digit h d e = omega arith
low (suc zero) v n total digit h d e = omega arith
low (suc (suc zero)) v n total digit h d e = omega arith
low (suc (suc (suc bits))) v n total digit h d e = absurd (omega arith)

-- A byte is complete.
pub high :
    (bits v n total digit : ℕ)
    → 3 ≤ bits
    → bits < 8
    → digit < 32
    → n * 2 ^ bits + v % 2 ^ bits ≡ total
    → (n * 256 + low_number v digit / 2 ^ (bits + 5 - 8) % 256) * 2 ^ (bits + 5 - 8)
        + low_number v digit % 2 ^ (bits + 5 - 8)
      ≡ total * 32 + digit
high zero v n total digit l h d e = absurd (omega arith)
high (suc zero) v n total digit l h d e = absurd (omega arith)
high (suc (suc zero)) v n total digit l h d e = absurd (omega arith)
high (suc (suc (suc zero))) v n total digit l h d e = omega arith
high (suc (suc (suc (suc zero)))) v n total digit l h d e = omega arith
high (suc (suc (suc (suc (suc zero))))) v n total digit l h d e = omega arith
high (suc (suc (suc (suc (suc (suc zero)))))) v n total digit l h d e = omega arith
high (suc (suc (suc (suc (suc (suc (suc zero))))))) v n total digit l h d e = omega arith
high (suc (suc (suc (suc (suc (suc (suc (suc b)))))))) v n total digit l h d e =
    absurd (omega arith)

pub quotient :
    (bits v n total : ℕ) → bits < 8 → n * 2 ^ bits + v % 2 ^ bits ≡ total → n ≡ total / 2 ^ bits
quotient zero v n total h e = omega arith
quotient (suc zero) v n total h e = omega arith
quotient (suc (suc zero)) v n total h e = omega arith
quotient (suc (suc (suc zero))) v n total h e = omega arith
quotient (suc (suc (suc (suc zero)))) v n total h e = omega arith
quotient (suc (suc (suc (suc (suc zero))))) v n total h e = omega arith
quotient (suc (suc (suc (suc (suc (suc zero)))))) v n total h e = omega arith
quotient (suc (suc (suc (suc (suc (suc (suc zero))))))) v n total h e = omega arith
quotient (suc (suc (suc (suc (suc (suc (suc (suc b)))))))) v n total h e = absurd (omega arith)

-- A list of digits as a number, to a base.
abbrev pub number_from : ℕ → ℕ → List ℕ → ℕ
number_from base n [] = n
number_from base n (x ∷ xs) = number_from base (n * base + x) xs

pub number_from-append :
    (base n : ℕ) (xs : List ℕ) (x : ℕ)
    → number_from base n (xs ++ (x ∷ [])) ≡ number_from base n xs * base + x
number_from-append base n [] x = refl
number_from-append base n (y ∷ xs) x = number_from-append base (n * base + y) xs x

abbrev pub IsByte : ℕ → Type 0
IsByte x = x < 256
