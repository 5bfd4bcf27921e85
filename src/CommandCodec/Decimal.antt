-- ===== src/CommandCodec/Decimal.antt =====
-- Numbers in the frames of firmware/src/command_codec.c: printing and `strtoul`.
use safe_key_vault.Prelude.{
  ℕ, zero, suc, ◌+◌, ◌-◌, ◌*◌, ◌/◌, ◌%◌, ◌^◌, ◌<◌, ◌≤◌, ◌≡◌, refl, ap, ◌∙◌, inl, inr, true, false,
  some, [], ◌∷◌, ◌++◌, Text, length, length-append, ltb, leb, ◌==◌, All, All-append, Bool-cases,
  arith,
}
use native.Mathlib.Nat.{pow-suc}
use safe_key_vault.CommandCodec.{
  is_digit, is_space, skip_space, read_digits, read_sign, starts_with_digit, all_read, parse_nonce,
  decimal,
}

abbrev pub IsDigit : ℕ → Type 0
IsDigit c = (48 ≤ c) × (c ≤ 57)

is_digit-IsDigit : (c : ℕ) → IsDigit c → is_digit c ≡ true
is_digit-IsDigit c h = ground arith

read_digits-append :
    (s : Text) (m d : ℕ)
    → All IsDigit s
    → IsDigit d
    → read_digits m (s ++ (d ∷ [])) ≡ ((read_digits m s).0 * 10 + (d - 48), [])
unfolding read_digits
read_digits-append [] m d h k = rw (is_digit-IsDigit d k) refl
read_digits-append (c ∷ s) m d (hc, hs) k =
    rw (is_digit-IsDigit c hc) (read_digits-append s (m * 10 + (c - 48)) d hs k)

pub decimal-IsDigit : (k n : ℕ) → All IsDigit (decimal k n)
unfolding decimal
decimal-IsDigit zero n = ((omega arith, omega arith), tt)
decimal-IsDigit (suc k) n = elim (Bool-cases (ltb n 10)) [
  | inl small ↦ let few : n < 10 = ground arith in rw small ((omega arith, omega arith), tt)
  | inr big ↦ rw big (
      All-append IsDigit (decimal k (n / 10)) ((48 + n % 10) ∷ []) (decimal-IsDigit k (n / 10))
        ((omega arith, omega arith), tt))
]

decimal-read : (k n : ℕ) → n < 10 ^ suc k → read_digits 0 (decimal k n) ≡ (n, [])
unfolding decimal read_digits
decimal-read zero n h =
    read_digits-append [] 0 (48 + n % 10) tt (omega arith, omega arith)
    ∙ ap (λ v. (v, [])) (omega arith)
decimal-read (suc k) n h = elim (Bool-cases (ltb n 10)) [
  | inl small ↦
      let few : n < 10 = ground arith in
      rw small (
        read_digits-append [] 0 (48 + n) tt (omega arith, omega arith)
        ∙ ap (λ v. (v, [])) (omega arith))
  | inr big ↦
      let high = decimal-read k (n / 10) (omega (arith, pow-suc 10 (suc k))) in
      rw big (
        read_digits-append (decimal k (n / 10)) 0 (48 + n % 10) (decimal-IsDigit k (n / 10))
          (omega arith, omega arith)
        ∙ ap (λ r. (r.0 * 10 + (48 + n % 10 - 48), [])) high
        ∙ ap (λ v. (v, [])) (omega arith))
]

pub length-decimal : (k n : ℕ) → length (decimal k n) ≤ suc k
unfolding decimal
length-decimal zero n = omega arith
length-decimal (suc k) n = elim (Bool-cases (ltb n 10)) [
  | inl small ↦ rw small (omega arith)
  | inr big ↦ rw big (
      omega
        (arith, length-append (decimal k (n / 10)) ((48 + n % 10) ∷ []), length-decimal k (n / 10)))
]

starts-append : (s t : Text) → starts_with_digit s ≡ true → starts_with_digit (s ++ t) ≡ true
unfolding starts_with_digit
starts-append [] t h = cc h
starts-append (c ∷ s) t h = h

decimal-starts : (k n : ℕ) → starts_with_digit (decimal k n) ≡ true
unfolding decimal starts_with_digit
decimal-starts zero n = is_digit-IsDigit (48 + n % 10) (omega arith, omega arith)
decimal-starts (suc k) n = elim (Bool-cases (ltb n 10)) [
  | inl small ↦
      let few : n < 10 = ground arith in
      rw small (is_digit-IsDigit (48 + n) (omega arith, omega arith))
  | inr big ↦ rw big (starts-append (decimal k (n / 10)) _ (decimal-starts k (n / 10)))
]

unsigned : (s : Text) → starts_with_digit s ≡ true → read_sign (skip_space s) ≡ (false, s)
unfolding starts_with_digit read_sign skip_space
unsigned [] h = refl
unsigned (c ∷ s) h =
    let printed : is_space c ≡ false = ground arith in
    let minus : (c == 45) ≡ false = ground arith in
    let plus : (c == 43) ≡ false = ground arith in rw (printed, minus, plus) refl

-- A 32-bit number that is printed is read back.
pub parse_nonce-decimal : (n : ℕ) → n < 2 ^ 32 → parse_nonce (decimal 9 n) ≡ some n
unfolding parse_nonce all_read
parse_nonce-decimal n h =
    let fits : leb (2 ^ 32) n ≡ false = ground arith in
    rw
      (
        unsigned (decimal 9 n) (decimal-starts 9 n),
        decimal-starts 9 n,
        decimal-read 9 n (omega arith),
        fits,
      )
      refl
