-- ===== src/Totp/Digits.antt =====
-- The text of a code in firmware/src/totp.c.
use safe_key_vault.Prelude.{
  ℕ, zero, suc, ◌+◌, ◌-◌, ◌*◌, ◌/◌, ◌%◌, ◌^◌, ◌<◌, ◌≤◌, ◌≡◌, refl, ap, ◌∙◌, ◌⊎◌, inl, inr, true,
  false, some, [], ◌∷◌, ◌++◌, Text, length, length-append, All, All-append, take, ltb, ◌==◌, arith,
}
use native.Mathlib.Nat.{pow-suc, mod-lt}
use safe_key_vault.Totp.{Account}
use safe_key_vault.Totp.Sha1.{Context, hmac_sha1}
use safe_key_vault.Totp.Code.{
  counter_bytes, truncated, divisor, zero_padded, totp_generate_code_internal, totp_get_code,
}

-- The number that decimal digits are read as.
abbrev pub number_from : ℕ → Text → ℕ
number_from n [] = n
number_from n (c ∷ s) = number_from (n * 10 + (c - 48)) s

abbrev pub IsDigit : ℕ → Type 0
IsDigit c = (48 ≤ c) × (c ≤ 57)

number_from-append : (n : ℕ) (s t : Text) → number_from n (s ++ t) ≡ number_from (number_from n s) t
number_from-append n [] t = refl
number_from-append n (c ∷ s) t = number_from-append (n * 10 + (c - 48)) s t

length-zero_padded : (width n : ℕ) → length (zero_padded width n) ≡ width
unfolding zero_padded
length-zero_padded zero n = refl
length-zero_padded (suc width) n = omega (
  arith,
  length-append (zero_padded width (n / 10)) ((48 + n % 10) ∷ []),
  length-zero_padded width (n / 10),
)

zero_padded-IsDigit : (width n : ℕ) → All IsDigit (zero_padded width n)
unfolding zero_padded
zero_padded-IsDigit zero n = tt
zero_padded-IsDigit (suc width) n =
    All-append IsDigit (zero_padded width (n / 10)) ((48 + n % 10) ∷ [])
      (zero_padded-IsDigit width (n / 10)) ((omega arith, omega arith), tt)

number-zero_padded : (width n : ℕ) → n < 10 ^ width → number_from 0 (zero_padded width n) ≡ n
unfolding zero_padded
number-zero_padded zero n h = omega arith
number-zero_padded (suc width) n h = omega (
  arith,
  number_from-append 0 (zero_padded width (n / 10)) ((48 + n % 10) ∷ []),
  number-zero_padded width (n / 10) (omega (arith, pow-suc 10 width)),
)

divisor-power : (d : ℕ) → (d ≡ 6) ⊎ (d ≡ 8) → (divisor d ≡ 10 ^ d) × (0 < d) × (0 < 10 ^ d)
unfolding divisor
divisor-power d (inl e) = rw e (refl, omega arith, omega arith)
divisor-power d (inr e) = rw e (refl, omega arith, omega arith)

-- A code of 6 or 8 digits fits every buffer that is longer: it is then the truncated hash modulo
-- 10^6 or 10^8, printed with exactly that many decimal digits.
pub totp_get_code_digits :
    (ctx : Context) (account : Account) (unix_time out_len : ℕ)
    → (account.digits ≡ 6) ⊎ (account.digits ≡ 8)
    → account.digits < out_len
    → (code : Text) × (totp_get_code ctx account unix_time out_len ≡ some code)
      × (length code ≡ account.digits)
      × All IsDigit code
      × (number_from 0 code
          ≡ truncated
              (hmac_sha1 ctx (take account.secret_len account.secret) (counter_bytes unix_time))
            % 10 ^ account.digits)
unfolding totp_get_code totp_generate_code_internal
totp_get_code_digits ctx account unix_time out_len d h =
    let hash = hmac_sha1 ctx (take account.secret_len account.secret) (counter_bytes unix_time) in
    let (power, some_digits, positive) = divisor-power account.digits d in
    let number = truncated hash % divisor account.digits in
    let below : number < 10 ^ account.digits = rw power (mod-lt (truncated hash) positive) in
    let code = zero_padded account.digits number in
    let len = length-zero_padded account.digits number in
    let ready : (out_len == 0) ≡ false = ground arith in
    let printed : ltb 0 (length code) ≡ true = ground (arith, len) in
    let fits : ltb (length code) out_len ≡ true = ground (arith, len) in
    (
      code,
      rw (ready, printed, fits) refl,
      len,
      zero_padded-IsDigit account.digits number,
      number-zero_padded account.digits number below ∙ ap (λ p. truncated hash % p) power,
    )
