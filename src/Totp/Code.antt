-- ===== src/Totp/Code.antt =====
-- `totp_generate_code_internal`, `totp_get_code`, `totp_type_code` and `totp_copy_code` of
-- firmware/src/totp.c.
use safe_key_vault.Prelude.{
  ℕ, zero, suc, ◌+◌, ◌*◌, ◌/◌, ◌%◌, ◌^◌, Bool, false, ◌&&◌, Option, none, some, [], ◌∷◌, ◌++◌,
  bit_and, bit_or, Text, get_elem?, get_or, take, length, ltb, leb, ◌==◌, if◌then◌else◌,
}
use safe_key_vault.Totp.Sha1.{Bytes, Context, hmac_sha1}
use safe_key_vault.Totp.{Account, Store}

-- The time step counter, big-endian.
abbrev pub counter_bytes : ℕ → Bytes
counter_bytes unix_time =
    let n = unix_time / 30 in
    n / 2 ^ 56 % 256
    ∷ n / 2 ^ 48 % 256
    ∷ n / 2 ^ 40 % 256
    ∷ n / 2 ^ 32 % 256
    ∷ n / 2 ^ 24 % 256
    ∷ n / 2 ^ 16 % 256
    ∷ n / 2 ^ 8 % 256
    ∷ n % 256
    ∷ []

-- The dynamic truncation.
unfoldable pub truncated : Bytes → ℕ
truncated hash =
    let offset = bit_and (get_or hash 19 0) 15 in
    bit_or
      (bit_or
        (bit_or (bit_and (get_or hash offset 0) 127 * 2 ^ 24) (get_or hash (offset + 1) 0 * 2 ^ 16))
        (get_or hash (offset + 2) 0 * 2 ^ 8))
      (get_or hash (offset + 3) 0)

-- The loop `divisor *= 10`.
unfoldable pub divisor : ℕ → ℕ
divisor zero = 1
divisor (suc n) = divisor n * 10 % 2 ^ 32

-- `%0<width>d` for a number of at most that many digits.
unfoldable pub zero_padded : ℕ → ℕ → Text
zero_padded zero n = []
zero_padded (suc width) n = zero_padded width (n / 10) ++ ((48 + n % 10) ∷ [])

-- The text in `out_code` where true is returned. The number of digits is 6 or 8 in every account
-- that is added or loaded, so the number has at most that many. `ctx` is what the stack holds.
unfoldable pub totp_generate_code_internal : Context → Bytes → ℕ → ℕ → ℕ → Option Text
unfolding hmac_sha1 truncated divisor zero_padded
totp_generate_code_internal ctx secret unix_time digits out_len =
    let hash = hmac_sha1 ctx secret (counter_bytes unix_time) in
    let code = zero_padded digits (truncated hash % divisor digits) in
    if ltb 0 (length code) && ltb (length code) out_len then some code else none

unfoldable pub totp_get_code : Context → Account → ℕ → ℕ → Option Text
unfolding totp_generate_code_internal
totp_get_code ctx account unix_time out_len =
    if out_len == 0
    then none
    else totp_generate_code_internal ctx (take account.secret_len account.secret) unix_time
        account.digits out_len

-- The text that goes to `platform_hal_usb_hid_type`, whose result is the parameter.
unfoldable pub totp_type_code : (Text → Bool) → Context → Account → ℕ → Option Text × Bool
unfolding totp_get_code
totp_type_code hid_type ctx account unix_time = elim (totp_get_code ctx account unix_time 9) [
  | none ↦ (none, false)
  | some code ↦ (some code, hid_type code)
]

unfoldable pub totp_copy_code : (Text → Bool) → Context → Store → ℕ → ℕ → Option Text × Bool
unfolding totp_type_code
totp_copy_code hid_type ctx store index unix_time =
    if leb store.count index then (none, false) else elim (get_elem? store.accounts index) [
      | none ↦ (none, false)
      | some account ↦ totp_type_code hid_type ctx account unix_time
    ]
