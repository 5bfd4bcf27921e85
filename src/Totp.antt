-- ===== src/Totp.antt =====
-- firmware/src/totp.c and firmware/include/totp.h: the account store. The bytes on the stack
-- that the C code does not initialise are arguments. Pointers are never NULL here but where an
-- `Option` says so.
pub mod Sha1
pub mod Base32
pub mod Code
pub mod Frozen
pub mod Digits
pub mod Accounts
pub mod Pending
pub mod Decoded
pub mod Alphabet
mod Tests
use safe_key_vault.Prelude.{
  ℕ, zero, suc, ◌+◌, ◌-◌, ◌<◌, ◌≤◌, Bool, true, false, ◌&&◌, ◌||◌, not, Option, none, some, List,
  [], ◌∷◌, ◌++◌, Text, get_elem?, get_or, set, take, drop, replicate, length, strncpy, ltb, leb,
  ◌==◌, if◌then◌else◌,
}
use safe_key_vault.Totp.Base32.{Bytes, base32_decode}

-- `totp_account_t`; the secret is uint8_t[32] and the label char[64].
pub record Account : Type 0 where
  pub secret : Bytes
  pub secret_len : ℕ
  pub label : Text
  pub digits : ℕ
  pub initialized : Bool

abbrev pub max_accounts : ℕ
max_accounts = 10

-- `totp_store_t`.
pub record Store : Type 0 where
  pub accounts : List Account
  pub count : ℕ
  pub initialized : Bool

abbrev pub blank : Account
blank = record {
  secret = replicate 32 0;
  secret_len = 0;
  label = [];
  digits = 0;
  initialized = false;
}

abbrev pub zeroed_store : Store
zeroed_store = record { accounts = replicate max_accounts blank; count = 0; initialized = false }

-- `memcpy` over the first bytes of an array.
abbrev pub memcpy : Bytes → Bytes → Bytes
memcpy dest src = src ++ drop (length src) dest

-- What `new_account` points to after the assignments, where `old` was.
abbrev pub new_account : Account → Bytes → Text → ℕ → Account
new_account old secret label digits = record {
  secret = memcpy old.secret secret;
  secret_len = length secret;
  label = strncpy 63 label;
  digits = digits;
  initialized = true;
}

unfoldable pub totp_add_account : Store → Option Text → Option Bytes → ℕ → Store × Bool
unfolding base32_decode
totp_add_account s (some label) (some base32_secret) digits =
    if leb max_accounts s.count
    then (s, false)
    else if not (digits == 6) && not (digits == 8)
    then (s, false)
    else if leb 64 (length label)
    then (s, false)
    else elim (base32_decode base32_secret 32) [
      | none ↦ (s, false)
      | some secret ↦ if length secret == 0 || ltb 32 (length secret) then (s, false) else (
        record s {
          accounts =
              set s.accounts s.count
                (new_account (get_or s.accounts s.count blank) secret label digits);
          count = s.count + 1;
        },
        true,
      )
    ]
totp_add_account s _ _ digits = (s, false)

-- The loop of `totp_delete_account`: n rounds from `accounts[i] = accounts[i + 1]` on.
unfoldable pub shift_down : ℕ → ℕ → List Account → List Account
shift_down zero i accounts = accounts
shift_down (suc n) i accounts =
    shift_down n (suc i) (set accounts i (get_or accounts (suc i) blank))

unfoldable pub totp_delete_account : Store → ℕ → Store × Bool
unfolding shift_down
totp_delete_account s index = if leb s.count index then (s, false) else (
  record s {
    accounts = set (shift_down (s.count - 1 - index) index s.accounts) (s.count - 1) blank;
    count = s.count - 1;
  },
  true,
)
