-- ===== src/Totp/Tests.antt =====
-- Runs of firmware/src/totp.c.
use safe_key_vault.Prelude.{
  ℕ, ◌*◌, ◌/◌, ◌%◌, ◌^◌, ◌≡◌, refl, true, false, ◌⊎◌, none, some, map, List, [], ◌∷◌, ◌++◌, take,
  replicate, length, All, Text, codes, arith,
}
use safe_key_vault.Totp.{Account}
use safe_key_vault.Totp.Base32.{
  base32_decode, decode_from, push, k_base32_decode_table, decoded_val, ignored,
}
use safe_key_vault.Totp.Sha1.{sha1_init, sha1_finalize, sha1_process_block, padding, digest, zeroed}
use safe_key_vault.Totp.Code.{totp_get_code}
use safe_key_vault.Totp.Frozen.{totp_get_code_frozen}
use safe_key_vault.Totp.Decoded.{digits_by}
use safe_key_vault.Totp.Alphabet.{rfc_digit, table_digit, has_zero, base32_decode_lem}
use safe_key_vault.Totp.Pending.{IsByte}
use safe_key_vault.Totp.Pending

-- The hash of the empty message starts with da 39 a3 ee.
empty_hash : take 4 (sha1_finalize (sha1_init zeroed)) ≡ 218 ∷ 57 ∷ 163 ∷ 238 ∷ []
unfolding sha1_finalize sha1_init sha1_process_block padding digest
empty_hash = refl

abbrev account : Account
account = record {
  secret = codes "12345678901234567890" ++ replicate 12 0;
  secret_len = 20;
  label = codes "a.io";
  digits = 6;
  initialized = true;
}

totp_get_code_frozen_example :
    totp_get_code zeroed account 59 9 ≡ totp_get_code zeroed account 1111111109 9
totp_get_code_frozen_example = totp_get_code_frozen zeroed account 59 1111111109 9

abbrev secret : Text
secret = codes "mzxw 6ytb"

abbrev digits : List ℕ
digits = 12 ∷ 25 ∷ 23 ∷ 22 ∷ 30 ∷ 24 ∷ 19 ∷ 1 ∷ []

secret_digits : digits_by rfc_digit secret ≡ some digits
unfolding digits_by rfc_digit ignored
secret_digits = refl

base32_decode_lem_example :
    ((has_zero digits ≡ true) × (base32_decode secret 32 ≡ none))
    ⊎ ((has_zero digits ≡ false)
        × ((output : List ℕ) × (base32_decode secret 32 ≡ some output)
            × (length output ≡ 5 * 8 / 8)
            × All IsByte output
            × (Pending.number_from 256 0 output
                ≡ Pending.number_from 32 0 (map table_digit digits) / 2 ^ (5 * 8 % 8))))
base32_decode_lem_example = base32_decode_lem secret 32 digits secret_digits (omega arith)

-- 'AE' is the byte 1 by RFC 4648, and is refused; 'BE' is the byte 9, and the table's
-- digits 0 and 3 make it the byte 0.
first_letter : base32_decode (codes "AE") 32 ≡ none
unfolding base32_decode decode_from decoded_val k_base32_decode_table ignored
first_letter = refl

shifted_letters : base32_decode (codes "BE") 32 ≡ some (0 ∷ [])
unfolding base32_decode decode_from decoded_val k_base32_decode_table ignored push
shifted_letters = refl
