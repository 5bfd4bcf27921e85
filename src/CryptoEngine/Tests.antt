-- ===== src/CryptoEngine/Tests.antt =====
-- Runs of firmware/src/crypto_engine.c at concrete inputs.
use safe_key_vault.Prelude.{
  ℕ, ◌≡◌, ◌⊎◌, refl, arith, true, some, none, List, [], ◌++◌, Text, codes, replicate, answer,
  halted,
}
use safe_key_vault.SecureElement.{
  Atecc, Slot, digest_of, xor_from, read_from, atecc608a_is_available, atecc608a_is_ready,
  atecc608a_read_slot, atecc608a_sha256, atecc608a_encrypt_aead, atecc608a_is_slot_provisioned,
}
use safe_key_vault.CryptoEngine.{
  CryptoState, at_start, crypto_engine_hash256, crypto_engine_derive_pin_key,
  crypto_engine_ready_for_sensitive_ops,
}
use safe_key_vault.CryptoEngine.Hex.{hex_encode}
use safe_key_vault.CryptoEngine.Passwords.{
  next_password_aad, print_password, seal_password, crypto_engine_encrypt_password,
  crypto_engine_decrypt_password,
}
use safe_key_vault.CryptoEngine.Roundtrip.{encrypt_password-decrypt_password}
use safe_key_vault.CryptoEngine.Limits.{IsArmed, encrypt_password_iff}
use safe_key_vault.CryptoEngine.PinKey.{derive_pin_key_fails}

abbrev pub key : List ℕ
key = replicate 32 7

abbrev keyed : Slot
keyed = record { provisioned = true; contents = key; data_len = 32 }

-- A chip with a key of 32 bytes in every slot.
abbrev pub full_chip : Atecc
full_chip = record { initialized = true; self_test_passed = true; slots = replicate 16 keyed }

abbrev pub provisioned : CryptoState
provisioned = record at_start {
  initialized = true;
  secure_element_available = true;
  master_key_provisioned = true;
  device_secret_provisioned = true;
  chip = full_chip;
}

abbrev password : Text
password = codes "Tr0ub4dor&3"

abbrev sealed_text : Text
sealed_text =
    codes "v1:c4cfaec60000000000000000:"
    ++ codes "ec629a12000000000000000000000000:"
    ++ codes "5375377265336368752134"

sealed_run :
    crypto_engine_encrypt_password provisioned password 192
    ≡ answer (record provisioned { aad_counter = 2 }, some sealed_text)
unfolding crypto_engine_encrypt_password crypto_engine_ready_for_sensitive_ops next_password_aad
    crypto_engine_hash256 seal_password print_password atecc608a_encrypt_aead atecc608a_read_slot
    read_from atecc608a_is_available atecc608a_is_ready atecc608a_sha256 digest_of xor_from
    hex_encode
sealed_run = refl

encrypt_password-decrypt_password_example :
    crypto_engine_decrypt_password provisioned sealed_text 128 ≡ answer (some password)
encrypt_password-decrypt_password_example =
    encrypt_password-decrypt_password provisioned (record provisioned { aad_counter = 2 })
      provisioned password sealed_text 192 128 (ground arith) (omega arith) (refl, refl, refl)
      (omega arith) sealed_run

pub armed : IsArmed provisioned key
unfolding atecc608a_is_available atecc608a_is_ready atecc608a_is_slot_provisioned
    atecc608a_read_slot read_from
armed = (refl, refl, refl, (refl, refl))

encrypt_password_iff_example :
    (c' : CryptoState) × (text : Text) × (crypto_engine_encrypt_password provisioned password 192
      ≡ answer (c', some text))
encrypt_password_iff_example =
    (encrypt_password_iff provisioned password 192).1
      (key, armed, omega arith, omega arith, omega arith)

derive_pin_key_fails_example :
    (crypto_engine_derive_pin_key provisioned (some (codes "12345")) [] ≡ answer none)
    ⊎ (crypto_engine_derive_pin_key provisioned (some (codes "12345")) [] ≡ halted)
derive_pin_key_fails_example = derive_pin_key_fails provisioned (some (codes "12345")) []
