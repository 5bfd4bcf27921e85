-- ===== src/SecureElement/Tests.antt =====
-- Runs of firmware/src/atecc608a_driver.c at concrete inputs.
use safe_key_vault.Prelude.{
  ℕ, ◌≡◌, refl, arith, true, some, List, [], ◌∷◌, ◌+◌, codes, replicate, length, take, memcmp_eq,
}
use safe_key_vault.SecureElement.{
  Atecc, Slot, empty_slot, digest_of, xor_from, read_from, atecc608a_read_slot,
  atecc608a_encrypt_aead, atecc608a_decrypt_aead, atecc608a_ecdsa_verify,
}
use safe_key_vault.SecureElement.Sealing.{decrypt_aead-encrypt_aead}

abbrev key : List ℕ
key = replicate 32 7

abbrev keyed : Slot
keyed = record { provisioned = true; contents = key; data_len = 32 }

abbrev chip : Atecc
chip = record {
  initialized = true;
  self_test_passed = true;
  slots = keyed ∷ replicate 15 empty_slot;
}

abbrev sealed_bytes : List ℕ
sealed_bytes = 111 ∷ 110 ∷ []

abbrev seal : List ℕ
seal = 52 ∷ 51 ∷ 63 ∷ 22 ∷ replicate 12 0

opened_run : atecc608a_decrypt_aead chip 0 sealed_bytes (codes "aad") seal 8 ≡ some (codes "hi")
unfolding atecc608a_decrypt_aead atecc608a_read_slot read_from xor_from digest_of memcmp_eq
opened_run = refl

decrypt_aead-encrypt_aead_example :
    atecc608a_encrypt_aead chip 0 (codes "hi") (codes "aad") (length (codes "hi") + 16)
    ≡ some (sealed_bytes, take 16 seal)
decrypt_aead-encrypt_aead_example =
    decrypt_aead-encrypt_aead chip 0 sealed_bytes (codes "aad") seal 8 (codes "hi") (omega arith)
      opened_run

-- A signature of one key and digest passes for any other.
any_signature_verifies : atecc608a_ecdsa_verify chip (4 ∷ []) (codes "other") (1 ∷ []) ≡ true
unfolding atecc608a_ecdsa_verify
any_signature_verifies = refl
