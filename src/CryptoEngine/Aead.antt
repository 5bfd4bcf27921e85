-- ===== src/CryptoEngine/Aead.antt =====
-- firmware/src/crypto_engine.c: what the engine encrypts, it decrypts again.
use safe_key_vault.Prelude.{
  ℕ, ◌+◌, ◌≤◌, ◌≡◌, arith, refl, ap, true, some, List, take, length, ltb, answer, false, ◌∙◌,
}
use safe_key_vault.SecureElement.{xor_from, tag_of, atecc608a_encrypt_aead}
use safe_key_vault.SecureElement.Sealing.{
  encrypt_inv, encrypt_eq, length-xor_from, encrypt_aead-decrypt_aead,
}
use safe_key_vault.CryptoEngine.Limits.{IsArmed}
use safe_key_vault.CryptoEngine.{
  CryptoState, slot_master_key, aead_ready, crypto_engine_ready_for_sensitive_ops,
  crypto_engine_encrypt_aead, crypto_engine_decrypt_aead,
}

-- What an encryption that gives a ciphertext was given.
pub engine_inv :
    (c : CryptoState) (p aad : List ℕ) (room : ℕ) (sealed : List ℕ × List ℕ)
    → crypto_engine_encrypt_aead c p aad room ≡ answer (some sealed)
    → (crypto_engine_ready_for_sensitive_ops c ≡ true)
      × (aead_ready c ≡ true)
      × (atecc608a_encrypt_aead c.chip slot_master_key p aad room ≡ some sealed)
unfolding crypto_engine_encrypt_aead
engine_inv c p aad room sealed h = (ground arith, ground arith, ground arith)

pub engine-roundtrip :
    (c : CryptoState) (p aad : List ℕ) (room : ℕ) (text tag : List ℕ) (space : ℕ)
    → crypto_engine_encrypt_aead c p aad room ≡ answer (some (text, tag))
    → length p ≤ space
    → crypto_engine_decrypt_aead c text aad tag space ≡ answer (some p)
unfolding crypto_engine_decrypt_aead
engine-roundtrip c p aad room text tag space h fits =
    let (ready, armed, chip) = engine_inv c p aad room (text, tag) h in
    let (key, _, _, body, _) = encrypt_inv c.chip slot_master_key p aad room text tag chip in
    let size = ap length body ∙ length-xor_from 0 p key in
    let a : ltb space (length text) ≡ false = ground (arith, size) in
    let back =
      encrypt_aead-decrypt_aead c.chip slot_master_key p aad room text tag space chip fits in
    rw (ready, a, armed, back) refl

pub engine-length :
    (c : CryptoState) (p aad : List ℕ) (room : ℕ) (text tag : List ℕ)
    → crypto_engine_encrypt_aead c p aad room ≡ answer (some (text, tag))
    → length text ≡ length p
engine-length c p aad room text tag h =
    let (_, _, chip) = engine_inv c p aad room (text, tag) h in
    let (key, _, _, body, _) = encrypt_inv c.chip slot_master_key p aad room text tag chip in
    ap length body ∙ length-xor_from 0 p key

-- With an armed engine, an encryption whose buffer has 16 bytes to spare answers.
pub engine_eq :
    (c : CryptoState) (p aad : List ℕ) (room : ℕ) (key : List ℕ)
    → IsArmed c key
    → length p + 16 ≤ room
    → (sealed : List ℕ × List ℕ) × (crypto_engine_encrypt_aead c p aad room ≡ answer (some sealed))
unfolding crypto_engine_encrypt_aead crypto_engine_ready_for_sensitive_ops
engine_eq c p aad room key (ready, _, armed, holds) fits =
    let a : ltb room (length p) ≡ false = ground arith in
    let text = xor_from 0 p key in
    (
      (text, take 16 (tag_of aad text key)),
      rw (ready, a, armed, encrypt_eq c.chip slot_master_key p aad room key holds fits) refl,
    )
