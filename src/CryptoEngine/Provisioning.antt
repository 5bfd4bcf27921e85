-- ===== src/CryptoEngine/Provisioning.antt =====
-- firmware/src/crypto_engine.c: what the setters make ready.
use safe_key_vault.Prelude.{
  ℕ, ◌≡◌, inl, inr, refl, arith, ap, ◌∙◌, false, ◌||◌, ltb, ◌==◌, List, Text, length, get_or,
  halted, Bool-cases,
}
use safe_key_vault.SecureElement.{
  Atecc, Slot, empty_slot, slot_at, written, atecc608a_init, atecc608a_self_test,
  atecc608a_write_slot, atecc608a_is_available, atecc608a_is_ready, atecc608a_is_slot_provisioned,
}
use safe_key_vault.SecureElement.Slots.{get_or-set_ne, write_inv}
use safe_key_vault.CryptoEngine.{
  CryptoState, slot_device_secret, ensure_initialized, crypto_engine_init,
  crypto_engine_set_device_secret, crypto_engine_password_fingerprint,
}

-- The slot that the driver looks at before a key derivation.
abbrev pub driver_secret : Atecc → Slot
driver_secret a = slot_at a 4

init-slots : (c : CryptoState) → (ensure_initialized c).chip.slots ≡ c.chip.slots
unfolding crypto_engine_init atecc608a_init atecc608a_self_test
init-slots c = ground arith

write-other :
    (a : Atecc) (bytes : List ℕ)
    → driver_secret (atecc608a_write_slot a slot_device_secret bytes).0 ≡ driver_secret a
write-other a bytes = elim (write_inv a slot_device_secret bytes) [
  | inl (e, _, _, _) ↦
      rw e
        (get_or-set_ne a.slots 1 4 (written (slot_at a 1) bytes) empty_slot (λ q. omega (arith, q)))
  | inr e ↦ rw e refl
]

set_secret-other :
    (c : CryptoState) (secret : List ℕ)
    → driver_secret (crypto_engine_set_device_secret c secret).0.chip ≡ driver_secret c.chip
unfolding crypto_engine_set_device_secret
set_secret-other c secret =
    let d = ensure_initialized c in
    let before : driver_secret d.chip ≡ driver_secret c.chip =
      ap (λ s. get_or s 4 empty_slot) (init-slots c) in
    let after = write-other d.chip secret ∙ before in
    elim (Bool-cases (atecc608a_is_available d.chip)) [
      | inl here ↦ elim (Bool-cases (length secret == 0 || ltb 32 (length secret))) [
        | inl bad ↦ rw (here, bad) before
        | inr good ↦ rw (here, good) after
      ]
      | inr gone ↦ rw gone before
    ]

fingerprint-halted :
    (c : CryptoState) (password : Text)
    → (driver_secret c.chip).provisioned ≡ false
    → crypto_engine_password_fingerprint c password ≡ halted
unfolding crypto_engine_password_fingerprint atecc608a_is_ready atecc608a_is_slot_provisioned
fingerprint-halted c password h = ground arith

-- After `crypto_engine_set_device_secret`, whatever it answers, each call of
-- `crypto_engine_password_fingerprint` halts where slot 4 of the chip is not provisioned: the
-- secret goes to slot 1, and the driver's readiness test looks at slot 4.
pub set_device_secret-fingerprint :
    (c : CryptoState) (secret : List ℕ) (password : Text)
    → (driver_secret c.chip).provisioned ≡ false
    → crypto_engine_password_fingerprint (crypto_engine_set_device_secret c secret).0 password
      ≡ halted
set_device_secret-fingerprint c secret password h =
    fingerprint-halted (crypto_engine_set_device_secret c secret).0 password
      (ap (λ s. s.provisioned) (set_secret-other c secret) ∙ h)
