-- ===== src/CryptoEngine/PinKey.antt =====
-- firmware/src/crypto_engine.c: what the key derivation for a PIN comes to.
use safe_key_vault.Prelude.{
  ℕ, ◌≡◌, ◌⊎◌, inl, inr, refl, arith, true, false, not, ◌||◌, Option, none, some, List, Text, Bool,
  length, if◌then◌else◌, ◌==◌, Outcome, halted, answer, Option-cases, Bool-cases,
}
use safe_key_vault.SecureElement.{
  Atecc, slot_at, atecc608a_is_available, read_from, atecc608a_read_slot,
  atecc608a_derive_key_slot_and_output,
}
use safe_key_vault.CryptoEngine.{
  CryptoState, slot_device_secret, mix_input, kdf_ready, crypto_engine_derive_pin_key,
}

-- A slot is read at the length of its data, and at no other.
read_length :
    (a : Atecc) (slot len : ℕ) (bytes : List ℕ)
    → atecc608a_read_slot a slot len ≡ some bytes
    → len ≡ (slot_at a slot).data_len
unfolding atecc608a_read_slot read_from
read_length a slot len bytes h = ground arith

derive-short :
    (a : Atecc) (input component : List ℕ) (out_len : ℕ)
    → atecc608a_read_slot a slot_device_secret 16 ≡ some component
    → atecc608a_derive_key_slot_and_output a slot_device_secret input out_len ≡ none
unfolding atecc608a_derive_key_slot_and_output
derive-short a input component out_len h =
    elim (Option-cases (atecc608a_read_slot a slot_device_secret 32)) [
      | inl e ↦ ground (arith, e)
      | inr (key, e) ↦
          let short = read_length a slot_device_secret 16 component h in
          let long = read_length a slot_device_secret 32 key e in absurd (omega arith)
    ]

-- A call that fails.
abbrev Fails : Outcome (Option (List ℕ)) → Type 0
Fails o = (o ≡ answer none) ⊎ (o ≡ halted)

guarded-Fails :
    (a b : Bool) (o : Outcome (Option (List ℕ)))
    → Fails o
    → Fails (if a then answer none else if b then answer none else o)
guarded-Fails true b o h = inl refl
guarded-Fails false true o h = inl refl
guarded-Fails false false o h = h

-- What stands behind the guards.
derive_behind : CryptoState → Text → List ℕ → Outcome (Option (List ℕ))
derive_behind c pin salt = elim (atecc608a_read_slot c.chip slot_device_secret 16) [
  | none ↦ answer none
  | some component ↦
      if not (kdf_ready c)
      then halted
      else answer (
          atecc608a_derive_key_slot_and_output c.chip slot_device_secret
            (mix_input pin component salt) 32)
]

derive_behind-Fails :
    (c : CryptoState) (pin : Text) (salt : List ℕ) → Fails (derive_behind c pin salt)
unfolding derive_behind
derive_behind-Fails c pin salt =
    elim (Option-cases (atecc608a_read_slot c.chip slot_device_secret 16)) [
      | inl e ↦ inl (rw (derive_behind, e) refl)
      | inr (component, e) ↦ elim (Bool-cases (kdf_ready c)) [
        | inl k ↦
            let short = derive-short c.chip (mix_input pin component salt) component 32 e in
            inl (rw (derive_behind, e, k, short) refl)
        | inr k ↦ inr (rw (derive_behind, e, k) refl)
      ]
    ]

-- `crypto_engine_derive_pin_key` never gives a key, whatever the state: it reads 16 bytes of the
-- device secret for its input, where the derivation behind it reads 32 of the same slot, and a
-- slot is read at one length only. It returns false or halts.
pub derive_pin_key_fails :
    (c : CryptoState) (pin : Option Text) (salt : List ℕ)
    → (crypto_engine_derive_pin_key c pin salt ≡ answer none)
      ⊎ (crypto_engine_derive_pin_key c pin salt ≡ halted)
unfolding crypto_engine_derive_pin_key derive_behind
derive_pin_key_fails c none salt = inl refl
derive_pin_key_fails c (some pin) salt =
    let gone = not c.device_secret_provisioned || not (atecc608a_is_available c.chip) in
    guarded-Fails (length pin == 0) gone (derive_behind c pin salt) (derive_behind-Fails c pin salt)
