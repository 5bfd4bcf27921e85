-- ===== src/SettingsStore/Loading.antt =====
-- firmware/src/settings_store.c: a load leaves the storage backend as it is.
use safe_key_vault.Prelude.{
  ℕ, ◌≡◌, refl, arith, sym, ◌∙◌, subst, inl, inr, true, false, Option, some, none, answer, bind_inv,
  answer_same, Bool-cases, Option-cases, some_same, none-some, length, ◌==◌,
}
use safe_key_vault.FirmwareTypes.{RuntimeSettings}
use safe_key_vault.StorageBackend.{Bytes, Storage}
use safe_key_vault.StorageBackend.Calls.{storage_backend_read_latest}
use safe_key_vault.CryptoEngine.{crypto_engine_decrypt_aead}
use safe_key_vault.SettingsStore.{SettingsStore, settings_version, blob_aad}
use safe_key_vault.SettingsStore.Records.{
  settings_store_load, parse_record, parse_stored, fetch, accept_plaintext, open_payload,
}

-- The storage backend stays as it is.
abbrev pub IsOff : Storage → SettingsStore → Type 0
IsOff b t = t.storage ≡ b

parse_record-IsOff :
    (s t : SettingsStore) (bytes : Bytes) → parse_record s bytes ≡ some t → IsOff s.storage t
unfolding parse_record
parse_record-IsOff s t bytes h = ground arith

parse_stored-IsOff :
    (s t : SettingsStore) (read : Option (Bytes × ℕ))
    → parse_stored s read ≡ some t
    → IsOff s.storage t
unfolding parse_stored
parse_stored-IsOff s t none h = cc h
parse_stored-IsOff s t (some (bytes, schema_version)) h =
    elim (Bool-cases (schema_version == settings_version)) [
      | inl e ↦ parse_record-IsOff s t bytes (rw e at h)
      | inr e ↦ absurd (none-some (rw e at h))
    ]

fetch-IsOff :
    (flash_base : ℕ) (s t : SettingsStore) → fetch flash_base s ≡ some t → IsOff s.storage t
unfolding fetch
fetch-IsOff flash_base s t h = elim (Bool-cases (length s.encrypted_payload == 0)) [
  | inl e ↦
      parse_stored-IsOff s t (storage_backend_read_latest flash_base s.storage 300) (rw e at h)
  | inr e ↦ subst (IsOff s.storage) (some_same (rw e at h)) refl
]

open-IsOff :
    (s : SettingsStore) (out : SettingsStore × Option RuntimeSettings)
    → open_payload s ≡ answer out
    → IsOff s.storage out.0
unfolding open_payload
open-IsOff s out h =
    let plain =
      crypto_engine_decrypt_aead s.crypto s.encrypted_payload (blob_aad s.blob) s.blob.hmac_tag
        40 in
    let (_, _, same) = bind_inv plain (λ p. answer (s, accept_plaintext p)) h in
    subst (λ o. IsOff s.storage o.0) (answer_same same) refl

load_miss :
    (flash_base : ℕ) (s : SettingsStore)
    → s.initialized ≡ true
    → fetch flash_base s ≡ none
    → settings_store_load flash_base s ≡ answer (s, none)
unfolding settings_store_load
load_miss flash_base s here q = rw (q, here) refl

load_found :
    (flash_base : ℕ) (s held : SettingsStore)
    → s.initialized ≡ true
    → fetch flash_base s ≡ some held
    → settings_store_load flash_base s ≡ open_payload held
unfolding settings_store_load
load_found flash_base s held here q = rw (q, here) refl

load_shut :
    (flash_base : ℕ) (s : SettingsStore)
    → s.initialized ≡ false
    → settings_store_load flash_base s ≡ answer (s, none)
unfolding settings_store_load
load_shut flash_base s gone = rw gone refl

-- An answer that is the store itself.
pub same-IsOff {ℓ} :
    {A : Type ℓ} (s : SettingsStore) (a : A) (out : SettingsStore × A)
    → answer (s, a) ≡ answer out
    → IsOff s.storage out.0
same-IsOff s a out h = subst (λ o. IsOff s.storage o.0) (answer_same h) refl

pub load-IsOff :
    (flash_base : ℕ) (s : SettingsStore) (out : SettingsStore × Option RuntimeSettings)
    → settings_store_load flash_base s ≡ answer out
    → IsOff s.storage out.0
load-IsOff flash_base s out h = elim (Bool-cases s.initialized) [
  | inl e ↦ elim (Option-cases (fetch flash_base s)) [
    | inl q ↦ same-IsOff s none out (sym (load_miss flash_base s e q) ∙ h)
    | inr (held, q) ↦
        open-IsOff held out (sym (load_found flash_base s held e q) ∙ h)
        ∙ fetch-IsOff flash_base s held q
  ]
  | inr e ↦ same-IsOff s none out (sym (load_shut flash_base s e) ∙ h)
]
