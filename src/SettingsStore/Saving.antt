-- ===== src/SettingsStore/Saving.antt =====
-- firmware/src/settings_store.c: what is saved is loaded.
use safe_key_vault.Prelude.{
  ℕ, bit_xor, take, ◌+◌, ◌%◌, ◌^◌, ◌<◌, ◌≡◌, inl, inr, refl, arith, ap, sym, ◌∙◌, subst, Bool, true,
  false, Option, some, none, length, ◌==◌, answer, ◌>>=◌, bind_inv, answer_same, Bool-cases,
}
use safe_key_vault.FirmwareTypes.{RuntimeSettings}
use safe_key_vault.StorageBackend.{Bytes, le32}
use safe_key_vault.SecureElement.{atecc608a_is_available, atecc608a_sha256}
use safe_key_vault.CryptoEngine.{
  or_zeros, crypto_engine_read_atecc_slot, crypto_engine_hash16, crypto_engine_encrypt_aead,
  crypto_engine_decrypt_aead,
}
use safe_key_vault.CryptoEngine.Limits.{IsArmed}
use safe_key_vault.CryptoEngine.Aead.{engine_eq, engine-roundtrip, engine-length}
use safe_key_vault.SettingsStore.{
  External, SaveRun, SettingsBlob, SettingsStore, blob_bytes, blob_aad, with_default, build_blob,
  nonce_seed, settings_store_nonce,
}
use safe_key_vault.SettingsStore.Records.{
  store_sealed, save_blob, settings_store_save, fetch, accept_plaintext, open_payload,
  settings_store_load,
}
use safe_key_vault.SettingsStore.Blobs.{IsStorable, length-blob_bytes, accept-build_blob}

-- A store that holds the encrypted form of a blob.
abbrev pub IsHolding : SettingsStore → SettingsBlob → Type 0
IsHolding s blob =
    (s.initialized ≡ true)
    × (blob_aad s.blob ≡ blob_aad blob)
    × (crypto_engine_encrypt_aead s.crypto (blob_bytes blob) (blob_aad blob) 128
        ≡ answer (some (s.encrypted_payload, s.blob.hmac_tag)))

store_sealed-IsHolding :
    (run : SaveRun) (s : SettingsStore) (blob : SettingsBlob) (payload tag : Bytes)
    → s.initialized ≡ true
    → crypto_engine_encrypt_aead s.crypto (blob_bytes blob) (blob_aad blob) 128
      ≡ answer (some (payload, tag))
    → IsHolding (store_sealed run s blob (some (payload, tag))).0 blob
unfolding store_sealed
store_sealed-IsHolding run s blob payload tag here sealed = (here, refl, sealed)

-- An encryption that answers leaves the blob held, or the store unchanged but for the counter.
sealed-IsHolding :
    (run : SaveRun) (s : SettingsStore) (blob : SettingsBlob) (sealed : Option (Bytes × Bytes))
    → s.initialized ≡ true
    → crypto_engine_encrypt_aead s.crypto (blob_bytes blob) (blob_aad blob) 128 ≡ answer sealed
    → (store_sealed run s blob sealed).1 ≡ true
    → IsHolding (store_sealed run s blob sealed).0 blob
unfolding store_sealed
sealed-IsHolding run s blob none here sealed stored = absurd (ground arith)
sealed-IsHolding run s blob (some (payload, tag)) here sealed stored = (here, refl, sealed)

save_blob-IsHolding :
    (ext : External) (run : SaveRun) (s : SettingsStore) (blob : SettingsBlob)
    (out : SettingsStore × Bool)
    → s.initialized ≡ true
    → save_blob ext run s blob ≡ answer out
    → out.1 ≡ true
    → IsHolding out.0 blob
unfolding save_blob
save_blob-IsHolding ext run s blob out here h stored =
    let t = record s { encryption_counter = (s.encryption_counter + 1) % 2 ^ 32 } in
    let seal = crypto_engine_encrypt_aead t.crypto (blob_bytes blob) (blob_aad blob) 128 in
    let (_, _, rest) =
      bind_inv (settings_store_nonce ext t)
        (λ nonce. seal >>= λ sealed. answer (store_sealed run t blob sealed)) h in
    let (sealed, made, done) =
      bind_inv seal (λ sealed. answer (store_sealed run t blob sealed)) rest in
    let same = answer_same done in
    subst (λ o. IsHolding o.0 blob) same
      (sealed-IsHolding run t blob sealed here made (ap (λ o. o.1) same ∙ stored))

fetch_held :
    (flash_base : ℕ) (s : SettingsStore)
    → 0 < length s.encrypted_payload
    → fetch flash_base s ≡ some s
unfolding fetch
fetch_held flash_base s some_bytes =
    let a : (length s.encrypted_payload == 0) ≡ false = ground arith in rw a refl

open_held :
    (s : SettingsStore) (blob : SettingsBlob) (pad : ℕ) (r : RuntimeSettings)
    → blob_aad s.blob ≡ blob_aad blob
    → crypto_engine_decrypt_aead s.crypto s.encrypted_payload (blob_aad blob) s.blob.hmac_tag 40
      ≡ answer (some (blob_bytes blob))
    → open_payload s ≡ answer (s, accept_plaintext (some (blob_bytes blob)))
unfolding open_payload
open_held s blob pad r aad plain = rw (aad, plain) refl

load_eq :
    (flash_base : ℕ) (s : SettingsStore)
    → s.initialized ≡ true
    → fetch flash_base s ≡ some s
    → settings_store_load flash_base s ≡ open_payload s
unfolding settings_store_load
load_eq flash_base s here held = rw (held, here) refl

-- A store that holds settings loads them.
pub load_held :
    (flash_base pad : ℕ) (s : SettingsStore) (r : RuntimeSettings)
    → IsStorable r
    → IsHolding s (build_blob pad r)
    → settings_store_load flash_base s ≡ answer (s, some (with_default r))
load_held flash_base pad s r storable (here, aad, sealed) =
    let blob = build_blob pad r in
    let size = length-blob_bytes pad r in
    let kept =
      engine-length s.crypto (blob_bytes blob) (blob_aad blob) 128 s.encrypted_payload
        s.blob.hmac_tag sealed in
    let plain =
      engine-roundtrip s.crypto (blob_bytes blob) (blob_aad blob) 128 s.encrypted_payload
        s.blob.hmac_tag 40 sealed (omega arith) in
    load_eq flash_base s here (fetch_held flash_base s (omega arith))
    ∙ open_held s blob pad r aad plain
    ∙ ap (λ q. answer (s, q)) (accept-build_blob pad r storable)

pub save_eq :
    (ext : External) (run : SaveRun) (s : SettingsStore) (r : RuntimeSettings)
    → s.initialized ≡ true
    → settings_store_save ext run s (some r) ≡ save_blob ext run s (build_blob run.pad r)
unfolding settings_store_save
save_eq ext run s r here = rw here refl

pub save_off :
    (ext : External) (run : SaveRun) (s : SettingsStore) (r : RuntimeSettings)
    → s.initialized ≡ false
    → settings_store_save ext run s (some r) ≡ answer (s, false)
unfolding settings_store_save
save_off ext run s r gone = rw gone refl

not_stored : {b : Bool} → false ≡ b → ¬ (b ≡ true)
not_stored e h = cc (e, h)

save_inv :
    (ext : External) (run : SaveRun) (s : SettingsStore) (r : RuntimeSettings)
    (out : SettingsStore × Bool)
    → settings_store_save ext run s (some r) ≡ answer out
    → out.1 ≡ true
    → (s.initialized ≡ true) × (save_blob ext run s (build_blob run.pad r) ≡ answer out)
save_inv ext run s r out h stored = elim (Bool-cases s.initialized) [
  | inl e ↦ (e, sym (save_eq ext run s r e) ∙ h)
  | inr e ↦
      let same = answer_same (sym (save_off ext run s r e) ∙ h) in
      absurd (not_stored (ap (λ o. o.1) same) stored)
]

-- Settings that `settings_store_save` has stored, `settings_store_load` gives back from the store
-- as it is then, whatever stands in the flash, with the default where no time for the automatic
-- lock is set: the values must be ones that the fields of the structure hold.
pub save-load :
    (ext : External) (run : SaveRun) (s s' : SettingsStore) (r : RuntimeSettings) (flash_base : ℕ)
    → IsStorable r
    → settings_store_save ext run s (some r) ≡ answer (s', true)
    → settings_store_load flash_base s' ≡ answer (s', some (with_default r))
save-load ext run s s' r flash_base storable h =
    let (here, saved) = save_inv ext run s r (s', true) h refl in
    load_held flash_base run.pad s' r storable
      (save_blob-IsHolding ext run s (build_blob run.pad r) (s', true) here saved refl)

nonce_answers :
    (ext : External) (s : SettingsStore)
    → atecc608a_is_available s.crypto.chip ≡ true
    → (nonce : Bytes) × (settings_store_nonce ext s ≡ answer nonce)
unfolding settings_store_nonce crypto_engine_hash16
nonce_answers ext s here =
    let mixed_counter = le32 (bit_xor s.encryption_counter 0xDEADBEEF) in
    let secret = crypto_engine_read_atecc_slot s.crypto ext.slot_device_secret 12 in
    let digest = atecc608a_sha256 s.crypto.chip (nonce_seed mixed_counter secret) in
    (take 12 (take 16 (or_zeros 32 digest)), rw here refl)

save_armed :
    (ext : External) (run : SaveRun) (s : SettingsStore) (blob : SettingsBlob) (key : Bytes)
    → s.initialized ≡ true
    → IsArmed s.crypto key
    → length (blob_bytes blob) ≡ 40
    → (out : SettingsStore × Bool) × (save_blob ext run s blob ≡ answer out) × IsHolding out.0 blob
unfolding save_blob
save_armed ext run s blob key here armed size =
    let t = record s { encryption_counter = (s.encryption_counter + 1) % 2 ^ 32 } in
    let ready : atecc608a_is_available s.crypto.chip ≡ true = ground (arith, armed) in
    let (nonce, drawn) = nonce_answers ext t ready in
    let ((payload, tag), made) =
      engine_eq s.crypto (blob_bytes blob) (blob_aad blob) 128 key armed (omega arith) in
    (
      store_sealed run t blob (some (payload, tag)),
      rw (drawn, made) refl,
      store_sealed-IsHolding run t blob payload tag here made,
    )

-- In an initialised store with an armed crypto engine, `settings_store_save` always answers, and
-- settings that the fields of the structure hold are in force whatever it answers:
-- `settings_store_load` then gives them, with the default for the automatic lock, even where the
-- storage backend failed and the save has returned false.
pub save_takes_effect :
    (ext : External) (run : SaveRun) (s : SettingsStore) (r : RuntimeSettings) (key : Bytes)
    (flash_base : ℕ)
    → s.initialized ≡ true
    → IsArmed s.crypto key
    → IsStorable r
    → (s' : SettingsStore) × (stored : Bool) × (settings_store_save ext run s (some r)
        ≡ answer (s', stored))
      × (settings_store_load flash_base s' ≡ answer (s', some (with_default r)))
save_takes_effect ext run s r key flash_base here armed storable =
    let blob = build_blob run.pad r in
    let ((s', stored), saved, holding) =
      save_armed ext run s blob key here armed (length-blob_bytes run.pad r) in
    (
      s',
      stored,
      save_eq ext run s r here ∙ saved,
      load_held flash_base run.pad s' r storable holding,
    )
