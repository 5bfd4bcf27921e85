-- ===== src/SettingsStore/Unstored.antt =====
-- firmware/src/settings_store.c over a storage backend that is not initialised: nothing is stored,
-- whatever is called.
use safe_key_vault.Prelude.{
  ℕ, ◌+◌, ◌%◌, ◌^◌, ◌≡◌, refl, arith, ap, sym, ◌∙◌, subst, inl, inr, Bool, true, false, Option,
  some, none, Outcome, answer, ◌>>=◌, bind_inv, answer_same, Bool-cases, List, [], ◌∷◌,
}
use safe_key_vault.FirmwareTypes.{RuntimeSettings}
use safe_key_vault.StorageBackend.{Bytes, Storage, FlashRun, Junk}
use safe_key_vault.StorageBackend.Calls.{
  WipeRun, storage_backend_write_atomic, storage_backend_wipe,
}
use safe_key_vault.CryptoEngine.{crypto_engine_encrypt_aead}
use safe_key_vault.SettingsStore.{
  External, SaveRun, SettingsBlob, SettingsStore, settings_version, blob_bytes, blob_aad,
  build_blob, settings_store_nonce,
}
use safe_key_vault.SettingsStore.Records.{
  record_bytes, store_sealed, save_blob, settings_store_save, settings_store_load,
}
use safe_key_vault.SettingsStore.Lifecycle.{
  factory_settings, settings_store_factory_reset, emptied, settings_store_wipe,
  settings_store_debug_restore,
}
use safe_key_vault.SettingsStore.Calls.{
  StoreCall, save, load, factory_reset, wipe, restore, store_step, run_store,
}
use safe_key_vault.SettingsStore.Saving.{save_eq, save_off}
use safe_key_vault.SettingsStore.Loading.{IsOff, same-IsOff, load-IsOff}

-- A storage backend that is not initialised stores nothing.
write_off :
    (flash_base : ℕ) (hal : FlashRun) (junk : Junk) (s : Storage) (bytes : Bytes)
    → s.initialized ≡ false
    → storage_backend_write_atomic flash_base hal junk s (some bytes) settings_version ≡ (s, false)
unfolding storage_backend_write_atomic
write_off flash_base hal junk s bytes off = rw off refl

-- A save that stores nothing.
abbrev IsUnstored : SettingsStore → SettingsStore × Bool → Type 0
IsUnstored s out = (out.0.storage ≡ s.storage) × (out.1 ≡ false)

store_sealed-IsUnstored :
    (run : SaveRun) (s : SettingsStore) (blob : SettingsBlob) (sealed : Option (Bytes × Bytes))
    → s.storage.initialized ≡ false
    → IsUnstored s (store_sealed run s blob sealed)
unfolding store_sealed
store_sealed-IsUnstored run s blob none off = (refl, refl)
store_sealed-IsUnstored run s blob (some (payload, tag)) off =
    let bytes = record_bytes (record blob { hmac_tag = tag }) payload in
    let none_written = write_off run.flash_base run.hal run.junk s.storage bytes off in
    (ap (λ o. o.0) none_written, ap (λ o. o.1) none_written)

save_blob-IsUnstored :
    (ext : External) (run : SaveRun) (s : SettingsStore) (blob : SettingsBlob)
    (out : SettingsStore × Bool)
    → s.storage.initialized ≡ false
    → save_blob ext run s blob ≡ answer out
    → IsUnstored s out
unfolding save_blob
save_blob-IsUnstored ext run s blob out off h =
    let t = record s { encryption_counter = (s.encryption_counter + 1) % 2 ^ 32 } in
    let seal = crypto_engine_encrypt_aead t.crypto (blob_bytes blob) (blob_aad blob) 128 in
    let (_, _, rest) =
      bind_inv (settings_store_nonce ext t)
        (λ nonce. seal >>= λ sealed. answer (store_sealed run t blob sealed)) h in
    let (sealed, _, done) =
      bind_inv seal (λ sealed. answer (store_sealed run t blob sealed)) rest in
    subst (IsUnstored s) (answer_same done) (store_sealed-IsUnstored run t blob sealed off)

pub save-IsUnstored :
    (ext : External) (run : SaveRun) (s : SettingsStore) (r : RuntimeSettings)
    (out : SettingsStore × Bool)
    → s.storage.initialized ≡ false
    → settings_store_save ext run s (some r) ≡ answer out
    → IsUnstored s out
save-IsUnstored ext run s r out off h = elim (Bool-cases s.initialized) [
  | inl e ↦
      save_blob-IsUnstored ext run s (build_blob run.pad r) out off
        (sym (save_eq ext run s r e) ∙ h)
  | inr e ↦ subst (IsUnstored s) (answer_same (sym (save_off ext run s r e) ∙ h)) (refl, refl)
]

-- A second wipe changes nothing.
wipe-off :
    (hal : WipeRun) (s : Storage) → s.initialized ≡ false → (storage_backend_wipe hal s).0 ≡ s
unfolding storage_backend_wipe
wipe-off hal s off = rw off refl

save-IsOff :
    (ext : External) (run : SaveRun) (s : SettingsStore) (r : Option RuntimeSettings)
    (out : SettingsStore × Bool)
    → s.storage.initialized ≡ false
    → settings_store_save ext run s r ≡ answer out
    → IsOff s.storage out.0
unfolding settings_store_save
save-IsOff ext run s none out off h = subst (λ o. IsOff s.storage o.0) (answer_same h) refl
save-IsOff ext run s (some r) out off h = (save-IsUnstored ext run s r out off h).0

reset-IsOff :
    (ext : External) (run : SaveRun) (s t : SettingsStore)
    → s.storage.initialized ≡ false
    → settings_store_factory_reset ext run s ≡ answer t
    → IsOff s.storage t
unfolding settings_store_factory_reset
reset-IsOff ext run s t off h =
    let (out, saved, same) =
      bind_inv (settings_store_save ext run s (some factory_settings)) (λ r. answer (r.0)) h in
    subst (IsOff s.storage) (answer_same same) (save-IsOff ext run s _ out off saved)

emptied-storage :
    (hal : WipeRun) (s : SettingsStore)
    → (emptied hal s).storage ≡ (storage_backend_wipe hal s.storage).0
unfolding emptied
emptied-storage hal s = refl

wipe_open :
    (ext : External) (run : SaveRun) (hal : WipeRun) (s : SettingsStore)
    → s.initialized ≡ true
    → settings_store_wipe ext run hal s
      ≡ (settings_store_factory_reset ext run (emptied hal s) >>= λ t. answer (t, true))
unfolding settings_store_wipe
wipe_open ext run hal s here = rw here refl

wipe_shut :
    (ext : External) (run : SaveRun) (hal : WipeRun) (s : SettingsStore)
    → s.initialized ≡ false
    → settings_store_wipe ext run hal s ≡ answer (s, false)
unfolding settings_store_wipe
wipe_shut ext run hal s gone = rw gone refl

wipe-IsOff :
    (ext : External) (run : SaveRun) (hal : WipeRun) (s : SettingsStore)
    (out : SettingsStore × Bool)
    → s.storage.initialized ≡ false
    → settings_store_wipe ext run hal s ≡ answer out
    → IsOff s.storage out.0
wipe-IsOff ext run hal s out off h = elim (Bool-cases s.initialized) [
  | inl e ↦
      let (t, reset, same) =
        bind_inv (settings_store_factory_reset ext run (emptied hal s)) (λ t. answer (t, true))
          (sym (wipe_open ext run hal s e) ∙ h) in
      let kept = emptied-storage hal s ∙ wipe-off hal s.storage off in
      let still =
        reset-IsOff ext run (emptied hal s) t (ap (λ b. b.initialized) kept ∙ off) reset in
      subst (λ o. IsOff s.storage o.0) (answer_same same) (still ∙ kept)
  | inr e ↦ same-IsOff s false out (sym (wipe_shut ext run hal s e) ∙ h)
]

restore-IsOff :
    (s : SettingsStore) (blob : SettingsBlob) (payload : Bytes)
    → IsOff s.storage (settings_store_debug_restore s blob payload).0
unfolding settings_store_debug_restore
restore-IsOff s blob payload = ground arith

-- The store after a call that answers with something more.
first-IsOff {ℓ} :
    {A : Type ℓ} (b : Storage) (m : Outcome (SettingsStore × A)) (t : SettingsStore)
    → ((out : SettingsStore × A) → m ≡ answer out → IsOff b out.0)
    → (m >>= λ r. answer (r.0)) ≡ answer t
    → IsOff b t
first-IsOff b m t each h =
    let (out, made, same) = bind_inv m (λ r. answer (r.0)) h in
    subst (IsOff b) (answer_same same) (each out made)

step-IsOff :
    (ext : External) (s t : SettingsStore) (call : StoreCall)
    → s.storage.initialized ≡ false
    → store_step ext s call ≡ answer t
    → IsOff s.storage t
unfolding store_step
step-IsOff ext s t (save run r) off h =
    first-IsOff s.storage (settings_store_save ext run s r) t
      (λ out. save-IsOff ext run s r out off) h
step-IsOff ext s t (load flash_base) off h =
    first-IsOff s.storage (settings_store_load flash_base s) t (λ out. load-IsOff flash_base s out)
      h
step-IsOff ext s t (factory_reset run) off h = reset-IsOff ext run s t off h
step-IsOff ext s t (wipe run hal) off h =
    first-IsOff s.storage (settings_store_wipe ext run hal s) t
      (λ out. wipe-IsOff ext run hal s out off) h
step-IsOff ext s t (restore blob payload) off h =
    subst (IsOff s.storage) (answer_same h) (restore-IsOff s blob payload)

-- No call initialises the storage backend, so that it stays as it is.
pub run-IsOff :
    (ext : External) (s t : SettingsStore) (calls : List StoreCall)
    → s.storage.initialized ≡ false
    → run_store ext s calls ≡ answer t
    → IsOff s.storage t
unfolding run_store
run-IsOff ext s t [] off h = subst (IsOff s.storage) (answer_same h) refl
run-IsOff ext s t (call ∷ calls) off h =
    let (u, first, rest) = bind_inv (store_step ext s call) (λ u. run_store ext u calls) h in
    let kept = step-IsOff ext s u call off first in
    run-IsOff ext u t calls (ap (λ b. b.initialized) kept ∙ off) rest ∙ kept
