-- ===== src/SettingsStore/Wiping.antt =====
-- firmware/src/settings_store.c: what a wipe leaves.
use safe_key_vault.Prelude.{ℕ, ◌≡◌, refl, arith, ap, ◌∙◌, Bool, true, false, some, answer, List, []}
use safe_key_vault.FirmwareTypes.{RuntimeSettings}
use safe_key_vault.StorageBackend.{Bytes, Storage}
use safe_key_vault.StorageBackend.Calls.{WipeRun, storage_backend_wipe}
use safe_key_vault.CryptoEngine.Limits.{IsArmed}
use safe_key_vault.SettingsStore.{External, SaveRun, SettingsStore, with_default}
use safe_key_vault.SettingsStore.Records.{settings_store_save, settings_store_load}
use safe_key_vault.SettingsStore.Lifecycle.{
  factory_settings, settings_store_factory_reset, emptied, settings_store_wipe,
}
use safe_key_vault.SettingsStore.Calls.{StoreCall, run_store}
use safe_key_vault.SettingsStore.Blobs.{IsStorable}
use safe_key_vault.SettingsStore.Saving.{save_takes_effect}
use safe_key_vault.SettingsStore.Unstored.{save-IsUnstored, run-IsOff}

-- The storage backend after a wipe.
abbrev pub wiped_storage : Storage
wiped_storage = record { initialized = false; at_a = []; at_b = [] }

wipe-storage :
    (hal : WipeRun) (s : Storage)
    → (storage_backend_wipe hal s).1 ≡ true
    → (storage_backend_wipe hal s).0 ≡ wiped_storage
unfolding storage_backend_wipe
wipe-storage hal s h = ground arith

factory-IsStorable : IsStorable factory_settings
factory-IsStorable = (omega arith, omega arith, omega arith, omega arith)

wipe_eq :
    (ext : External) (run : SaveRun) (hal : WipeRun) (s : SettingsStore)
    (out : SettingsStore × Bool)
    → s.initialized ≡ true
    → settings_store_save ext run (emptied hal s) (some factory_settings) ≡ answer out
    → settings_store_wipe ext run hal s ≡ answer (out.0, true)
unfolding settings_store_wipe settings_store_factory_reset
wipe_eq ext run hal s out here saved = rw (saved, here) refl

-- In an initialised store with an armed crypto engine, and where the flash is erased,
-- `settings_store_wipe` returns true and `settings_store_load` then gives the factory settings; but
-- the storage backend is left erased and not initialised. It stays so through any calls of the
-- store other than `settings_store_init`, which a restart makes, and any save after them returns
-- false.
pub wipe-forgets :
    (ext : External) (run : SaveRun) (hal : WipeRun) (s : SettingsStore) (key : Bytes)
    (flash_base : ℕ)
    → s.initialized ≡ true
    → IsArmed s.crypto key
    → (storage_backend_wipe hal s.storage).1 ≡ true
    → (s' : SettingsStore) × (settings_store_wipe ext run hal s ≡ answer (s', true))
      × (settings_store_load flash_base s' ≡ answer (s', some factory_settings))
      × (s'.storage ≡ wiped_storage)
      × ((calls : List StoreCall) (t : SettingsStore) (later : SaveRun) (r : RuntimeSettings)
            (out : SettingsStore × Bool)
          → run_store ext s' calls ≡ answer t
          → settings_store_save ext later t (some r) ≡ answer out
          → (t.storage ≡ wiped_storage) × (out.1 ≡ false))
unfolding with_default emptied
wipe-forgets ext run hal s key flash_base here armed erased =
    let e = emptied hal s in
    let gone = wipe-storage hal s.storage erased in
    let off : e.storage.initialized ≡ false = ap (λ b. b.initialized) gone in
    let (s', stored, saved, loaded) =
      save_takes_effect ext run e factory_settings key flash_base here armed factory-IsStorable in
    let kept = (save-IsUnstored ext run e factory_settings (s', stored) off saved).0 ∙ gone in
    let off' : s'.storage.initialized ≡ false = ap (λ b. b.initialized) kept in
    (
      s',
      wipe_eq ext run hal s (s', stored) here saved,
      loaded,
      kept,
      λ calls t later r out ran h.
          let still = run-IsOff ext s' t calls off' ran ∙ kept in
          let out_off : t.storage.initialized ≡ false = ap (λ b. b.initialized) still in
          (still, (save-IsUnstored ext later t r out out_off h).1),
    )
