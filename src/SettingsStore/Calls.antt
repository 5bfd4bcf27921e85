-- ===== src/SettingsStore/Calls.antt =====
-- firmware/include/settings_store.h: the calls that change the store, but `settings_store_init`, and
-- runs of them in any order.
use safe_key_vault.Prelude.{ℕ, Option, List, [], ◌∷◌, Outcome, answer, ◌>>=◌}
use safe_key_vault.FirmwareTypes.{RuntimeSettings}
use safe_key_vault.StorageBackend.{Bytes}
use safe_key_vault.StorageBackend.Calls.{WipeRun}
use safe_key_vault.SettingsStore.{External, SaveRun, SettingsBlob, SettingsStore}
use safe_key_vault.SettingsStore.Records.{settings_store_save, settings_store_load}
use safe_key_vault.SettingsStore.Lifecycle.{
  settings_store_factory_reset, settings_store_wipe, settings_store_debug_restore,
}

pub data StoreCall : Type 0 where
  save : SaveRun → Option RuntimeSettings → StoreCall
  load : ℕ → StoreCall
  factory_reset : SaveRun → StoreCall
  wipe : SaveRun → WipeRun → StoreCall
  restore : SettingsBlob → Bytes → StoreCall

-- The store after a call.
unfoldable pub store_step : External → SettingsStore → StoreCall → Outcome SettingsStore
store_step ext s (save run settings) = settings_store_save ext run s settings >>= λ r. answer (r.0)
store_step ext s (load flash_base) = settings_store_load flash_base s >>= λ r. answer (r.0)
store_step ext s (factory_reset run) = settings_store_factory_reset ext run s
store_step ext s (wipe run hal) = settings_store_wipe ext run hal s >>= λ r. answer (r.0)
store_step ext s (restore blob payload) = answer ((settings_store_debug_restore s blob payload).0)

unfoldable pub run_store : External → SettingsStore → List StoreCall → Outcome SettingsStore
run_store ext s [] = answer s
run_store ext s (call ∷ calls) = store_step ext s call >>= λ t. run_store ext t calls
