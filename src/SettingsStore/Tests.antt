-- ===== src/SettingsStore/Tests.antt =====
-- Runs of firmware/src/settings_store.c at concrete inputs.
use safe_key_vault.Prelude.{◌≡◌, refl, arith, Bool, true, false, none, some, List, [], take, answer}
use safe_key_vault.FirmwareTypes.{RuntimeSettings}
use safe_key_vault.SecurityUtils.{security_fnv1a32}
use safe_key_vault.StorageBackend.{Bytes, FlashRun, Junk, new_slot}
use safe_key_vault.StorageBackend.Calls.{
  WipeRun, storage_backend_write_atomic, storage_backend_wipe, storage_backend_read_latest,
}
use safe_key_vault.SecureElement.{
  digest_of, xor_from, tag_of, read_from, atecc608a_is_available, atecc608a_is_ready,
  atecc608a_read_slot, atecc608a_sha256, atecc608a_encrypt_aead,
}
use safe_key_vault.CryptoEngine.{
  crypto_engine_hash16, crypto_engine_encrypt_aead, crypto_engine_read_atecc_slot,
  crypto_engine_ready_for_sensitive_ops,
}
use safe_key_vault.CryptoEngine.Tests.{key, provisioned, armed}
use safe_key_vault.SettingsStore.{
  External, SaveRun, SettingsBlob, SettingsStore, empty_blob, settings_bytes, blob_bytes, blob_aad,
  settings_crc, with_default, build_blob, nonce_seed, settings_store_nonce,
}
use safe_key_vault.SettingsStore.Records.{
  record_bytes, store_sealed, save_blob, settings_store_save, settings_store_load, fetch,
  parse_stored,
}
use safe_key_vault.SettingsStore.Lifecycle.{factory_settings, settings_store_wipe}
use safe_key_vault.SettingsStore.Saving.{save-load, save_takes_effect}
use safe_key_vault.SettingsStore.Wiping.{wiped_storage, wipe-forgets}
use safe_key_vault.SettingsStore.Calls.{StoreCall, run_store}

abbrev ext : External
ext = record { set_master_key = λ c master. c; slot_device_secret = 1; slot_pubkey = 2 }

abbrev flash : FlashRun
flash = record {
  unlock_ok = true;
  erase_ok = true;
  failed_erase = [];
  words_ok = 68;
  failed_program = [];
  lock_ok = true;
}

abbrev zeros : Junk
zeros = record { old_crc8 = 0; pad0 = 0; pad1 = 0; pad2 = 0; tail = [] }

abbrev run : SaveRun
run = record { flash_base = 134217728; hal = flash; junk = zeros; pad = 0 }

-- A flash that does not unlock.
abbrev bad_run : SaveRun
bad_run = record run { hal = record flash { unlock_ok = false } }

abbrev store : SettingsStore
store = record {
  initialized = true;
  blob = empty_blob;
  encrypted_payload = [];
  encryption_counter = 0;
  crypto = provisioned;
  storage = record { initialized = true; at_a = []; at_b = [] };
}

abbrev chosen : RuntimeSettings
chosen = record factory_settings {
  autolock_seconds = 0;
  pin_attempt_limit = 3;
  wipe_on_lockout = true;
}

unfoldable chosen_blob : SettingsBlob
unfolding build_blob settings_bytes with_default settings_crc security_fnv1a32
chosen_blob = build_blob 0 chosen

unfoldable payload : Bytes
unfolding chosen_blob blob_bytes xor_from
payload = xor_from 0 (blob_bytes chosen_blob) key

unfoldable tag : Bytes
unfolding chosen_blob payload digest_of
tag = take 16 (tag_of (blob_aad chosen_blob) payload key)

unfoldable saved_store : SettingsStore
unfolding chosen_blob payload tag store_sealed storage_backend_write_atomic record_bytes blob_bytes
saved_store =
    (store_sealed run (record store { encryption_counter = 1 }) chosen_blob (some (payload, tag))).0

saved_run : settings_store_save ext run store (some chosen) ≡ answer (saved_store, true)
unfolding settings_store_save save_blob build_blob settings_bytes with_default settings_crc
    security_fnv1a32 settings_store_nonce nonce_seed crypto_engine_read_atecc_slot
    crypto_engine_hash16 atecc608a_sha256 atecc608a_is_available atecc608a_is_ready
    atecc608a_read_slot read_from crypto_engine_encrypt_aead crypto_engine_ready_for_sensitive_ops
    atecc608a_encrypt_aead xor_from digest_of store_sealed storage_backend_write_atomic record_bytes
    blob_bytes chosen_blob payload tag saved_store
saved_run = refl

save-load_example :
    settings_store_load 0 saved_store ≡ answer (saved_store, some (with_default chosen))
save-load_example =
    save-load ext run store saved_store chosen 0
      (omega arith, omega arith, omega arith, omega arith) saved_run

save_takes_effect_example :
    (s' : SettingsStore) × (stored : Bool) × (settings_store_save ext bad_run store (some chosen)
      ≡ answer (s', stored))
    × (settings_store_load 0 s' ≡ answer (s', some (with_default chosen)))
save_takes_effect_example =
    save_takes_effect ext bad_run store chosen key 0 refl armed
      (omega arith, omega arith, omega arith, omega arith)

abbrev erasing : WipeRun
erasing = record {
  unlock_ok = true;
  erase_a_ok = true;
  left_at_a = [];
  erase_b_ok = true;
  left_at_b = [];
  lock_ok = true;
}

erased : (storage_backend_wipe erasing store.storage).1 ≡ true
unfolding storage_backend_wipe
erased = refl

wipe-forgets_example :
    (s' : SettingsStore) × (settings_store_wipe ext run erasing store ≡ answer (s', true))
    × (settings_store_load 0 s' ≡ answer (s', some factory_settings))
    × (s'.storage ≡ wiped_storage)
    × ((calls : List StoreCall) (t : SettingsStore) (later : SaveRun) (r : RuntimeSettings)
          (out : SettingsStore × Bool)
        → run_store ext s' calls ≡ answer t
        → settings_store_save ext later t (some r) ≡ answer out
        → (t.storage ≡ wiped_storage) × (out.1 ≡ false))
wipe-forgets_example = wipe-forgets ext run erasing store key 0 refl armed erased

-- The store after a restart of the device.
unfoldable restarted : SettingsStore
unfolding saved_store
restarted = record saved_store { blob = empty_blob; encrypted_payload = [] }

-- The first settings that were stored are not read back: their slot is not valid.
lost_after_restart : settings_store_load 134217728 restarted ≡ answer (restarted, none)
unfolding settings_store_load fetch parse_stored storage_backend_read_latest new_slot restarted
    saved_store store_sealed storage_backend_write_atomic record_bytes blob_bytes chosen_blob
    payload tag build_blob settings_bytes with_default settings_crc security_fnv1a32 xor_from
    digest_of
lost_after_restart = refl
