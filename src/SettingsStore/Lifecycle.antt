-- ===== src/SettingsStore/Lifecycle.antt =====
-- firmware/src/settings_store.c: `settings_store_init`, `settings_store_factory_reset`,
-- `settings_store_wipe` and the two debug calls.
use safe_key_vault.Prelude.{
  ℕ, zero, suc, ◌+◌, ◌*◌, ◌%◌, bit_xor, Bool, true, false, ◌||◌, not, Option, none, some, [], ◌∷◌,
  length, ltb, ◌==◌, if◌then◌else◌, Outcome, answer, ◌>>=◌,
}
use safe_key_vault.FirmwareTypes.{RuntimeSettings}
use safe_key_vault.StateMachine.{auto_lock_timeout_seconds_default}
use safe_key_vault.StorageBackend.{Bytes, storage_backend_init}
use safe_key_vault.StorageBackend.Calls.{WipeRun, storage_backend_wipe}
use safe_key_vault.CryptoEngine.{
  crypto_engine_init, crypto_engine_set_device_secret, crypto_engine_bind_atecc_slot,
}
use safe_key_vault.SettingsStore.{External, SaveRun, SettingsBlob, SettingsStore, empty_blob}
use safe_key_vault.SettingsStore.Records.{settings_store_save}

abbrev pub factory_settings : RuntimeSettings
factory_settings = record {
  auto_popup_enabled = true;
  manual_popup_requires_touch = true;
  require_touch_for_fill = true;
  hold_required_for_selection = true;
  autolock_seconds = auto_lock_timeout_seconds_default;
  pin_attempt_limit = 5;
  wipe_on_lockout = false;
  passkeys_enabled = false;
  totp_enabled = false;
  default_account_index = 0;
  auto_type_on_plugin = false;
  totp_display_mode = 0;
}

unfoldable pub settings_store_factory_reset :
    External → SaveRun → SettingsStore → Outcome SettingsStore
settings_store_factory_reset ext run s =
    settings_store_save ext run s (some factory_settings) >>= λ r. answer (r.0)

-- The state that `settings_store_wipe` resets to the factory settings.
unfoldable pub emptied : WipeRun → SettingsStore → SettingsStore
emptied hal s = record s {
  blob = empty_blob;
  encrypted_payload = [];
  storage = (storage_backend_wipe hal s.storage).0;
}

unfoldable pub settings_store_wipe :
    External → SaveRun → WipeRun → SettingsStore → Outcome (SettingsStore × Bool)
settings_store_wipe ext run hal s =
    if not s.initialized
    then answer (s, false)
    else settings_store_factory_reset ext run (emptied hal s) >>= λ reset. answer (reset, true)

unfoldable pub settings_store_debug_snapshot : SettingsStore → ℕ → Option (SettingsBlob × Bytes)
settings_store_debug_snapshot s out_payload_capacity =
    let len = length s.encrypted_payload in
    if not s.initialized
    then none
    else if len == 0 || ltb out_payload_capacity len
    then none
    else some (s.blob, s.encrypted_payload)

unfoldable pub settings_store_debug_restore :
    SettingsStore → SettingsBlob → Bytes → SettingsStore × Bool
settings_store_debug_restore s blob payload =
    let len = length payload in
    if not s.initialized
    then (s, false)
    else if len == 0 || ltb 128 len
    then (s, false)
    else (record s { blob = blob; encrypted_payload = payload }, true)

-- `default_master_key` and `default_atecc_pubkey`.
abbrev pub default_master_key : Bytes
default_master_key =
    0x2D ∷ 0x81 ∷ 0x57 ∷ 0x9A ∷ 0x44 ∷ 0xC6 ∷ 0x31 ∷ 0xE2 ∷ 0x0F ∷ 0xB8 ∷ 0x5C ∷ 0xD3 ∷ 0x6A ∷ 0x19
    ∷ 0xAE ∷ 0x70 ∷ 0x83 ∷ 0x2F ∷ 0xC9 ∷ 0x14 ∷ 0x5B ∷ 0xE7 ∷ 0x3A ∷ 0x91 ∷ 0x68 ∷ 0x04 ∷ 0xDD
    ∷ 0x27 ∷ 0xB1 ∷ 0x5E ∷ 0xF0 ∷ 0x3C ∷ []

abbrev pub default_atecc_pubkey : Bytes
default_atecc_pubkey =
    0xA1 ∷ 0x44 ∷ 0x7C ∷ 0x2E ∷ 0x53 ∷ 0xD7 ∷ 0x1B ∷ 0x90 ∷ 0x6F ∷ 0x08 ∷ 0xC2 ∷ 0x35 ∷ 0xE4 ∷ 0x79
    ∷ 0x1D ∷ 0xAF ∷ 0x58 ∷ 0xCB ∷ 0x21 ∷ 0x63 ∷ 0x96 ∷ 0x0A ∷ 0xF5 ∷ 0x3D ∷ 0xB0 ∷ 0x47 ∷ 0x89
    ∷ 0x12 ∷ 0xD8 ∷ 0x6C ∷ 0x24 ∷ 0xFE ∷ []

-- The bytes of the device secret from index i on.
unfoldable pub device_secret : ℕ → ℕ → Bytes
device_secret zero i = []
device_secret (suc left) i = bit_xor 0xA5 (i * 13 % 256) ∷ device_secret left (i + 1)

unfoldable pub settings_store_init : External → SettingsStore → SettingsStore
settings_store_init ext s =
    let keyed = ext.set_master_key (crypto_engine_init s.crypto) default_master_key in
    let secret = (crypto_engine_set_device_secret keyed (device_secret 32 0)).0 in
    let bound = (crypto_engine_bind_atecc_slot secret ext.slot_pubkey default_atecc_pubkey).0 in
    record {
      initialized = true;
      blob = empty_blob;
      encrypted_payload = [];
      encryption_counter = s.encryption_counter;
      crypto = bound;
      storage = storage_backend_init s.storage;
    }
