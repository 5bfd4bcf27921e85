-- ===== src/SettingsStore.antt =====
-- firmware/src/settings_store.c and firmware/include/settings_store.h, built with
-- FIRMWARE_PRODUCTION = 0, over the crypto engine and the storage backend. The pointers that
-- results are written through are never NULL here. `runtime_settings_t` has 14 bytes, the last of
-- which is padding, and `settings_blob_t` has 40.
pub mod Records
pub mod Lifecycle
pub mod Calls
pub mod Blobs
pub mod Saving
pub mod Loading
pub mod Unstored
pub mod Wiping
mod Tests
use safe_key_vault.Prelude.{
  ℕ, ◌+◌, ◌*◌, ◌/◌, ◌%◌, bit_xor, Bool, not, Option, none, some, List, [], ◌∷◌, ◌++◌, get_or, take,
  drop, replicate, ◌==◌, if◌then◌else◌, Outcome, answer, ◌>>=◌,
}
use safe_key_vault.FirmwareTypes.{RuntimeSettings}
use safe_key_vault.SecurityUtils.{security_fnv1a32}
use safe_key_vault.StateMachine.{auto_lock_timeout_seconds_default}
use safe_key_vault.StorageBackend.{Bytes, Storage, FlashRun, Junk, le32, word}
use safe_key_vault.CryptoEngine.{CryptoState, crypto_engine_read_atecc_slot, crypto_engine_hash16}

-- What the file uses and no file of the repository gives it: `crypto_engine_set_master_key`,
-- `ATECC608A_SLOT_DEVICE_SECRET` and `ATECC608A_SLOT_PUBKEY`.
pub record External : Type 0 where
  pub set_master_key : CryptoState → List ℕ → CryptoState
  pub slot_device_secret : ℕ
  pub slot_pubkey : ℕ

-- What surrounds a save: the flash, and the padding byte of the settings.
pub record SaveRun : Type 0 where
  pub flash_base : ℕ
  pub hal : FlashRun
  pub junk : Junk
  pub pad : ℕ

-- `settings` has the 14 bytes of the structure in memory.
pub record SettingsBlob : Type 0 where
  pub version : ℕ
  pub settings : Bytes
  pub crc32 : ℕ
  pub hmac_tag : Bytes

-- The globals of the file, with those of the files behind it. `encrypted_payload` has
-- `encrypted_payload_len` bytes: those past it are never read.
pub record SettingsStore : Type 0 where
  pub initialized : Bool
  pub blob : SettingsBlob
  pub encrypted_payload : Bytes
  pub encryption_counter : ℕ
  pub crypto : CryptoState
  pub storage : Storage

abbrev pub settings_version : ℕ
settings_version = 1

abbrev pub empty_blob : SettingsBlob
empty_blob = record { version = 0; settings = replicate 14 0; crc32 = 0; hmac_tag = replicate 16 0 }

abbrev pub bool_byte : Bool → ℕ
bool_byte b = if b then 1 else 0

-- `runtime_settings_t` in memory.
unfoldable pub settings_bytes : ℕ → RuntimeSettings → Bytes
settings_bytes pad r =
    bool_byte r.auto_popup_enabled
    ∷ bool_byte r.manual_popup_requires_touch
    ∷ bool_byte r.require_touch_for_fill
    ∷ bool_byte r.hold_required_for_selection
    ∷ r.autolock_seconds % 256
    ∷ r.autolock_seconds / 256 % 256
    ∷ r.pin_attempt_limit % 256
    ∷ bool_byte r.wipe_on_lockout
    ∷ bool_byte r.passkeys_enabled
    ∷ bool_byte r.totp_enabled
    ∷ r.default_account_index % 256
    ∷ bool_byte r.auto_type_on_plugin
    ∷ r.totp_display_mode % 256
    ∷ pad
    ∷ []

abbrev pub flag_at : Bytes → ℕ → Bool
flag_at bytes i = not (get_or bytes i 0 == 0)

unfoldable pub settings_of : Bytes → RuntimeSettings
settings_of bytes = record {
  auto_popup_enabled = flag_at bytes 0;
  manual_popup_requires_touch = flag_at bytes 1;
  require_touch_for_fill = flag_at bytes 2;
  hold_required_for_selection = flag_at bytes 3;
  autolock_seconds = get_or bytes 4 0 + get_or bytes 5 0 * 256;
  pin_attempt_limit = get_or bytes 6 0;
  wipe_on_lockout = flag_at bytes 7;
  passkeys_enabled = flag_at bytes 8;
  totp_enabled = flag_at bytes 9;
  default_account_index = get_or bytes 10 0;
  auto_type_on_plugin = flag_at bytes 11;
  totp_display_mode = get_or bytes 12 0;
}

abbrev pub word_at : Bytes → ℕ → ℕ
word_at bytes i =
    word (get_or bytes i 0) (get_or bytes (i + 1) 0) (get_or bytes (i + 2) 0)
      (get_or bytes (i + 3) 0)

-- `settings_blob_t` in memory.
unfoldable pub blob_bytes : SettingsBlob → Bytes
blob_bytes blob = le32 blob.version ++ blob.settings ++ (0 ∷ 0 ∷ le32 blob.crc32) ++ blob.hmac_tag

unfoldable pub blob_of : Bytes → SettingsBlob
blob_of bytes = record {
  version = word_at bytes 0;
  settings = take 14 (drop 4 bytes);
  crc32 = word_at bytes 20;
  hmac_tag = take 16 (drop 24 bytes);
}

unfoldable pub settings_crc : Bytes → ℕ
settings_crc settings = security_fnv1a32 (some settings)

unfoldable pub with_default : RuntimeSettings → RuntimeSettings
with_default r =
    if r.autolock_seconds == 0
    then record r { autolock_seconds = auto_lock_timeout_seconds_default }
    else r

unfoldable pub build_blob : ℕ → RuntimeSettings → SettingsBlob
build_blob pad r =
    let settings = settings_bytes pad (with_default r) in
    record {
      version = settings_version;
      settings = settings;
      crc32 = settings_crc settings;
      hmac_tag = replicate 16 0;
    }

-- What the nonce is the hash of: the device secret is left out where it cannot be read.
unfoldable pub nonce_seed : Bytes → Option Bytes → Bytes
nonce_seed mixed_counter none = mixed_counter
nonce_seed mixed_counter (some secret) = mixed_counter ++ secret

-- The nonce is computed, and the encryption does not take it. The counter has been counted up.
unfoldable pub settings_store_nonce : External → SettingsStore → Outcome Bytes
settings_store_nonce ext s =
    let mixed_counter = le32 (bit_xor s.encryption_counter 0xDEADBEEF) in
    let secret = crypto_engine_read_atecc_slot s.crypto ext.slot_device_secret 12 in
    crypto_engine_hash16 s.crypto (nonce_seed mixed_counter secret) >>= λ hash.
    answer (take 12 hash)

abbrev pub blob_aad : SettingsBlob → Bytes
blob_aad blob = le32 blob.version ++ le32 blob.crc32
