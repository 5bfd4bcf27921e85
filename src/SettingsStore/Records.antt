-- ===== src/SettingsStore/Records.antt =====
-- firmware/src/settings_store.c: saving and loading. `settings_store_save` and
-- `settings_store_load` with the record that stands in the flash.
use safe_key_vault.Prelude.{
  ℕ, ◌+◌, ◌%◌, ◌^◌, Bool, false, ◌||◌, not, Option, none, some, ◌++◌, take, drop, length, ltb, ◌==◌,
  if◌then◌else◌, Outcome, answer, ◌>>=◌,
}
use safe_key_vault.FirmwareTypes.{RuntimeSettings}
use safe_key_vault.StorageBackend.{Bytes, le32}
use safe_key_vault.StorageBackend.Calls.{storage_backend_write_atomic, storage_backend_read_latest}
use safe_key_vault.CryptoEngine.{crypto_engine_encrypt_aead, crypto_engine_decrypt_aead}
use safe_key_vault.SettingsStore.{
  External, SaveRun, SettingsBlob, SettingsStore, settings_version, settings_of, word_at,
  blob_bytes, blob_of, settings_crc, with_default, build_blob, settings_store_nonce, blob_aad,
}

-- The bytes of the record that is stored.
unfoldable pub record_bytes : SettingsBlob → Bytes → Bytes
record_bytes blob payload = le32 (length payload) ++ blob_bytes blob ++ payload

-- The end of `settings_store_save`: the globals change before the record is stored.
unfoldable pub store_sealed :
    SaveRun → SettingsStore → SettingsBlob → Option (Bytes × Bytes) → SettingsStore × Bool
store_sealed run s blob none = (s, false)
store_sealed run s blob (some (payload, tag)) =
    let tagged = record blob { hmac_tag = tag } in
    let (storage, stored) =
      storage_backend_write_atomic run.flash_base run.hal run.junk s.storage
        (some (record_bytes tagged payload)) settings_version in
    (record s { blob = tagged; encrypted_payload = payload; storage = storage }, stored)

-- Where `settings_store_save` has come behind its guards.
unfoldable pub save_blob :
    External → SaveRun → SettingsStore → SettingsBlob → Outcome (SettingsStore × Bool)
save_blob ext run before blob =
    let s = record before { encryption_counter = (before.encryption_counter + 1) % 2 ^ 32 } in
    settings_store_nonce ext s >>= λ nonce.
    crypto_engine_encrypt_aead s.crypto (blob_bytes blob) (blob_aad blob) 128 >>= λ sealed.
    answer (store_sealed run s blob sealed)

unfoldable pub settings_store_save :
    External → SaveRun → SettingsStore → Option RuntimeSettings → Outcome (SettingsStore × Bool)
settings_store_save ext run s none = answer (s, false)
settings_store_save ext run s (some settings) =
    if not s.initialized
    then answer (s, false)
    else save_blob ext run s (build_blob run.pad settings)

-- The record that was read, taken apart.
unfoldable pub parse_record : SettingsStore → Bytes → Option SettingsStore
parse_record s bytes =
    let stored_payload_len = word_at bytes 0 in
    if ltb (length bytes) 44
    then none
    else if stored_payload_len == 0 || ltb 128 stored_payload_len
    then none
    else if not (length bytes == 44 + stored_payload_len)
    then none
    else some (record s {
      blob = blob_of (take 40 (drop 4 bytes));
      encrypted_payload = take stored_payload_len (drop 44 bytes);
    })

unfoldable pub parse_stored : SettingsStore → Option (Bytes × ℕ) → Option SettingsStore
parse_stored s none = none
parse_stored s (some (bytes, schema_version)) =
    if not (schema_version == settings_version) then none else parse_record s bytes

-- The storage is read only where no payload is held.
unfoldable pub fetch : ℕ → SettingsStore → Option SettingsStore
fetch flash_base s =
    if length s.encrypted_payload == 0
    then parse_stored s (storage_backend_read_latest flash_base s.storage 300)
    else some s

-- What is made of the decrypted bytes.
unfoldable pub accept_plaintext : Option Bytes → Option RuntimeSettings
accept_plaintext none = none
accept_plaintext (some plaintext) =
    let blob = blob_of plaintext in
    if not (length plaintext == 40)
    then none
    else if not (settings_crc blob.settings == blob.crc32)
    then none
    else some (with_default (settings_of blob.settings))

unfoldable pub open_payload : SettingsStore → Outcome (SettingsStore × Option RuntimeSettings)
open_payload s =
    crypto_engine_decrypt_aead s.crypto s.encrypted_payload (blob_aad s.blob) s.blob.hmac_tag 40
    >>= λ plaintext. answer (s, accept_plaintext plaintext)

unfoldable pub settings_store_load :
    ℕ → SettingsStore → Outcome (SettingsStore × Option RuntimeSettings)
settings_store_load flash_base s =
    if not s.initialized
    then answer (s, none)
    else elim (fetch flash_base s) [ none ↦ answer (s, none) | some held ↦ open_payload held ]
