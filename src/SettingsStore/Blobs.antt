-- ===== src/SettingsStore/Blobs.antt =====
-- firmware/src/settings_store.c: the structures in memory, and back.
use safe_key_vault.Prelude.{
  ℕ, ◌+◌, ◌*◌, ◌/◌, ◌%◌, ◌^◌, ◌<◌, ◌≡◌, refl, arith, ap, sym, ◌∙◌, Bool, true, false, not, ◌==◌,
  some, length, ==_iff,
}
use safe_key_vault.FirmwareTypes.{RuntimeSettings}
use safe_key_vault.SecurityUtils.Hash.{security_fnv1a32-lt}
use safe_key_vault.StorageBackend.{Bytes, word}
use safe_key_vault.SettingsStore.{
  bool_byte, settings_bytes, settings_of, blob_bytes, blob_of, settings_crc, with_default,
  build_blob,
}
use safe_key_vault.SettingsStore.Records.{accept_plaintext}

-- The values that the fields of the structure hold.
abbrev pub IsStorable : RuntimeSettings → Type 0
IsStorable r =
    (r.autolock_seconds < 65536)
    × (r.pin_attempt_limit < 256)
    × (r.default_account_index < 256)
    × (r.totp_display_mode < 256)

flag_back : (b : Bool) → not (bool_byte b == 0) ≡ b
flag_back true = refl
flag_back false = refl

word_back :
    (n : ℕ) → n < 2 ^ 32 → word (n % 256) (n / 256 % 256) (n / 65536 % 256) (n / 16777216 % 256) ≡ n
word_back n small = omega arith

settings_bytes-settings_of :
    (pad : ℕ) (r : RuntimeSettings) → IsStorable r → settings_of (settings_bytes pad r) ≡ r
unfolding settings_bytes settings_of
settings_bytes-settings_of pad r (a, b, c, d) =
    let short : r.autolock_seconds % 256 + r.autolock_seconds / 256 % 256 * 256
        ≡ r.autolock_seconds =
      omega arith in
    let x : r.pin_attempt_limit % 256 ≡ r.pin_attempt_limit = omega arith in
    let y : r.default_account_index % 256 ≡ r.default_account_index = omega arith in
    let z : r.totp_display_mode % 256 ≡ r.totp_display_mode = omega arith in
    simp (short, x, y, z, flag_back)

with_default-IsStorable : (r : RuntimeSettings) → IsStorable r → IsStorable (with_default r)
unfolding with_default
with_default-IsStorable r h = ground arith

with_default_twice : (r : RuntimeSettings) → with_default (with_default r) ≡ with_default r
unfolding with_default
with_default_twice r = ground arith

pub length-blob_bytes :
    (pad : ℕ) (r : RuntimeSettings) → length (blob_bytes (build_blob pad r)) ≡ 40
unfolding blob_bytes build_blob settings_bytes
length-blob_bytes pad r = refl

blob_back :
    (pad : ℕ) (r : RuntimeSettings)
    → let blob = blob_of (blob_bytes (build_blob pad r)) in
      let bytes = settings_bytes pad (with_default r) in
      (blob.settings ≡ bytes) × (blob.crc32 ≡ settings_crc bytes)
unfolding blob_bytes blob_of build_blob settings_bytes settings_crc
blob_back pad r =
    (refl, word_back (settings_crc (settings_bytes pad (with_default r))) (security_fnv1a32-lt _))

accept_eq :
    (plaintext bytes : Bytes)
    → length plaintext ≡ 40
    → (blob_of plaintext).settings ≡ bytes
    → (blob_of plaintext).crc32 ≡ settings_crc bytes
    → accept_plaintext (some plaintext) ≡ some (with_default (settings_of bytes))
unfolding accept_plaintext
accept_eq plaintext bytes size here crc =
    let a : (length plaintext == 40) ≡ true = ground arith in
    let b : (settings_crc (blob_of plaintext).settings == (blob_of plaintext).crc32) ≡ true =
      (==_iff _ _).1 (ap settings_crc here ∙ sym crc) in
    rw (a, b, here) refl

-- What is read back of a blob that was built, where the settings are storable.
pub accept-build_blob :
    (pad : ℕ) (r : RuntimeSettings)
    → IsStorable r
    → accept_plaintext (some (blob_bytes (build_blob pad r))) ≡ some (with_default r)
accept-build_blob pad r h =
    let bytes = settings_bytes pad (with_default r) in
    let (here, crc) = blob_back pad r in
    let back = settings_bytes-settings_of pad (with_default r) (with_default-IsStorable r h) in
    accept_eq (blob_bytes (build_blob pad r)) bytes (length-blob_bytes pad r) here crc
    ∙ ap some (ap with_default back ∙ with_default_twice r)
