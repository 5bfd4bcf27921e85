-- ===== src/StorageBackend/Written.antt =====
-- The slot that `storage_backend_write_atomic` of firmware/src/storage_backend.c builds, and the
-- sector after a write in which no HAL call fails.
use safe_key_vault.Prelude.{
  ℕ, zero, suc, ◌+◌, ◌-◌, ◌*◌, ◌<◌, ◌≤◌, ◌^◌, ◌≡◌, refl, sym, ap, ◌∙◌, ◌↔◌, true, [], ◌∷◌, ◌++◌,
  bit_xor, length, length-append, arith,
}
use safe_key_vault.StorageBackend.{
  Bytes, Sector, Storage, FlashRun, Junk, read_bytes, calculate_crc8, payload_len, generation,
  schema_version, payload_of, is_slot_valid, max_payload, le32, new_slot, sector, put, in_flash,
  address, write_flash_sector, program_words, flash_sector_size, read_flash_sector, flash_bank_size,
  valid_at,
}
use safe_key_vault.StorageBackend.Header.{field_sum, is_slot_valid_iff}

-- The exclusive or of the bytes of a header's numbers and of two bytes of padding.
abbrev pub header_sum : ℕ → ℕ → ℕ → Junk → ℕ
header_sum gen schema len junk =
    bit_xor (bit_xor (calculate_crc8 (le32 gen ++ le32 schema ++ le32 len)) junk.pad0) junk.pad1

new_slot-field_sum :
    (junk : Junk) (gen schema : ℕ) (payload : Bytes)
    → field_sum (new_slot junk gen schema payload) ≡ header_sum gen schema (length payload) junk
unfolding new_slot read_bytes
new_slot-field_sum junk gen schema payload = refl

pub new_slot-generation :
    (junk : Junk) (gen schema : ℕ) (payload : Bytes)
    → gen < 2 ^ 32
    → generation (new_slot junk gen schema payload) ≡ gen
unfolding new_slot
new_slot-generation junk gen schema payload h = omega arith

pub new_slot-schema :
    (junk : Junk) (gen schema : ℕ) (payload : Bytes)
    → schema < 2 ^ 32
    → schema_version (new_slot junk gen schema payload) ≡ schema
unfolding new_slot
new_slot-schema junk gen schema payload h = omega arith

pub new_slot-payload_len :
    (junk : Junk) (gen schema : ℕ) (payload : Bytes)
    → length payload ≤ max_payload
    → payload_len (new_slot junk gen schema payload) ≡ length payload
unfolding new_slot
new_slot-payload_len junk gen schema payload h = omega arith

read_bytes-append : (xs ys : Bytes) → read_bytes (xs ++ ys) (length xs) ≡ xs
unfolding read_bytes
read_bytes-append [] ys = refl
read_bytes-append (x ∷ xs) ys = ap (λ t. x ∷ t) (read_bytes-append xs ys)

pub new_slot-payload :
    (junk : Junk) (gen schema : ℕ) (payload : Bytes)
    → payload_of (new_slot junk gen schema payload) (length payload) ≡ payload
unfolding new_slot
new_slot-payload junk gen schema payload = read_bytes-append payload _

-- A slot that the firmware builds for a payload of 1 to 256 bytes is accepted when it is read
-- back exactly if the bytes of the header's numbers and two bytes of padding cancel.
pub new_slot-valid_iff :
    (junk : Junk) (gen schema : ℕ) (payload : Bytes)
    → 0 < length payload
    → length payload ≤ max_payload
    → (is_slot_valid (new_slot junk gen schema payload) ≡ true)
      ↔ (header_sum gen schema (length payload) junk ≡ 0)
new_slot-valid_iff junk gen schema payload h0 h1 =
    let len : payload_len (new_slot junk gen schema payload) ≡ length payload =
      new_slot-payload_len junk gen schema payload h1 in
    let iff = is_slot_valid_iff (new_slot junk gen schema payload) in
    let sum = new_slot-field_sum junk gen schema payload in
    (λ h. sym sum ∙ (iff.0 h).2, λ h. iff.1 (omega (arith, len), omega (arith, len), sum ∙ h))

pub length-read_bytes : (s : Bytes) (n : ℕ) → length (read_bytes s n) ≡ n
unfolding read_bytes
length-read_bytes s zero = refl
length-read_bytes [] (suc n) = ap suc (length-read_bytes [] n)
length-read_bytes (x ∷ s) (suc n) = ap suc (length-read_bytes s n)

pub length-new_slot :
    (junk : Junk) (gen schema : ℕ) (payload : Bytes)
    → length payload ≤ max_payload
    → length (new_slot junk gen schema payload) ≡ 272
unfolding new_slot
length-new_slot junk gen schema payload h = omega (
  arith,
  length-append payload (read_bytes junk.tail (max_payload - length payload)),
  length-read_bytes junk.tail (max_payload - length payload),
)

-- Every HAL call of a write of 272 bytes succeeds.
abbrev pub AllOk : FlashRun → Type 0
AllOk hal =
    (hal.unlock_ok ≡ true) × (hal.erase_ok ≡ true) × (68 ≤ hal.words_ok) × (hal.lock_ok ≡ true)

-- Both sectors lie within the flash.
abbrev pub Mapped : ℕ → Type 0
Mapped flash_base = (flash_base ≤ 134217728) × (134250496 ≤ flash_base + flash_bank_size)

program_words-all :
    (k n : ℕ) (failed bytes : Bytes)
    → length bytes ≡ k * 4
    → k ≤ n
    → program_words n failed bytes ≡ (bytes, true)
unfolding program_words
program_words-all k n failed [] e h = refl
program_words-all zero n failed (x ∷ bytes) e h = absurd (omega arith)
program_words-all (suc k) zero failed (x ∷ bytes) e h = absurd (omega arith)
program_words-all (suc k) (suc n) failed (x ∷ []) e h = absurd (omega arith)
program_words-all (suc k) (suc n) failed (x ∷ y ∷ []) e h = absurd (omega arith)
program_words-all (suc k) (suc n) failed (x ∷ y ∷ z ∷ []) e h = absurd (omega arith)
program_words-all (suc k) (suc n) failed (x ∷ y ∷ z ∷ w ∷ bytes) e h =
    ap (λ r. (x ∷ y ∷ z ∷ w ∷ r.0, r.1))
      (program_words-all k n failed bytes (omega arith) (omega arith))

pub in_flash-Mapped :
    (flash_base : ℕ) (x : Sector) (size : ℕ)
    → Mapped flash_base
    → size ≤ flash_sector_size
    → in_flash flash_base (address x) size ≡ true
unfolding in_flash address
in_flash-Mapped flash_base Sector.sector_a size m h = ground arith
in_flash-Mapped flash_base Sector.sector_b size m h = ground arith

pub write_flash_sector-AllOk :
    (flash_base : ℕ) (hal : FlashRun) (s : Storage) (x : Sector) (bytes : Bytes)
    → Mapped flash_base
    → AllOk hal
    → length bytes ≡ 272
    → write_flash_sector flash_base hal s x bytes ≡ (put s x bytes, true)
unfolding write_flash_sector
write_flash_sector-AllOk flash_base hal s x bytes m (unlocked, erased, programmed, locked) e = rw (
  in_flash-Mapped flash_base x (length bytes) m (omega arith),
  unlocked,
  erased,
  locked,
  program_words-all 68 hal.words_ok hal.failed_program bytes e programmed,
)

pub valid_at-Mapped :
    (flash_base : ℕ) (s : Storage) (x : Sector)
    → Mapped flash_base
    → valid_at flash_base s x ≡ is_slot_valid (sector s x)
unfolding valid_at read_flash_sector
valid_at-Mapped flash_base s x m =
    rw (valid_at, read_flash_sector, in_flash-Mapped flash_base x flash_sector_size m (omega arith))
