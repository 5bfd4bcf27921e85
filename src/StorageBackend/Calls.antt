-- ===== src/StorageBackend/Calls.antt =====
-- The calls of firmware/include/storage_backend.h: `storage_backend_write_atomic`,
-- `storage_backend_read_latest`, the two debug calls and `storage_backend_wipe`.
use safe_key_vault.Prelude.{
  ℕ, Bool, true, false, ◌&&◌, ◌||◌, not, Option, none, some, ◌+◌, ◌%◌, ltb, ◌==◌, if◌then◌else◌,
  length, set, [],
}
use safe_key_vault.StorageBackend.{
  Bytes, Sector, Storage, FlashRun, Junk, sector, read_bytes, generation, schema_version,
  payload_len, crc8, payload_of, max_payload, write_flash_sector, slot_newer, valid_at,
  next_generation, write_address, new_slot,
}

unfoldable pub storage_backend_write_atomic :
    ℕ → FlashRun → Junk → Storage → Option Bytes → ℕ → Storage × Bool
unfolding write_flash_sector write_address next_generation new_slot
storage_backend_write_atomic flash_base hal junk s none schema = (s, false)
storage_backend_write_atomic flash_base hal junk s (some payload) schema =
    if not s.initialized || length payload == 0 || ltb max_payload (length payload)
    then (s, false)
    else write_flash_sector flash_base hal s (write_address flash_base s)
        (new_slot junk (next_generation flash_base s) schema payload)

-- The slot that `storage_backend_read_latest` reads and `storage_backend_debug_corrupt_latest`
-- changes.
unfoldable pub latest_slot : ℕ → Storage → Option Sector
unfolding valid_at slot_newer
latest_slot flash_base s =
    if valid_at flash_base s Sector.sector_a && valid_at flash_base s Sector.sector_b
    then some (if slot_newer s.at_a s.at_b then Sector.sector_a else Sector.sector_b)
    else if valid_at flash_base s Sector.sector_a
    then some Sector.sector_a
    else if valid_at flash_base s Sector.sector_b
    then some Sector.sector_b
    else none

-- The payload and the schema version, for an `out_payload` of `out_capacity` bytes.
unfoldable pub storage_backend_read_latest : ℕ → Storage → ℕ → Option (Bytes × ℕ)
unfolding latest_slot
storage_backend_read_latest flash_base s out_capacity =
    if not s.initialized then none else elim (latest_slot flash_base s) [
      | none ↦ none
      | some x ↦
          let slot = sector s x in
          if ltb out_capacity (payload_len slot)
          then none
          else some (payload_of slot (payload_len slot), schema_version slot)
    ]

-- `storage_backend_debug_t`.
pub record Debug : Type 0 where
  pub slot_a_valid : Bool
  pub slot_b_valid : Bool
  pub slot_a_generation : ℕ
  pub slot_b_generation : ℕ

unfoldable pub storage_backend_debug_state : ℕ → Storage → Option Debug
unfolding valid_at
storage_backend_debug_state flash_base s =
    let a = valid_at flash_base s Sector.sector_a in
    let b = valid_at flash_base s Sector.sector_b in
    if not s.initialized
    then none
    else some (record {
      slot_a_valid = a;
      slot_b_valid = b;
      slot_a_generation = if a then generation s.at_a else 0;
      slot_b_generation = if b then generation s.at_b else 0;
    })

-- `target_slot->header.crc8[0]++` in a `uint8_t`, on the 272 bytes of the structure.
unfoldable pub corrupted : Bytes → Bytes
unfolding read_bytes
corrupted slot = set (read_bytes slot 272) 12 ((crc8 slot + 1) % 256)

unfoldable pub storage_backend_debug_corrupt_latest : ℕ → FlashRun → Storage → Storage × Bool
unfolding latest_slot write_flash_sector corrupted
storage_backend_debug_corrupt_latest flash_base hal s =
    if not s.initialized then (s, false) else elim (latest_slot flash_base s) [
      | none ↦ (s, false)
      | some x ↦ write_flash_sector flash_base hal s x (corrupted (sector s x))
    ]

-- What the HAL does in one call of `storage_backend_wipe`.
pub record WipeRun : Type 0 where
  pub unlock_ok : Bool
  pub erase_a_ok : Bool
  pub left_at_a : Bytes
  pub erase_b_ok : Bool
  pub left_at_b : Bytes
  pub lock_ok : Bool

unfoldable pub storage_backend_wipe : WipeRun → Storage → Storage × Bool
storage_backend_wipe hal s =
    if not s.initialized
    then (s, false)
    else if not hal.unlock_ok
    then (s, false)
    else if not hal.erase_a_ok
    then (record s { at_a = hal.left_at_a }, false)
    else if not hal.erase_b_ok
    then (record s { at_a = []; at_b = hal.left_at_b }, false)
    else if not hal.lock_ok
    then (record s { at_a = []; at_b = [] }, false)
    else (record { initialized = false; at_a = []; at_b = [] }, true)
