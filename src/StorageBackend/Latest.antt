-- ===== src/StorageBackend/Latest.antt =====
-- Two-slot updates in firmware/src/storage_backend.c: what a write leaves alone and what is read
-- back after it.
use safe_key_vault.Prelude.{
  ℕ, ◌≡◌, refl, sym, inl, inr, Bool, Option, none, some, not, ◌&&◌, ◌||◌, length, ltb, ◌==◌,
  if◌then◌else◌, Bool-cases, arith,
}
use safe_key_vault.StorageBackend.{
  Bytes, Sector, Storage, FlashRun, Junk, sector, put, in_flash, address, program_words,
  write_flash_sector, valid_at, slot_newer, write_address, next_generation, new_slot, max_payload,
}
use safe_key_vault.StorageBackend.Calls.{storage_backend_write_atomic, latest_slot}

put_self : (s : Storage) (x : Sector) → put s x (sector s x) ≡ s
put_self s Sector.sector_a = refl
put_self s Sector.sector_b = refl

-- Whatever the HAL does, a write of one sector leaves some bytes there and nothing else changed.
pub write_flash_sector-put :
    (flash_base : ℕ) (hal : FlashRun) (s : Storage) (x : Sector) (bytes : Bytes)
    → (left : Bytes) × ((write_flash_sector flash_base hal s x bytes).0 ≡ put s x left)
unfolding write_flash_sector
write_flash_sector-put flash_base hal s x bytes =
    elim (Bool-cases (in_flash flash_base (address x) (length bytes))) [
      | inr out ↦ (sector s x, rw out (sym (put_self s x)))
      | inl here ↦ elim (Bool-cases hal.unlock_ok) [
        | inr shut ↦ (sector s x, rw (here, shut) (sym (put_self s x)))
        | inl unlocked ↦ elim (Bool-cases hal.erase_ok) [
          | inr stuck ↦ (hal.failed_erase, rw (here, unlocked, stuck) refl)
          | inl erased ↦ (
            (program_words hal.words_ok hal.failed_program bytes).0,
            rw (here, unlocked, erased) refl,
          )
        ]
      ]
    ]

other : Sector → Sector
other Sector.sector_a = Sector.sector_b
other Sector.sector_b = Sector.sector_a

apart :
    (a b newer : Bool) (x : Sector)
    → (if a && b
        then some (if newer then Sector.sector_a else Sector.sector_b)
        else if a
        then some Sector.sector_a
        else if b
        then some Sector.sector_b
        else none)
      ≡ some x
    → (if not a
        then Sector.sector_a
        else if not b
        then Sector.sector_b
        else if newer
        then Sector.sector_b
        else Sector.sector_a)
      ≡ other x
unfolding other
apart a b newer Sector.sector_a h = ground arith
apart a b newer Sector.sector_b h = ground arith

write_address-other :
    (flash_base : ℕ) (s : Storage) (x : Sector)
    → latest_slot flash_base s ≡ some x
    → write_address flash_base s ≡ other x
unfolding latest_slot write_address
write_address-other flash_base s x h =
    apart (valid_at flash_base s Sector.sector_a) (valid_at flash_base s Sector.sector_b)
      (slot_newer s.at_a s.at_b) x h

sector-put-other :
    (s : Storage) (x : Sector) (left : Bytes) → sector (put s (other x) left) x ≡ sector s x
unfolding other
sector-put-other s Sector.sector_a left = refl
sector-put-other s Sector.sector_b left = refl

sector-put_at_other :
    (s : Storage) (x y : Sector) (left : Bytes) → y ≡ other x → sector (put s y left) x ≡ sector s x
sector-put_at_other s x y left e = rw e (sector-put-other s x left)

-- Whatever the HAL does and wherever it fails, a write leaves the bytes of the slot that was the
-- latest one before it as they were.
pub write_atomic_keeps_latest :
    (flash_base : ℕ) (hal : FlashRun) (junk : Junk) (s : Storage) (payload : Option Bytes)
    (schema : ℕ) (x : Sector)
    → latest_slot flash_base s ≡ some x
    → sector (storage_backend_write_atomic flash_base hal junk s payload schema).0 x ≡ sector s x
unfolding storage_backend_write_atomic
write_atomic_keeps_latest flash_base hal junk s none schema x h = refl
write_atomic_keeps_latest flash_base hal junk s (some payload) schema x h =
    let slot = new_slot junk (next_generation flash_base s) schema payload in
    let (left, e) = write_flash_sector-put flash_base hal s (write_address flash_base s) slot in
    elim (Bool-cases
      (not s.initialized || length payload == 0 || ltb max_payload (length payload))) [
        | inl refused ↦ rw refused refl
        | inr written ↦
            rw (written, e) (sector-put_at_other s x _ left (write_address-other flash_base s x h))
      ]
