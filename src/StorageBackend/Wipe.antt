-- ===== src/StorageBackend/Wipe.antt =====
-- `storage_backend_wipe` of firmware/src/storage_backend.c.
use safe_key_vault.Prelude.{
  ℕ, ◌≡◌, refl, ◌∙◌, inl, inr, Bool, true, false, none, [], Bool-cases, arith,
}
use safe_key_vault.StorageBackend.{
  Sector, Storage, sector, valid_at, is_slot_valid, storage_backend_init, in_flash, address,
  flash_sector_size, read_flash_sector,
}
use safe_key_vault.StorageBackend.Calls.{WipeRun, storage_backend_wipe, storage_backend_read_latest}
use safe_key_vault.StorageBackend.Lost.{read_latest-none, none_latest}
use safe_key_vault.StorageBackend.Roundtrip.{latest_slot_lem}

erased_store : Storage
erased_store = record { initialized = false; at_a = []; at_b = [] }

wipe-erased :
    (hal : WipeRun) (s : Storage)
    → (storage_backend_wipe hal s).1 ≡ true
    → (storage_backend_wipe hal s).0 ≡ erased_store
unfolding storage_backend_wipe erased_store
wipe-erased hal s h = ground arith

erased-invalid :
    (flash_base : ℕ) (s : Storage) (x : Sector) → sector s x ≡ [] → valid_at flash_base s x ≡ false
unfolding valid_at read_flash_sector is_slot_valid
erased-invalid flash_base s x e =
    elim (Bool-cases (in_flash flash_base (address x) flash_sector_size)) [
      | inl here ↦ rw (valid_at, read_flash_sector, here, e) refl
      | inr out ↦ rw (valid_at, read_flash_sector, out) refl
    ]

erased-read_latest :
    (flash_base cap : ℕ) (ready : Bool)
    → storage_backend_read_latest flash_base
        (record { initialized = ready; at_a = []; at_b = [] })
        cap
      ≡ none
erased-read_latest flash_base cap ready =
    let s : Storage = record { initialized = ready; at_a = []; at_b = [] } in
    read_latest-none flash_base s cap (
      latest_slot_lem flash_base s
      ∙ none_latest (valid_at flash_base s Sector.sector_a) (valid_at flash_base s Sector.sector_b)
          _ (erased-invalid flash_base s Sector.sector_a refl)
          (erased-invalid flash_base s Sector.sector_b refl))

-- A wipe that succeeds leaves both sectors erased and the store uninitialised, so that nothing
-- can be read or written until `storage_backend_init`, and after that no slot is found, whatever
-- the base of the flash.
pub wipe_erases :
    (flash_base : ℕ) (hal : WipeRun) (s : Storage) (cap : ℕ)
    → (storage_backend_wipe hal s).1 ≡ true
    → (storage_backend_read_latest flash_base (storage_backend_wipe hal s).0 cap ≡ none)
      × (storage_backend_read_latest flash_base
            (storage_backend_init (storage_backend_wipe hal s).0)
            cap
          ≡ none)
unfolding storage_backend_init erased_store
wipe_erases flash_base hal s cap h =
    rw (wipe-erased hal s h)
      (erased-read_latest flash_base cap false, erased-read_latest flash_base cap true)
