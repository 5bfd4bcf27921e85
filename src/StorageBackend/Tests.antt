-- ===== src/StorageBackend/Tests.antt =====
-- Runs of firmware/src/storage_backend.c.
use safe_key_vault.Prelude.{ℕ, ◌≡◌, refl, true, none, some, List, [], ◌∷◌, arith}
use safe_key_vault.StorageBackend.{
  Bytes, Sector, Storage, FlashRun, Junk, sector, put, new_slot, valid_at, next_generation,
}
use safe_key_vault.StorageBackend.Calls.{
  storage_backend_write_atomic, storage_backend_read_latest, latest_slot, storage_backend_wipe,
  WipeRun,
}
use safe_key_vault.StorageBackend.Written.{header_sum}
use safe_key_vault.StorageBackend.Latest.{write_atomic_keeps_latest}
use safe_key_vault.StorageBackend.Generations.{CanCount}
use safe_key_vault.StorageBackend.Roundtrip.{write_atomic-read_latest}
use safe_key_vault.StorageBackend.Lost.{run_writes, writes_are_lost}

abbrev base : ℕ
base = 134217728

abbrev good : FlashRun
good = record {
  unlock_ok = true;
  erase_ok = true;
  failed_erase = [];
  words_ok = 68;
  failed_program = [];
  lock_ok = true;
}

abbrev zeros : Junk
zeros = record { old_crc8 = 0; pad0 = 0; pad1 = 0; pad2 = 0; tail = [] }

abbrev empty : Storage
empty = record { initialized = true; at_a = []; at_b = [] }

-- The slot of the first write of three bytes with schema version 2.
abbrev slot : Bytes
slot = new_slot zeros 1 2 (7 ∷ 8 ∷ 9 ∷ [])

-- The store after that write.
abbrev stored : Storage
stored = put empty Sector.sector_a slot

first_read : storage_backend_read_latest base stored 3 ≡ some (7 ∷ 8 ∷ 9 ∷ [], 2)
unfolding storage_backend_read_latest new_slot
first_read = refl

stored-latest_slot : latest_slot base stored ≡ some Sector.sector_a
unfolding latest_slot new_slot
stored-latest_slot = refl

stored-CanCount : CanCount base stored
unfolding valid_at new_slot
stored-CanCount Sector.sector_a v = omega arith
stored-CanCount Sector.sector_b v = cc v

-- A write that fails after two words.
write_atomic_keeps_latest_example :
    sector
      (storage_backend_write_atomic base
        (record good { words_ok = 2 })
        zeros
        stored
        (some (5 ∷ []))
        1).0
      Sector.sector_a
    ≡ slot
write_atomic_keeps_latest_example =
    write_atomic_keeps_latest base (record good { words_ok = 2 }) zeros stored (some (5 ∷ [])) 1
      Sector.sector_a stored-latest_slot

next_sum : header_sum (next_generation base stored) 1 3 zeros ≡ 0
unfolding next_generation new_slot
next_sum = refl

write_atomic-read_latest_example :
    storage_backend_read_latest base
      (storage_backend_write_atomic base good zeros stored (some (4 ∷ 5 ∷ 6 ∷ [])) 1).0
      16
    ≡ some (4 ∷ 5 ∷ 6 ∷ [], 1)
write_atomic-read_latest_example =
    write_atomic-read_latest base good zeros stored (4 ∷ 5 ∷ 6 ∷ []) 1 16 (omega arith, omega arith)
      (refl, refl, omega arith, refl) refl stored-CanCount (omega arith) (omega arith) (omega arith)
      (omega arith) next_sum

empty-latest_slot : latest_slot base empty ≡ none
unfolding latest_slot
empty-latest_slot = refl

abbrev two_writes : List (Junk × Bytes)
two_writes = (zeros, 1 ∷ []) ∷ (zeros, 1 ∷ 2 ∷ []) ∷ []

writes_are_lost_example :
    storage_backend_read_latest base (run_writes base good empty two_writes) 256 ≡ none
writes_are_lost_example =
    writes_are_lost base good empty two_writes 256 (omega arith, omega arith)
      (refl, refl, omega arith, refl) empty-latest_slot (refl, (refl, tt))

abbrev all_erased : WipeRun
all_erased = record {
  unlock_ok = true;
  erase_a_ok = true;
  left_at_a = [];
  erase_b_ok = true;
  left_at_b = [];
  lock_ok = true;
}

wipes : (storage_backend_wipe all_erased stored).1 ≡ true
unfolding storage_backend_wipe
wipes = refl
