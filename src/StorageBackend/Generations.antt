-- ===== src/StorageBackend/Generations.antt =====
-- The generations of the two slots in firmware/src/storage_backend.c: which slot is newer, and the
-- number that the next one gets.
use safe_key_vault.Prelude.{
  ℕ, ◌+◌, ◌-◌, ◌<◌, ◌%◌, ◌^◌, ◌≡◌, refl, Bool, true, false, ◌&&◌, ltb, ◌==◌, if◌then◌else◌, arith,
}
use safe_key_vault.StorageBackend.{
  Bytes, Sector, Storage, sector, valid_at, slot_newer, next_generation, generation, payload_len,
}

abbrev newer_test : ℕ → ℕ → ℕ → ℕ → Bool
newer_test la lb ga gb =
    if la == 0
    then false
    else if lb == 0
    then true
    else ltb (if lb == 0 then 0 else gb) (if la == 0 then 0 else ga)

newer_test-true : (la lb ga gb : ℕ) → 0 < la → gb < ga → newer_test la lb ga gb ≡ true
newer_test-true la lb ga gb h lt = ground arith

newer_test-false : (la lb ga gb : ℕ) → 0 < lb → ga < gb → newer_test la lb ga gb ≡ false
newer_test-false la lb ga gb h lt = ground arith

pub slot_newer-true :
    (a b : Bytes) → 0 < payload_len a → generation b < generation a → slot_newer a b ≡ true
unfolding slot_newer
slot_newer-true a b h lt =
    newer_test-true (payload_len a) (payload_len b) (generation a) (generation b) h lt

pub slot_newer-false :
    (a b : Bytes) → 0 < payload_len b → generation a < generation b → slot_newer a b ≡ false
unfolding slot_newer
slot_newer-false a b h lt =
    newer_test-false (payload_len a) (payload_len b) (generation a) (generation b) h lt

-- The generation of every slot in use can still be counted up.
abbrev pub CanCount : ℕ → Storage → Type 0
CanCount flash_base s =
    (x : Sector) → valid_at flash_base s x ≡ true → generation (sector s x) < 2 ^ 32 - 1

abbrev next_number : Bool → Bool → ℕ → ℕ → ℕ
next_number va vb a b =
    if va && vb
    then ((if ltb b a then a else b) + 1) % 2 ^ 32
    else if va
    then (a + 1) % 2 ^ 32
    else if vb
    then (b + 1) % 2 ^ 32
    else 1

next_number-above :
    (va vb : Bool) (a b : ℕ)
    → (va ≡ true → a < 2 ^ 32 - 1)
    → (vb ≡ true → b < 2 ^ 32 - 1)
    → (va ≡ true → a < next_number va vb a b) × (vb ≡ true → b < next_number va vb a b)
next_number-above true true a b ha hb = ground (arith, ha refl, hb refl)
next_number-above true false a b ha hb = ground (arith, ha refl)
next_number-above false true a b ha hb = ground (arith, hb refl)
next_number-above false false a b ha hb = ground arith

next_number-lt : (va vb : Bool) (a b : ℕ) → next_number va vb a b < 2 ^ 32
next_number-lt va vb a b = ground arith

-- The number that a write gives its slot is above those of the slots in use, as long as these
-- are below 2^32 - 1.
pub next_generation-newer :
    (flash_base : ℕ) (s : Storage) (x : Sector)
    → CanCount flash_base s
    → valid_at flash_base s x ≡ true
    → generation (sector s x) < next_generation flash_base s
unfolding next_generation
next_generation-newer flash_base s Sector.sector_a h v =
    (next_number-above (valid_at flash_base s Sector.sector_a)
        (valid_at flash_base s Sector.sector_b) (generation s.at_a) (generation s.at_b)
        (h Sector.sector_a) (h Sector.sector_b)).0
      v
next_generation-newer flash_base s Sector.sector_b h v =
    (next_number-above (valid_at flash_base s Sector.sector_a)
        (valid_at flash_base s Sector.sector_b) (generation s.at_a) (generation s.at_b)
        (h Sector.sector_a) (h Sector.sector_b)).1
      v

pub next_generation-lt : (flash_base : ℕ) (s : Storage) → next_generation flash_base s < 2 ^ 32
unfolding next_generation
next_generation-lt flash_base s =
    next_number-lt (valid_at flash_base s Sector.sector_a) (valid_at flash_base s Sector.sector_b)
      (generation s.at_a) (generation s.at_b)
