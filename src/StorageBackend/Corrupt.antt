-- ===== src/StorageBackend/Corrupt.antt =====
-- `storage_backend_debug_corrupt_latest` of firmware/src/storage_backend.c.
use safe_key_vault.Prelude.{
  ℕ, zero, suc, ◌+◌, ◌<◌, ◌≡◌, ◌≢◌, refl, sym, ap, ap₂, ◌∙◌, Bool, true, false, some, [], ◌∷◌, set,
  length, length-set, bit_xor, arith,
}
use safe_key_vault.StorageBackend.{
  Bytes, Sector, Storage, FlashRun, put, sector, valid_at, read_bytes, byte_at, calculate_crc8,
  is_slot_valid, payload_len, generation,
}
use safe_key_vault.StorageBackend.Calls.{
  storage_backend_debug_corrupt_latest, storage_backend_debug_state, corrupted, latest_slot,
}
use safe_key_vault.StorageBackend.Header.{field_sum, is_slot_valid_iff}
use safe_key_vault.StorageBackend.Roundtrip.{initialized-put}
use safe_key_vault.StorageBackend.Written.{
  Mapped, AllOk, write_flash_sector-AllOk, valid_at-Mapped, length-read_bytes,
}

byte_at-read_bytes : (s : Bytes) (n i : ℕ) → i < n → byte_at (read_bytes s n) i ≡ byte_at s i
unfolding read_bytes
byte_at-read_bytes s zero i h = absurd (omega arith)
byte_at-read_bytes [] (suc n) zero h = refl
byte_at-read_bytes [] (suc n) (suc i) h = byte_at-read_bytes [] n i (omega arith)
byte_at-read_bytes (x ∷ s) (suc n) zero h = refl
byte_at-read_bytes (x ∷ s) (suc n) (suc i) h = byte_at-read_bytes s n i (omega arith)

byte_at-set_ne : (s : Bytes) (i j v : ℕ) → i ≢ j → byte_at (set s i v) j ≡ byte_at s j
byte_at-set_ne [] i j v h = refl
byte_at-set_ne (x ∷ s) zero zero v h = absurd (h refl)
byte_at-set_ne (x ∷ s) zero (suc j) v h = refl
byte_at-set_ne (x ∷ s) (suc i) zero v h = refl
byte_at-set_ne (x ∷ s) (suc i) (suc j) v h = byte_at-set_ne s i j v (λ e. h (ap suc e))

-- Only byte 12 changes.
byte_at-corrupted :
    (slot : Bytes) (i : ℕ) → i < 272 → i ≢ 12 → byte_at (corrupted slot) i ≡ byte_at slot i
unfolding corrupted
byte_at-corrupted slot i h ne =
    byte_at-set_ne (read_bytes slot 272) 12 i _ (λ e. ne (sym e)) ∙ byte_at-read_bytes slot 272 i h

read_bytes-eq :
    (s t : Bytes) (n : ℕ)
    → ((i : ℕ) → i < n → byte_at s i ≡ byte_at t i)
    → read_bytes s n ≡ read_bytes t n
unfolding read_bytes
read_bytes-eq s t zero h = refl
read_bytes-eq [] [] (suc n) h = refl
read_bytes-eq [] (y ∷ t) (suc n) h =
    ap₂ (λ a b. a ∷ b) (h 0 (omega arith)) (read_bytes-eq [] t n (λ i lt. h (suc i) (omega arith)))
read_bytes-eq (x ∷ s) [] (suc n) h =
    ap₂ (λ a b. a ∷ b) (h 0 (omega arith)) (read_bytes-eq s [] n (λ i lt. h (suc i) (omega arith)))
read_bytes-eq (x ∷ s) (y ∷ t) (suc n) h =
    ap₂ (λ a b. a ∷ b) (h 0 (omega arith)) (read_bytes-eq s t n (λ i lt. h (suc i) (omega arith)))

field_sum-corrupted : (slot : Bytes) → field_sum (corrupted slot) ≡ field_sum slot
field_sum-corrupted slot =
    ap₂ bit_xor
      (ap₂ (λ t p. bit_xor (calculate_crc8 t) p)
        (read_bytes-eq (corrupted slot) slot 12
          (λ i lt. byte_at-corrupted slot i (omega arith) (λ e. absurd (omega arith))))
        (byte_at-corrupted slot 13 (omega arith) (λ e. cc e)))
      (byte_at-corrupted slot 14 (omega arith) (λ e. cc e))

word-corrupted :
    (slot : Bytes) (i : ℕ)
    → i < 9
    → (byte_at (corrupted slot) i ≡ byte_at slot i)
      × (byte_at (corrupted slot) (1 + i) ≡ byte_at slot (1 + i))
      × (byte_at (corrupted slot) (2 + i) ≡ byte_at slot (2 + i))
      × (byte_at (corrupted slot) (3 + i) ≡ byte_at slot (3 + i))
word-corrupted slot i h = (
  byte_at-corrupted slot i (omega arith) (λ e. absurd (omega arith)),
  byte_at-corrupted slot (1 + i) (omega arith) (λ e. absurd (omega arith)),
  byte_at-corrupted slot (2 + i) (omega arith) (λ e. absurd (omega arith)),
  byte_at-corrupted slot (3 + i) (omega arith) (λ e. absurd (omega arith)),
)

generation-corrupted : (slot : Bytes) → generation (corrupted slot) ≡ generation slot
generation-corrupted slot =
    let (a, b, c, d) = word-corrupted slot 0 (omega arith) in omega (arith, a, b, c, d)

payload_len-corrupted : (slot : Bytes) → payload_len (corrupted slot) ≡ payload_len slot
payload_len-corrupted slot =
    let (a, b, c, d) = word-corrupted slot 8 (omega arith) in omega (arith, a, b, c, d)

same_test : (a b : Bool) → (a ≡ true → b ≡ true) → (b ≡ true → a ≡ true) → a ≡ b
same_test true b f g = sym (f refl)
same_test false true f g = g refl
same_test false false f g = refl

is_slot_valid-corrupted : (slot : Bytes) → is_slot_valid (corrupted slot) ≡ is_slot_valid slot
is_slot_valid-corrupted slot =
    let len = payload_len-corrupted slot in
    let sum = field_sum-corrupted slot in
    same_test (is_slot_valid (corrupted slot)) (is_slot_valid slot)
      (λ v.
        let (a, b, c) = (is_slot_valid_iff (corrupted slot)).0 v in
        (is_slot_valid_iff slot).1 (omega (arith, len), omega (arith, len), sym sum ∙ c))
      (λ v.
        let (a, b, c) = (is_slot_valid_iff slot).0 v in
        (is_slot_valid_iff (corrupted slot)).1 (omega (arith, len), omega (arith, len), sum ∙ c))

length-corrupted : (slot : Bytes) → length (corrupted slot) ≡ 272
unfolding corrupted
length-corrupted slot = length-set (read_bytes slot 272) 12 _ ∙ length-read_bytes slot 272

corrupt_latest-AllOk :
    (flash_base : ℕ) (hal : FlashRun) (s : Storage) (x : Sector)
    → Mapped flash_base
    → AllOk hal
    → s.initialized ≡ true
    → latest_slot flash_base s ≡ some x
    → storage_backend_debug_corrupt_latest flash_base hal s
      ≡ (put s x (corrupted (sector s x)), true)
unfolding storage_backend_debug_corrupt_latest
corrupt_latest-AllOk flash_base hal s x m ok i l =
    simp (i, l)
      (write_flash_sector-AllOk flash_base hal s x (corrupted (sector s x)) m ok
        (length-corrupted (sector s x)))

debug_state-eq :
    (flash_base : ℕ) (t s : Storage)
    → t.initialized ≡ s.initialized
    → ((y : Sector)
        → (valid_at flash_base t y ≡ valid_at flash_base s y)
          × (generation (sector t y) ≡ generation (sector s y)))
    → storage_backend_debug_state flash_base t ≡ storage_backend_debug_state flash_base s
unfolding storage_backend_debug_state
debug_state-eq flash_base t s i e =
    let (va, ga) = e Sector.sector_a in
    let (vb, gb) = e Sector.sector_b in rw (i, va, vb, ga, gb) refl

put-corrupted :
    (flash_base : ℕ) (s : Storage) (x y : Sector)
    → Mapped flash_base
    → (valid_at flash_base (put s x (corrupted (sector s x))) y ≡ valid_at flash_base s y)
      × (generation (sector (put s x (corrupted (sector s x))) y) ≡ generation (sector s y))
put-corrupted flash_base s Sector.sector_a Sector.sector_a m = (
  valid_at-Mapped flash_base _ Sector.sector_a m
      ∙ is_slot_valid-corrupted s.at_a
      ∙ sym (valid_at-Mapped flash_base s Sector.sector_a m),
  generation-corrupted s.at_a,
)
put-corrupted flash_base s Sector.sector_a Sector.sector_b m = (
  valid_at-Mapped flash_base _ Sector.sector_b m
      ∙ sym (valid_at-Mapped flash_base s Sector.sector_b m),
  refl,
)
put-corrupted flash_base s Sector.sector_b Sector.sector_a m = (
  valid_at-Mapped flash_base _ Sector.sector_a m
      ∙ sym (valid_at-Mapped flash_base s Sector.sector_a m),
  refl,
)
put-corrupted flash_base s Sector.sector_b Sector.sector_b m = (
  valid_at-Mapped flash_base _ Sector.sector_b m
      ∙ is_slot_valid-corrupted s.at_b
      ∙ sym (valid_at-Mapped flash_base s Sector.sector_b m),
  generation-corrupted s.at_b,
)

-- With a flash that works, corrupting the latest slot succeeds and leaves the answer of
-- `storage_backend_debug_state` as it was: both slots are as valid as before, with the same
-- generations.
pub corrupt_latest_changes_nothing :
    (flash_base : ℕ) (hal : FlashRun) (s : Storage) (x : Sector)
    → Mapped flash_base
    → AllOk hal
    → s.initialized ≡ true
    → latest_slot flash_base s ≡ some x
    → ((storage_backend_debug_corrupt_latest flash_base hal s).1 ≡ true)
      × (storage_backend_debug_state flash_base
            (storage_backend_debug_corrupt_latest flash_base hal s).0
          ≡ storage_backend_debug_state flash_base s)
corrupt_latest_changes_nothing flash_base hal s x m ok i l =
    let done = corrupt_latest-AllOk flash_base hal s x m ok i l in
    (
      ap (λ r. r.1) done,
      ap (λ r. storage_backend_debug_state flash_base r.0) done
          ∙ debug_state-eq flash_base (put s x (corrupted (sector s x))) s
              (initialized-put s x (corrupted (sector s x)))
              (λ y. put-corrupted flash_base s x y m),
    )
