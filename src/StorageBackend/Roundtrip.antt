-- ===== src/StorageBackend/Roundtrip.antt =====
-- A write and the read after it in firmware/src/storage_backend.c.
use safe_key_vault.Prelude.{
  ℕ, ◌<◌, ◌≤◌, ◌^◌, ◌≡◌, refl, sym, ◌∙◌, Bool, true, false, Option, none, some, not, ◌&&◌, ◌||◌,
  length, ltb, ◌==◌, if◌then◌else◌, arith,
}
use safe_key_vault.StorageBackend.{
  Bytes, Sector, Storage, FlashRun, Junk, sector, put, valid_at, slot_newer, write_address,
  next_generation, new_slot, generation, schema_version, payload_len, payload_of, max_payload,
  is_slot_valid,
}
use safe_key_vault.StorageBackend.Calls.{
  storage_backend_write_atomic, storage_backend_read_latest, latest_slot,
}
use safe_key_vault.StorageBackend.Generations.{
  slot_newer-true, slot_newer-false, CanCount, next_generation-newer, next_generation-lt,
}
use safe_key_vault.StorageBackend.Header.{is_slot_valid_iff}
use safe_key_vault.StorageBackend.Written.{
  Mapped, AllOk, header_sum, new_slot-generation, new_slot-schema, new_slot-payload_len,
  new_slot-payload, new_slot-valid_iff, length-new_slot, write_flash_sector-AllOk, valid_at-Mapped,
}

abbrev pub pick_latest : Bool → Bool → Bool → Option Sector
pick_latest va vb newer =
    if va && vb
    then some (if newer then Sector.sector_a else Sector.sector_b)
    else if va
    then some Sector.sector_a
    else if vb
    then some Sector.sector_b
    else none

pub latest_slot_lem :
    (flash_base : ℕ) (s : Storage)
    → latest_slot flash_base s
      ≡ pick_latest
          (valid_at flash_base s Sector.sector_a)
          (valid_at flash_base s Sector.sector_b)
          (slot_newer s.at_a s.at_b)
unfolding latest_slot
latest_slot_lem flash_base s = refl

pick_a :
    (va vb newer : Bool)
    → va ≡ true
    → (vb ≡ true → newer ≡ true)
    → pick_latest va vb newer ≡ some Sector.sector_a
pick_a va true newer h n = ground (arith, n refl)
pick_a va false newer h n = ground arith

pick_b :
    (va vb newer : Bool)
    → vb ≡ true
    → (va ≡ true → newer ≡ false)
    → pick_latest va vb newer ≡ some Sector.sector_b
pick_b true vb newer h n = ground (arith, n refl)
pick_b false vb newer h n = ground arith

-- A valid slot with the next number is the latest one wherever it is put.
pub slot_is_latest :
    (flash_base : ℕ) (s : Storage) (x : Sector) (slot : Bytes)
    → Mapped flash_base
    → CanCount flash_base s
    → is_slot_valid slot ≡ true
    → generation slot ≡ next_generation flash_base s
    → latest_slot flash_base (put s x slot) ≡ some x
slot_is_latest flash_base s Sector.sector_a slot m c v e =
    let t = put s Sector.sector_a slot in
    latest_slot_lem flash_base t
    ∙ pick_a (valid_at flash_base t Sector.sector_a) (valid_at flash_base t Sector.sector_b) _
        (valid_at-Mapped flash_base t Sector.sector_a m ∙ v)
        (λ vb. slot_newer-true slot s.at_b ((is_slot_valid_iff slot).0 v).0 (
          rw e (
            next_generation-newer flash_base s Sector.sector_b c (
              valid_at-Mapped flash_base s Sector.sector_b m
              ∙ sym (valid_at-Mapped flash_base t Sector.sector_b m)
              ∙ vb))))
slot_is_latest flash_base s Sector.sector_b slot m c v e =
    let t = put s Sector.sector_b slot in
    latest_slot_lem flash_base t
    ∙ pick_b (valid_at flash_base t Sector.sector_a) (valid_at flash_base t Sector.sector_b) _
        (valid_at-Mapped flash_base t Sector.sector_b m ∙ v)
        (λ va. slot_newer-false s.at_a slot ((is_slot_valid_iff slot).0 v).0 (
          rw e (
            next_generation-newer flash_base s Sector.sector_a c (
              valid_at-Mapped flash_base s Sector.sector_a m
              ∙ sym (valid_at-Mapped flash_base t Sector.sector_a m)
              ∙ va))))

pub sector-put_self : (s : Storage) (x : Sector) (bytes : Bytes) → sector (put s x bytes) x ≡ bytes
sector-put_self s Sector.sector_a bytes = refl
sector-put_self s Sector.sector_b bytes = refl

pub initialized-put :
    (s : Storage) (x : Sector) (bytes : Bytes) → (put s x bytes).initialized ≡ s.initialized
initialized-put s Sector.sector_a bytes = refl
initialized-put s Sector.sector_b bytes = refl

pub write_atomic-AllOk :
    (flash_base : ℕ) (hal : FlashRun) (junk : Junk) (s : Storage) (payload : Bytes) (schema : ℕ)
    → Mapped flash_base
    → AllOk hal
    → s.initialized ≡ true
    → 0 < length payload
    → length payload ≤ max_payload
    → storage_backend_write_atomic flash_base hal junk s (some payload) schema ≡ (
      put s
          (write_address flash_base s)
          (new_slot junk (next_generation flash_base s) schema payload),
      true,
    )
unfolding storage_backend_write_atomic
write_atomic-AllOk flash_base hal junk s payload schema m ok i h0 h1 =
    let asked : (not s.initialized || length payload == 0 || ltb max_payload (length payload))
        ≡ false =
      ground arith in
    rw asked (
      write_flash_sector-AllOk flash_base hal s (write_address flash_base s)
        (new_slot junk (next_generation flash_base s) schema payload) m ok
        (length-new_slot junk (next_generation flash_base s) schema payload h1))

read_latest_lem :
    (flash_base : ℕ) (s : Storage) (cap : ℕ) (x : Sector) (slot : Bytes)
    → s.initialized ≡ true
    → latest_slot flash_base s ≡ some x
    → sector s x ≡ slot
    → payload_len slot ≤ cap
    → storage_backend_read_latest flash_base s cap
      ≡ some (payload_of slot (payload_len slot), schema_version slot)
unfolding storage_backend_read_latest
read_latest_lem flash_base s cap x slot i l e h =
    let fits : ltb cap (payload_len slot) ≡ false = ground arith in rw (i, l, e, fits) refl

-- With a flash that works, a payload of 1 to 256 bytes that is written to an initialised store
-- is what the next read returns, with its schema version, if the new header's bytes cancel with
-- the padding and the generations in use are below 2^32 - 1.
pub write_atomic-read_latest :
    (flash_base : ℕ) (hal : FlashRun) (junk : Junk) (s : Storage) (payload : Bytes) (schema cap : ℕ)
    → Mapped flash_base
    → AllOk hal
    → s.initialized ≡ true
    → CanCount flash_base s
    → 0 < length payload
    → length payload ≤ max_payload
    → length payload ≤ cap
    → schema < 2 ^ 32
    → header_sum (next_generation flash_base s) schema (length payload) junk ≡ 0
    → storage_backend_read_latest flash_base
        (storage_backend_write_atomic flash_base hal junk s (some payload) schema).0
        cap
      ≡ some (payload, schema)
write_atomic-read_latest flash_base hal junk s payload schema cap m ok i c h0 h1 hc hs sum =
    let gen = next_generation flash_base s in
    let slot = new_slot junk gen schema payload in
    let x = write_address flash_base s in
    let len : payload_len slot ≡ length payload = new_slot-payload_len junk gen schema payload h1 in
    let read =
      read_latest_lem flash_base (put s x slot) cap x slot (initialized-put s x slot ∙ i)
        (slot_is_latest flash_base s x slot m c
          ((new_slot-valid_iff junk gen schema payload h0 h1).1 sum)
          (new_slot-generation junk gen schema payload (next_generation-lt flash_base s)))
        (sector-put_self s x slot) (omega (arith, len)) in
    rw (write_atomic-AllOk flash_base hal junk s payload schema m ok i h0 h1) (
      read
      ∙ rw
          (
            len,
            new_slot-payload junk gen schema payload,
            new_slot-schema junk gen schema payload hs,
          )
          refl)
