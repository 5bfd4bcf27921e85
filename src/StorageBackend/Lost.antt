-- ===== src/StorageBackend/Lost.antt =====
-- Writes with schema version 1, the only one that the callers of
-- `storage_backend_write_atomic` in firmware/src use, on an empty store.
use safe_key_vault.Prelude.{
  ℕ, ◌<◌, ◌≤◌, ◌≡◌, ◌≢◌, refl, sym, ap, ◌∙◌, inl, inr, Bool, true, false, not, ◌||◌, none, some,
  List, [], ◌∷◌, All, bit_xor, length, ◌==◌, ltb, Bool-cases, arith, all_below, all_below_sound,
  ◌++◌, ==_iff,
}
use safe_key_vault.Prelude.Xor.{bit_xor_twice}
use safe_key_vault.StorageBackend.{
  Bytes, Sector, Storage, FlashRun, Junk, put, valid_at, write_address, next_generation, new_slot,
  calculate_crc8, le32, max_payload, is_slot_valid, slot_newer,
}
use safe_key_vault.StorageBackend.Calls.{
  storage_backend_write_atomic, storage_backend_read_latest, latest_slot,
}
use safe_key_vault.StorageBackend.Written.{
  Mapped, AllOk, header_sum, new_slot-valid_iff, valid_at-Mapped,
}
use safe_key_vault.StorageBackend.Roundtrip.{pick_latest, latest_slot_lem, write_atomic-AllOk}

abbrev first_sum : ℕ → ℕ
first_sum n = calculate_crc8 (le32 1 ++ le32 1 ++ le32 n)

first_sum_ne : (n : ℕ) → 0 < n → n ≤ max_payload → first_sum n ≢ 0
unfolding all_below
first_sum_ne n h0 h1 e =
    let checked =
      all_below_sound 257 (λ k. k == 0 || not (first_sum k == 0)) n refl (omega arith) in
    ground (arith, ==_iff (first_sum n) 0)

header_sum_ne :
    (n : ℕ) (junk : Junk)
    → junk.pad0 ≡ junk.pad1
    → 0 < n
    → n ≤ max_payload
    → header_sum 1 1 n junk ≢ 0
header_sum_ne n junk e h0 h1 sum = first_sum_ne n h0 h1 (
    sym (bit_xor_twice (first_sum n) junk.pad1)
    ∙ ap (λ p. bit_xor (bit_xor (first_sum n) p) junk.pad1) (sym e)
    ∙ sum)

none_valid : (va vb newer : Bool) → pick_latest va vb newer ≡ none → (va ≡ false) × (vb ≡ false)
none_valid true true newer h = cc h
none_valid true false newer h = cc h
none_valid false true newer h = cc h
none_valid false false newer h = (refl, refl)

pub none_latest : (va vb newer : Bool) → va ≡ false → vb ≡ false → pick_latest va vb newer ≡ none
none_latest va vb newer ha hb = ground arith

slot_refused :
    (junk : Junk) (payload : Bytes)
    → junk.pad0 ≡ junk.pad1
    → 0 < length payload
    → length payload ≤ max_payload
    → is_slot_valid (new_slot junk 1 1 payload) ≡ false
slot_refused junk payload e h0 h1 = elim (Bool-cases (is_slot_valid (new_slot junk 1 1 payload))) [
  | inl v ↦ absurd (
      header_sum_ne (length payload) junk e h0 h1 ((new_slot-valid_iff junk 1 1 payload h0 h1).0 v))
  | inr f ↦ f
]

first_write :
    (flash_base : ℕ) (s : Storage)
    → latest_slot flash_base s ≡ none
    → (valid_at flash_base s Sector.sector_b ≡ false)
      × (write_address flash_base s ≡ Sector.sector_a)
      × (next_generation flash_base s ≡ 1)
unfolding write_address next_generation
first_write flash_base s h =
    let (a, b) =
      none_valid (valid_at flash_base s Sector.sector_a) (valid_at flash_base s Sector.sector_b)
        (slot_newer s.at_a s.at_b) (sym (latest_slot_lem flash_base s) ∙ h) in
    (b, rw (a) refl, rw (a, b) refl)

abbrev refuses : Storage → Bytes → Bool
refuses s payload = not s.initialized || length payload == 0 || ltb max_payload (length payload)

write_atomic-refuses :
    (flash_base : ℕ) (hal : FlashRun) (junk : Junk) (s : Storage) (payload : Bytes) (schema : ℕ)
    → refuses s payload ≡ true
    → storage_backend_write_atomic flash_base hal junk s (some payload) schema ≡ (s, false)
unfolding storage_backend_write_atomic
write_atomic-refuses flash_base hal junk s payload schema h = rw h refl

not_refused :
    (ready : Bool) (n : ℕ)
    → (not ready || n == 0 || ltb max_payload n) ≡ false
    → (ready ≡ true) × (0 < n) × (n ≤ max_payload)
not_refused ready n h = ground arith

put_first :
    (flash_base : ℕ) (s : Storage) (junk : Junk) (payload : Bytes)
    → Mapped flash_base
    → junk.pad0 ≡ junk.pad1
    → valid_at flash_base s Sector.sector_b ≡ false
    → 0 < length payload
    → length payload ≤ max_payload
    → latest_slot flash_base (put s Sector.sector_a (new_slot junk 1 1 payload)) ≡ none
put_first flash_base s junk payload m e b h0 h1 =
    let slot = new_slot junk 1 1 payload in
    let t = put s Sector.sector_a slot in
    latest_slot_lem flash_base t
    ∙ none_latest (valid_at flash_base t Sector.sector_a) (valid_at flash_base t Sector.sector_b) _
        (valid_at-Mapped flash_base t Sector.sector_a m ∙ slot_refused junk payload e h0 h1)
        (valid_at-Mapped flash_base t Sector.sector_b m
          ∙ sym (valid_at-Mapped flash_base s Sector.sector_b m)
          ∙ b)

-- One write into an empty store.
lost_write :
    (flash_base : ℕ) (hal : FlashRun) (junk : Junk) (s : Storage) (payload : Bytes)
    → Mapped flash_base
    → AllOk hal
    → junk.pad0 ≡ junk.pad1
    → latest_slot flash_base s ≡ none
    → latest_slot flash_base (storage_backend_write_atomic flash_base hal junk s (some payload) 1).0
      ≡ none
lost_write flash_base hal junk s payload m ok e h = elim (Bool-cases (refuses s payload)) [
  | inl refused ↦ rw (write_atomic-refuses flash_base hal junk s payload 1 refused) h
  | inr asked ↦
      let (i, h0, h1) = not_refused s.initialized (length payload) asked in
      let (b, w, g) = first_write flash_base s h in
      rw (write_atomic-AllOk flash_base hal junk s payload 1 m ok i h0 h1, w, g)
        (put_first flash_base s junk payload m e b h0 h1)
]

-- A sequence of writes, each with what the stack holds and the payload.
unfoldable pub run_writes : ℕ → FlashRun → Storage → List (Junk × Bytes) → Storage
unfolding storage_backend_write_atomic
run_writes flash_base hal s [] = s
run_writes flash_base hal s ((junk, payload) ∷ writes) =
    run_writes flash_base hal
      (storage_backend_write_atomic flash_base hal junk s (some payload) 1).0 writes

writes-latest_slot :
    (flash_base : ℕ) (hal : FlashRun) (writes : List (Junk × Bytes)) (s : Storage)
    → Mapped flash_base
    → AllOk hal
    → latest_slot flash_base s ≡ none
    → All (λ w. w.0.pad0 ≡ w.0.pad1) writes
    → latest_slot flash_base (run_writes flash_base hal s writes) ≡ none
unfolding run_writes
writes-latest_slot flash_base hal [] s m ok h pads = h
writes-latest_slot flash_base hal ((junk, payload) ∷ writes) s m ok h (e, pads) =
    writes-latest_slot flash_base hal writes
      (storage_backend_write_atomic flash_base hal junk s (some payload) 1).0 m ok
      (lost_write flash_base hal junk s payload m ok e h) pads

pub read_latest-none :
    (flash_base : ℕ) (s : Storage) (cap : ℕ)
    → latest_slot flash_base s ≡ none
    → storage_backend_read_latest flash_base s cap ≡ none
unfolding storage_backend_read_latest
read_latest-none flash_base s cap h = elim (Bool-cases s.initialized) [
  | inl i ↦ rw (i, h) refl
  | inr i ↦ rw i refl
]

-- On a store with no valid slot, with a flash that never fails and two equal bytes of padding on
-- the stack, nothing that is written with schema version 1 is ever read back: after every
-- sequence of writes `storage_backend_read_latest` finds no slot.
pub writes_are_lost :
    (flash_base : ℕ) (hal : FlashRun) (s : Storage) (writes : List (Junk × Bytes)) (cap : ℕ)
    → Mapped flash_base
    → AllOk hal
    → latest_slot flash_base s ≡ none
    → All (λ w. w.0.pad0 ≡ w.0.pad1) writes
    → storage_backend_read_latest flash_base (run_writes flash_base hal s writes) cap ≡ none
writes_are_lost flash_base hal s writes cap m ok h pads =
    read_latest-none flash_base (run_writes flash_base hal s writes) cap
      (writes-latest_slot flash_base hal writes s m ok h pads)
