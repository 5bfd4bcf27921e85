-- ===== src/SecureElement/Slots.antt =====
-- firmware/src/atecc608a_driver.c: what a slot holds after a write.
use safe_key_vault.Prelude.{
  ℕ, zero, suc, ◌<◌, ◌≤◌, ◌≡◌, ◌≢◌, ◌⊎◌, inl, inr, refl, arith, true, false, none, some, List, [],
  ◌∷◌, length, get_or, set, drop, leb,
}
use safe_key_vault.Prelude.Slices.{take-append}
use safe_key_vault.SecureElement.{
  Atecc, Slot, empty_slot, slot_at, written, read_from, atecc608a_write_slot, atecc608a_read_slot,
}

module _ {ℓ} {A : Type ℓ} where
  pub get_or-set_self :
      (xs : List A) (i : ℕ) (v d : A) → i < length xs → get_or (set xs i v) i d ≡ v
  get_or-set_self [] i v d h = absurd (omega arith)
  get_or-set_self (x ∷ xs) zero v d h = refl
  get_or-set_self (x ∷ xs) (suc i) v d h = get_or-set_self xs i v d (omega arith)

  pub get_or-set_ne :
      (xs : List A) (i j : ℕ) (v d : A) → i ≢ j → get_or (set xs i v) j d ≡ get_or xs j d
  get_or-set_ne [] i j v d h = refl
  get_or-set_ne (x ∷ xs) zero zero v d h = absurd (h refl)
  get_or-set_ne (x ∷ xs) zero (suc j) v d h = refl
  get_or-set_ne (x ∷ xs) (suc i) zero v d h = refl
  get_or-set_ne (x ∷ xs) (suc i) (suc j) v d h =
      get_or-set_ne xs i j v d (λ e. h (omega (arith, e)))

read-written :
    (slot : Slot) (bytes : List ℕ)
    → length bytes ≤ 32
    → (read_from (written slot bytes) (length bytes) ≡ some bytes)
      × ((len : ℕ) → len ≢ length bytes → read_from (written slot bytes) len ≡ none)
unfolding read_from written
read-written slot bytes h =
    (ground (arith, take-append bytes (drop (length bytes) slot.contents)), λ len ne. ground arith)

pub write_inv :
    (a : Atecc) (slot_idx : ℕ) (bytes : List ℕ)
    → atecc608a_write_slot a slot_idx bytes
          ≡ (record a { slots = set a.slots slot_idx (written (slot_at a slot_idx) bytes) }, true)
        × (slot_idx < 16)
        × (length bytes ≤ 32)
        × (a.initialized ≡ true)
      ⊎ (atecc608a_write_slot a slot_idx bytes ≡ (a, false))
unfolding atecc608a_write_slot
write_inv a slot_idx bytes = ground arith

-- A successful write of a slot: the slot then reads back the bytes that were written, with any
-- other length it does not read at all, and the reads of the other slots are as before. A refused
-- write changes nothing.
pub write_slot-read_slot :
    (a : Atecc) (slot_idx : ℕ) (bytes : List ℕ)
    → length a.slots ≡ 16
    → let (a', done) = atecc608a_write_slot a slot_idx bytes in
      ((done ≡ true)
        × (atecc608a_read_slot a' slot_idx (length bytes) ≡ some bytes)
        × ((len : ℕ) → len ≢ length bytes → atecc608a_read_slot a' slot_idx len ≡ none)
        × ((other len : ℕ)
            → slot_idx ≢ other
            → atecc608a_read_slot a' other len ≡ atecc608a_read_slot a other len))
      ⊎ ((done ≡ false) × (a' ≡ a))
unfolding atecc608a_read_slot
write_slot-read_slot a slot_idx bytes size = elim (write_inv a slot_idx bytes) [
  | inl (e, inside, small, ready) ↦
      let slot = written (slot_at a slot_idx) bytes in
      let here = get_or-set_self a.slots slot_idx slot empty_slot (omega arith) in
      let past : leb 16 slot_idx ≡ false = ground arith in
      let (same, none_else) = read-written (slot_at a slot_idx) bytes small in
      inl (
        rw e refl,
        rw (e, ready, past, here) same,
        λ len ne. rw (e, ready, past, here) (none_else len ne),
        λ other len ne. rw (e, get_or-set_ne a.slots slot_idx other slot empty_slot ne) refl,
      )
  | inr e ↦ inr (rw e refl, rw e refl)
]
