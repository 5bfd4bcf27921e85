-- ===== src/StorageBackend/Header.antt =====
-- Which slots `is_slot_valid` of firmware/src/storage_backend.c accepts.
use safe_key_vault.Prelude.{
  ℕ, zero, suc, ◌<◌, ◌≤◌, ◌≡◌, refl, sym, ap, ◌∙◌, ◌↔◌, true, false, [], ◌∷◌, ◌++◌, bit_xor, arith,
  ltb, ◌==◌, ◌||◌, if◌then◌else◌,
}
use safe_key_vault.Prelude.Bits.{bit_xor_self}
use safe_key_vault.Prelude.Xor.{bit_xor_comm, bit_xor_assoc, bit_xor_twice, zero-bit_xor}
use safe_key_vault.StorageBackend.{
  Bytes, read_bytes, byte_at, crc_from, calculate_crc8, payload_len, crc8, is_slot_valid,
  max_payload,
}

-- The exclusive or of what the check sum covers apart from `crc8` itself: the twelve bytes of
-- the three numbers and two bytes of padding.
abbrev pub field_sum : Bytes → ℕ
field_sum s = bit_xor (bit_xor (calculate_crc8 (read_bytes s 12)) (byte_at s 13)) (byte_at s 14)

crc_from-append : (c : ℕ) (xs ys : Bytes) → crc_from c (xs ++ ys) ≡ crc_from (crc_from c xs) ys
crc_from-append c [] ys = refl
crc_from-append c (x ∷ xs) ys = crc_from-append (bit_xor c x) xs ys

three_more :
    (s : Bytes) (n : ℕ)
    → read_bytes s (suc (suc (suc n)))
      ≡ read_bytes s n ++ (byte_at s n ∷ byte_at s (suc n) ∷ byte_at s (suc (suc n)) ∷ [])
unfolding read_bytes
three_more [] zero = refl
three_more (x ∷ []) zero = refl
three_more (x ∷ y ∷ []) zero = refl
three_more (x ∷ y ∷ z ∷ s) zero = refl
three_more [] (suc n) = ap (λ t. 255 ∷ t) (three_more [] n)
three_more (x ∷ s) (suc n) = ap (λ t. x ∷ t) (three_more s n)

swap_last : (a b c : ℕ) → bit_xor (bit_xor a b) c ≡ bit_xor (bit_xor a c) b
swap_last a b c =
    bit_xor_assoc a b c ∙ ap (bit_xor a) (bit_xor_comm b c) ∙ sym (bit_xor_assoc a c b)

-- Taking `crc8` into its own check sum cancels it.
header_crc : (s : Bytes) → calculate_crc8 (read_bytes s 15) ≡ bit_xor (field_sum s) (crc8 s)
header_crc s =
    ap (crc_from 0) (three_more s 12)
    ∙ crc_from-append 0 (read_bytes s 12) _
    ∙ ap (λ t. bit_xor t (byte_at s 14)) (swap_last (calculate_crc8 (read_bytes s 12)) _ _)
    ∙ swap_last _ _ _

absorbs : (y c : ℕ) → bit_xor y c ≡ c → y ≡ 0
absorbs y c h = sym (bit_xor_twice y c) ∙ ap (λ t. bit_xor t c) h ∙ bit_xor_self c

check_iff :
    (len c crc sum : ℕ)
    → c ≡ bit_xor sum crc
    → ((if len == 0 || ltb max_payload len then false else c == crc) ≡ true)
      ↔ ((0 < len) × (len ≤ max_payload) × (sum ≡ 0))
check_iff len c crc sum e = (
  λ h. ground (arith, absorbs sum crc),
  λ h. ground (arith, zero-bit_xor crc, ap (λ t. bit_xor t crc) h.2),
)

-- A slot is accepted exactly if its payload length is from 1 to 256 and the exclusive or of the
-- twelve bytes of the header's numbers and of two bytes of padding is 0: `crc8` itself does not
-- matter.
pub is_slot_valid_iff :
    (s : Bytes)
    → (is_slot_valid s ≡ true)
      ↔ ((0 < payload_len s) × (payload_len s ≤ max_payload) × (field_sum s ≡ 0))
unfolding is_slot_valid
is_slot_valid_iff s = check_iff (payload_len s) _ (crc8 s) (field_sum s) (header_crc s)
