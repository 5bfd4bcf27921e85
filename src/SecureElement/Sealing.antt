-- ===== src/SecureElement/Sealing.antt =====
-- firmware/src/atecc608a_driver.c: what is encrypted is decrypted again, and nothing else is.
use safe_key_vault.Prelude.{
  ℕ, suc, ◌+◌, ◌%◌, ◌≤◌, ◌≡◌, inl, inr, refl, arith, ap, sym, ◌∙◌, true, false, some, List, [], ◌∷◌,
  length, get_or, take, length-take, Option-cases, some_same, ltb, memcmp_eq, memcmp_eq_iff,
}
use safe_key_vault.Prelude.Xor.{bit_xor_twice}
use safe_key_vault.Prelude.Slices.{take-take}
use safe_key_vault.SecureElement.{
  Atecc, has_key, tag_of, xor_from, digest_of, atecc608a_read_slot, atecc608a_encrypt_aead,
  atecc608a_decrypt_aead,
}

-- The key that the sealing operations of a slot use.
abbrev pub HoldsKey : Atecc → ℕ → List ℕ → Type 0
HoldsKey a slot key = (has_key a slot ≡ true) × (atecc608a_read_slot a slot 32 ≡ some key)

xor_from_twice : (i : ℕ) (t key : List ℕ) → xor_from i (xor_from i t key) key ≡ t
unfolding xor_from
xor_from_twice i [] key = refl
xor_from_twice i (x ∷ t) key =
    rw (bit_xor_twice x (get_or key (i % 32) 0), xor_from_twice (i + 1) t key) refl

pub length-xor_from : (i : ℕ) (t key : List ℕ) → length (xor_from i t key) ≡ length t
unfolding xor_from
length-xor_from i [] key = refl
length-xor_from i (x ∷ t) key = ap suc (length-xor_from (i + 1) t key)

pub length-tag_of : (aad t key : List ℕ) → length (tag_of aad t key) ≡ 32
unfolding digest_of
length-tag_of aad t key = refl

pub encrypt_eq :
    (a : Atecc) (slot : ℕ) (p aad : List ℕ) (room : ℕ) (key : List ℕ)
    → HoldsKey a slot key
    → length p + 16 ≤ room
    → atecc608a_encrypt_aead a slot p aad room
      ≡ some (xor_from 0 p key, take 16 (tag_of aad (xor_from 0 p key) key))
unfolding atecc608a_encrypt_aead
encrypt_eq a slot p aad room key (ready, read) fits =
    let fit : ltb room (length p + 16) ≡ false = ground arith in rw (ready, fit, read) refl

pub decrypt_eq :
    (a : Atecc) (slot : ℕ) (c aad tag : List ℕ) (room : ℕ) (key : List ℕ)
    → HoldsKey a slot key
    → length c ≤ room
    → memcmp_eq 16 (tag_of aad c key) tag ≡ true
    → atecc608a_decrypt_aead a slot c aad tag room ≡ some (xor_from 0 c key)
unfolding atecc608a_decrypt_aead
decrypt_eq a slot c aad tag room key (ready, read) fits same =
    let fit : ltb room (length c) ≡ false = ground arith in rw (ready, fit, read, same) refl

pub encrypt_inv :
    (a : Atecc) (slot : ℕ) (p aad : List ℕ) (room : ℕ) (c tag : List ℕ)
    → atecc608a_encrypt_aead a slot p aad room ≡ some (c, tag)
    → (key : List ℕ) × HoldsKey a slot key
      × (length p + 16 ≤ room)
      × (c ≡ xor_from 0 p key)
      × (tag ≡ take 16 (tag_of aad c key))
unfolding atecc608a_encrypt_aead
encrypt_inv a slot p aad room c tag h = elim (Option-cases (atecc608a_read_slot a slot 32)) [
  | inl e ↦ absurd (ground arith)
  | inr (key, e) ↦
      let ready : has_key a slot ≡ true = ground arith in
      let fits : length p + 16 ≤ room = ground arith in
      let value = sym (encrypt_eq a slot p aad room key (ready, e) fits) ∙ h in
      let pair = some_same value in
      let here : c ≡ xor_from 0 p key = sym (ap (λ r. r.0) pair) in
      (key, (ready, e), fits, here, rw here (sym (ap (λ r. r.1) pair)))
]

pub decrypt_inv :
    (a : Atecc) (slot : ℕ) (c aad tag : List ℕ) (room : ℕ) (p : List ℕ)
    → atecc608a_decrypt_aead a slot c aad tag room ≡ some p
    → (key : List ℕ) × HoldsKey a slot key
      × (length c ≤ room)
      × (p ≡ xor_from 0 c key)
      × (memcmp_eq 16 (tag_of aad c key) tag ≡ true)
unfolding atecc608a_decrypt_aead
decrypt_inv a slot c aad tag room p h = elim (Option-cases (atecc608a_read_slot a slot 32)) [
  | inl e ↦ absurd (ground arith)
  | inr (key, e) ↦
      let ready : has_key a slot ≡ true = ground arith in
      let fits : length c ≤ room = ground arith in
      let same : memcmp_eq 16 (tag_of aad c key) tag ≡ true = ground arith in
      let value = sym (decrypt_eq a slot c aad tag room key (ready, e) fits same) ∙ h in
      (key, (ready, e), fits, sym (some_same value), same)
]

-- The tag that was kept passes the test.
kept-passes :
    (aad c key : List ℕ) → memcmp_eq 16 (tag_of aad c key) (take 16 (tag_of aad c key)) ≡ true
kept-passes aad c key =
    let full = tag_of aad c key in
    let long = length-tag_of aad c key in
    let short = length-take 16 full in
    (memcmp_eq_iff 16 full (take 16 full) (omega arith) (omega arith)).1
      (sym (take-take full 16 16 (omega arith)))

-- What `atecc608a_encrypt_aead` encrypts, `atecc608a_decrypt_aead` decrypts with the same slot and
-- the same additional data, to the same bytes, where the buffer holds them.
pub encrypt_aead-decrypt_aead :
    (a : Atecc) (slot : ℕ) (p aad : List ℕ) (room : ℕ) (c tag : List ℕ) (space : ℕ)
    → atecc608a_encrypt_aead a slot p aad room ≡ some (c, tag)
    → length p ≤ space
    → atecc608a_decrypt_aead a slot c aad tag space ≡ some p
encrypt_aead-decrypt_aead a slot p aad room c tag space h fits =
    let (key, holds, _, text, seal) = encrypt_inv a slot p aad room c tag h in
    let size : length c ≡ length p = ap length text ∙ length-xor_from 0 p key in
    let same : memcmp_eq 16 (tag_of aad c key) tag ≡ true = rw seal (kept-passes aad c key) in
    decrypt_eq a slot c aad tag space key holds (omega arith) same
    ∙ ap some (ap (λ t. xor_from 0 t key) text ∙ xor_from_twice 0 p key)

-- Where `atecc608a_decrypt_aead` accepts, with a tag of at least 16 bytes, encrypting the result
-- anew gives the ciphertext and the first 16 bytes of the tag. So nothing is accepted that the
-- slot's key did not seal.
pub decrypt_aead-encrypt_aead :
    (a : Atecc) (slot : ℕ) (c aad tag : List ℕ) (room : ℕ) (p : List ℕ)
    → 16 ≤ length tag
    → atecc608a_decrypt_aead a slot c aad tag room ≡ some p
    → atecc608a_encrypt_aead a slot p aad (length p + 16) ≡ some (c, take 16 tag)
decrypt_aead-encrypt_aead a slot c aad tag room p long h =
    let (key, holds, _, text, same) = decrypt_inv a slot c aad tag room p h in
    let back : xor_from 0 p key ≡ c = ap (λ t. xor_from 0 t key) text ∙ xor_from_twice 0 c key in
    let size = length-tag_of aad c key in
    let seal = (memcmp_eq_iff 16 (tag_of aad c key) tag (omega arith) long).0 same in
    encrypt_eq a slot p aad (length p + 16) key holds (omega arith)
    ∙ ap (λ t. some (t, take 16 (tag_of aad t key))) back
    ∙ ap (λ t. some (c, t)) seal
