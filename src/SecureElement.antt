-- ===== src/SecureElement.antt =====
-- firmware/src/atecc608a_driver.c and firmware/include/atecc608a_driver.h: the driver, which
-- simulates its chip. Pointers are never NULL here, and a buffer is the list of its bytes. The
-- arrays that hold a slot's flag, data and length are one record per slot. The readiness flags are
-- no part of the state: each is written just before it is read.
pub mod Slots
pub mod Sealing
mod Tests
use safe_key_vault.Prelude.{
  ℕ, zero, suc, ◌+◌, ◌*◌, ◌/◌, ◌%◌, ◌^◌, bit_xor, Bool, true, false, ◌&&◌, ◌||◌, not, Option, none,
  some, List, [], ◌∷◌, ◌++◌, get_or, set, take, drop, replicate, length, memcmp_eq, ltb, leb, ◌==◌,
  if◌then◌else◌,
}

-- `contents` has 32 bytes.
pub record Slot : Type 0 where
  pub provisioned : Bool
  pub contents : List ℕ
  pub data_len : ℕ

-- The globals of the file.
pub record Atecc : Type 0 where
  pub initialized : Bool
  pub self_test_passed : Bool
  pub slots : List Slot

abbrev pub empty_slot : Slot
empty_slot = record { provisioned = false; contents = replicate 32 0; data_len = 0 }

-- The globals as the program starts.
abbrev pub power_on : Atecc
power_on = record { initialized = false; self_test_passed = false; slots = replicate 16 empty_slot }

-- The slots that the driver's own header names.
abbrev pub slot_device_secret : ℕ
slot_device_secret = 4

abbrev pub slot_signing_privkey : ℕ
slot_signing_privkey = 5

abbrev pub slot_master_key : ℕ
slot_master_key = 7

pub data CryptoFunctionType : Type 0 where
  function_any function_aead function_kdf function_ecdsa_sign : CryptoFunctionType
  function_ecdsa_verify function_ecc_generate : CryptoFunctionType

abbrev pub slot_at : Atecc → ℕ → Slot
slot_at a slot_idx = get_or a.slots slot_idx empty_slot

unfoldable pub atecc608a_init : Atecc → Atecc
atecc608a_init a = record a { initialized = true; self_test_passed = false }

unfoldable pub atecc608a_self_test : Atecc → Atecc × Bool
atecc608a_self_test a =
    if not a.initialized then (a, false) else (record a { self_test_passed = true }, true)

unfoldable pub atecc608a_is_slot_provisioned : Atecc → ℕ → Bool
atecc608a_is_slot_provisioned a slot_idx =
    if not a.initialized || leb 16 slot_idx then false else (slot_at a slot_idx).provisioned

-- The slot after a write: the bytes behind the new ones stay.
unfoldable pub written : Slot → List ℕ → Slot
written slot input = record {
  provisioned = true;
  contents = input ++ drop (length input) slot.contents;
  data_len = length input;
}

unfoldable pub atecc608a_write_slot : Atecc → ℕ → List ℕ → Atecc × Bool
unfolding written
atecc608a_write_slot a slot_idx input =
    let len = length input in
    if not a.initialized || not a.self_test_passed || leb 16 slot_idx
    then (a, false)
    else if len == 0 || ltb 32 len
    then (a, false)
    else (record a { slots = set a.slots slot_idx (written (slot_at a slot_idx) input) }, true)

-- A read of `len` bytes: what is copied out of the slot.
unfoldable pub read_from : Slot → ℕ → Option (List ℕ)
read_from slot len =
    if not slot.provisioned || not (len == slot.data_len) || ltb 32 len
    then none
    else some (take len slot.contents)

unfoldable pub atecc608a_read_slot : Atecc → ℕ → ℕ → Option (List ℕ)
unfolding read_from
atecc608a_read_slot a slot_idx len =
    if not a.initialized || leb 16 slot_idx then none else read_from (slot_at a slot_idx) len

-- A slot that is provisioned already is left alone.
unfoldable pub atecc608a_bind_slot : Atecc → ℕ → Atecc × Bool
atecc608a_bind_slot a slot_idx =
    let bound = record (slot_at a slot_idx) { provisioned = true } in
    if not a.initialized || not a.self_test_passed || leb 16 slot_idx
    then (a, false)
    else if (slot_at a slot_idx).provisioned
    then (a, true)
    else (record a { slots = set a.slots slot_idx bound }, true)

unfoldable pub atecc608a_is_available : Atecc → Bool
atecc608a_is_available a = a.initialized && a.self_test_passed

-- The loop of `atecc608a_sha256`.
unfoldable pub digest_from : ℕ → List ℕ → ℕ
digest_from h [] = h
digest_from h (x ∷ input) = digest_from (bit_xor h x * 16777619 % 2 ^ 32) input

-- A 32-bit number in memory, on a little-endian machine.
abbrev pub bytes_of_u32 : ℕ → List ℕ
bytes_of_u32 h = h % 256 ∷ h / 256 % 256 ∷ h / 65536 % 256 ∷ h / 16777216 % 256 ∷ []

-- The 32 bytes that `atecc608a_sha256` writes where it succeeds.
unfoldable pub digest_of : List ℕ → List ℕ
unfolding digest_from
digest_of input = bytes_of_u32 (digest_from 2166136261 input) ++ replicate 28 0

unfoldable pub atecc608a_sha256 : Atecc → List ℕ → Option (List ℕ)
atecc608a_sha256 a input =
    if not a.initialized || not a.self_test_passed then none else some (digest_of input)

-- Both loops over the text: byte i meets byte i % 32 of the key.
unfoldable pub xor_from : ℕ → List ℕ → List ℕ → List ℕ
xor_from i [] key = []
xor_from i (x ∷ input) key = bit_xor x (get_or key (i % 32) 0) ∷ xor_from (i + 1) input key

-- The test that starts the operations on a key.
abbrev pub has_key : Atecc → ℕ → Bool
has_key a key_slot =
    a.initialized && a.self_test_passed && not (leb 16 key_slot) && (slot_at a key_slot).provisioned

-- The digest of the input that both functions build.
abbrev pub tag_of : List ℕ → List ℕ → List ℕ → List ℕ
tag_of aad ciphertext key = digest_of (aad ++ ciphertext ++ key)

-- The ciphertext and the tag, an array of 16 bytes; `atecc608a_sha256` writes 32 bytes there, and
-- the 16 that lie past the array are left out. The nonce is not used.
unfoldable pub atecc608a_encrypt_aead : Atecc → ℕ → List ℕ → List ℕ → ℕ → Option (List ℕ × List ℕ)
unfolding xor_from
atecc608a_encrypt_aead a key_slot plaintext aad ciphertext_capacity =
    if not (has_key a key_slot)
    then none
    else if ltb ciphertext_capacity (length plaintext + 16)
    then none
    else elim (atecc608a_read_slot a key_slot 32) [
      | none ↦ none
      | some key ↦
          let ciphertext = xor_from 0 plaintext key in
          some (ciphertext, take 16 (tag_of aad ciphertext key))
    ]

unfoldable pub atecc608a_decrypt_aead : Atecc → ℕ → List ℕ → List ℕ → List ℕ → ℕ → Option (List ℕ)
unfolding xor_from
atecc608a_decrypt_aead a key_slot ciphertext aad tag plaintext_capacity =
    if not (has_key a key_slot)
    then none
    else if ltb plaintext_capacity (length ciphertext)
    then none
    else elim (atecc608a_read_slot a key_slot 32) [
      | none ↦ none
      | some key ↦
          if not (memcmp_eq 16 (tag_of aad ciphertext key) tag)
          then none
          else some (xor_from 0 ciphertext key)
    ]

unfoldable pub atecc608a_derive_key_slot_and_output : Atecc → ℕ → List ℕ → ℕ → Option (List ℕ)
atecc608a_derive_key_slot_and_output a parent_key_slot input out_key_len =
    if not (has_key a parent_key_slot)
    then none
    else if out_key_len == 0 || ltb 32 out_key_len
    then none
    else elim (atecc608a_read_slot a parent_key_slot 32) [
      | none ↦ none
      | some parent_key ↦
          some (
            take (if ltb out_key_len 32 then out_key_len else 32) (digest_of (parent_key ++ input)))
    ]

unfoldable pub atecc608a_derive_key_slot : Atecc → ℕ → List ℕ → ℕ → Atecc × Bool
atecc608a_derive_key_slot a parent_key_slot input derived_key_slot =
    if not (has_key a parent_key_slot)
    then (a, false)
    else if leb 16 derived_key_slot
    then (a, false)
    else elim (atecc608a_derive_key_slot_and_output a parent_key_slot input 32) [
      | none ↦ (a, false)
      | some derived_key ↦ atecc608a_write_slot a derived_key_slot derived_key
    ]

-- The loop of `atecc608a_generate_ec_keypair` from round i on, with `left` rounds to go.
unfoldable pub keypair_bytes : ℕ → ℕ → ℕ → List ℕ
keypair_bytes zero i seed = []
keypair_bytes (suc left) i seed =
    let next = bit_xor (bit_xor (seed * 2 ^ 7 % 2 ^ 32) (seed / 2 ^ 25)) i in
    next % 256 ∷ keypair_bytes left (i + 1) next

-- The public key.
unfoldable pub atecc608a_generate_ec_keypair : Atecc → ℕ → Atecc × Option (List ℕ)
unfolding keypair_bytes
atecc608a_generate_ec_keypair a key_slot =
    let public_key = 4 ∷ drop 1 (keypair_bytes 64 0 (bit_xor key_slot 0xDEADBEEF)) in
    let held = record (slot_at a key_slot) { provisioned = true } in
    if not a.initialized || not a.self_test_passed || leb 16 key_slot
    then (a, none)
    else (record a { slots = set a.slots key_slot held }, some public_key)

-- The loop of `atecc608a_ecdsa_sign`, likewise.
unfoldable pub signature_bytes : ℕ → ℕ → ℕ → List ℕ → List ℕ
signature_bytes zero i seed digest = []
signature_bytes (suc left) i seed digest =
    let next =
      bit_xor (bit_xor (seed * 2 ^ 5 % 2 ^ 32) (seed / 2 ^ 27)) (get_or digest (i % 32) 0) in
    next % 256 ∷ signature_bytes left (i + 1) next digest

unfoldable pub atecc608a_ecdsa_sign : Atecc → ℕ → List ℕ → Option (List ℕ)
unfolding signature_bytes
atecc608a_ecdsa_sign a key_slot digest =
    if not (has_key a key_slot)
    then none
    else some (signature_bytes 64 0 (bit_xor key_slot 0xCAFEBABE) digest)

-- The loop over the signature.
unfoldable pub has_nonzero : List ℕ → Bool
has_nonzero [] = false
has_nonzero (x ∷ signature) = not (x == 0) || has_nonzero signature

-- The key and the digest are not looked at.
unfoldable pub atecc608a_ecdsa_verify : Atecc → List ℕ → List ℕ → List ℕ → Bool
unfolding has_nonzero
atecc608a_ecdsa_verify a public_key digest signature =
    if not a.initialized || not a.self_test_passed then false else has_nonzero (take 64 signature)

unfoldable pub atecc608a_is_ready : Atecc → CryptoFunctionType → Bool
unfolding atecc608a_is_slot_provisioned
atecc608a_is_ready a func_type = if not (atecc608a_is_available a) then false else elim func_type [
  | function_any ↦ true
  | function_aead ↦ atecc608a_is_slot_provisioned a slot_master_key
  | function_kdf ↦ atecc608a_is_slot_provisioned a slot_device_secret
  | function_ecdsa_sign ↦ atecc608a_is_slot_provisioned a slot_signing_privkey
  | function_ecdsa_verify ↦ true
  | function_ecc_generate ↦ true
]
