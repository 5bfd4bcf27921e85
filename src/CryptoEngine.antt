-- ===== src/CryptoEngine.antt =====
-- firmware/src/crypto_engine.c and firmware/include/crypto_engine.h, built with
-- FIRMWARE_PRODUCTION = 0; the two builds differ where this file says so. Pointers are never NULL
-- here, unless an `Option` says so. `Error_Handler` never returns: such a call has the outcome
-- `halted`. The state of the file and that of the driver are one record.
pub mod Hex
pub mod Passwords
pub mod Printing
pub mod Roundtrip
pub mod Limits
pub mod Aead
pub mod PinKey
pub mod Provisioning
pub mod Tests
use safe_key_vault.Prelude.{
  ℕ, zero, suc, ◌+◌, ◌-◌, ◌%◌, ◌^◌, Bool, true, false, ◌&&◌, ◌||◌, not, Option, none, some, List,
  [], ◌∷◌, ◌++◌, Text, take, drop, replicate, length, ltb, leb, ◌==◌, if◌then◌else◌, Outcome,
  halted, answer, ◌>>=◌,
}
use safe_key_vault.SecureElement.{
  Atecc, power_on, function_aead, function_kdf, function_ecdsa_sign, function_ecdsa_verify,
  function_ecc_generate, bytes_of_u32, atecc608a_init, atecc608a_self_test,
  atecc608a_is_slot_provisioned, atecc608a_is_available, atecc608a_is_ready, atecc608a_read_slot,
  atecc608a_write_slot, atecc608a_bind_slot, atecc608a_sha256, atecc608a_encrypt_aead,
  atecc608a_decrypt_aead, atecc608a_derive_key_slot_and_output, atecc608a_generate_ec_keypair,
  atecc608a_ecdsa_sign, atecc608a_ecdsa_verify,
}

-- The slots of this file. The driver's header gives the same names to slots 7 and 4.
abbrev pub slot_master_key : ℕ
slot_master_key = 0

abbrev pub slot_device_secret : ℕ
slot_device_secret = 1

abbrev pub slot_fido_privkey_base : ℕ
slot_fido_privkey_base = 3

abbrev pub password_max_length : ℕ
password_max_length = 64

-- `g_crypto_state` and `g_password_encryption_aad_counter`, with the driver behind them.
pub record CryptoState : Type 0 where
  pub initialized : Bool
  pub secure_element_available : Bool
  pub master_key_provisioned : Bool
  pub device_secret_provisioned : Bool
  pub bound_pubkey : List ℕ
  pub bound_pubkey_len : ℕ
  pub aad_counter : ℕ
  pub chip : Atecc

abbrev pub at_start : CryptoState
at_start = record {
  initialized = false;
  secure_element_available = false;
  master_key_provisioned = false;
  device_secret_provisioned = false;
  bound_pubkey = replicate 64 0;
  bound_pubkey_len = 0;
  aad_counter = 1;
  chip = power_on;
}

-- Where no secure element is found, a production build halts.
unfoldable pub crypto_engine_init : CryptoState → CryptoState
crypto_engine_init c =
    let (chip, passed) = atecc608a_self_test (atecc608a_init c.chip) in
    record c {
      initialized = true;
      secure_element_available = passed;
      master_key_provisioned = atecc608a_is_slot_provisioned chip slot_master_key;
      device_secret_provisioned = atecc608a_is_slot_provisioned chip slot_device_secret;
      bound_pubkey = replicate 64 0;
      bound_pubkey_len = 0;
      chip = chip;
    }

unfoldable pub crypto_engine_ready_for_sensitive_ops : CryptoState → Bool
crypto_engine_ready_for_sensitive_ops c = c.initialized

-- Where the key is missing, a production build halts.
unfoldable pub crypto_engine_set_master_key_slot_ready : CryptoState → CryptoState
crypto_engine_set_master_key_slot_ready c = record c {
  master_key_provisioned =
      atecc608a_is_available c.chip && atecc608a_is_slot_provisioned c.chip slot_master_key;
}

-- The call that starts the setters.
abbrev pub ensure_initialized : CryptoState → CryptoState
ensure_initialized c = if not c.initialized then crypto_engine_init c else c

unfoldable pub crypto_engine_set_device_secret : CryptoState → List ℕ → CryptoState × Bool
unfolding crypto_engine_init
crypto_engine_set_device_secret before secret =
    let c = ensure_initialized before in
    let (chip, written) = atecc608a_write_slot c.chip slot_device_secret secret in
    if not (atecc608a_is_available c.chip)
    then (c, false)
    else if length secret == 0 || ltb 32 (length secret)
    then (c, false)
    else (record c { device_secret_provisioned = written; chip = chip }, written)

unfoldable pub crypto_engine_bind_atecc_slot : CryptoState → ℕ → List ℕ → CryptoState × Bool
unfolding crypto_engine_init
crypto_engine_bind_atecc_slot before slot_id public_key =
    let c = ensure_initialized before in
    let (chip, bound) = atecc608a_bind_slot c.chip slot_id in
    let key_len = length public_key in
    if not (atecc608a_is_available c.chip)
    then (c, false)
    else if key_len == 0 || ltb 64 key_len
    then (c, false)
    else if bound
    then (
      record c {
        bound_pubkey = public_key ++ drop key_len c.bound_pubkey;
        bound_pubkey_len = key_len;
        chip = chip;
      },
      true,
    )
    else (record c { chip = chip }, false)

pub data CryptoBackend : Type 0 where
  software_fallback atecc608a : CryptoBackend

pub record CryptoStatus : Type 0 where
  pub backend : CryptoBackend
  pub aead_interface_ready : Bool
  pub kdf_interface_ready : Bool
  pub secure_element_bound : Bool
  pub production_mode : Bool

unfoldable pub crypto_engine_get_status : CryptoState → CryptoStatus
crypto_engine_get_status c = record {
  backend = if c.secure_element_available then atecc608a else software_fallback;
  aead_interface_ready = atecc608a_is_available c.chip && atecc608a_is_ready c.chip function_aead;
  kdf_interface_ready = atecc608a_is_available c.chip && atecc608a_is_ready c.chip function_kdf;
  secure_element_bound = c.secure_element_available;
  production_mode = false;
}

-- The bytes of a digest, and zeros where the chip refuses.
abbrev pub or_zeros : ℕ → Option (List ℕ) → List ℕ
or_zeros n none = replicate n 0
or_zeros n (some bytes) = bytes

unfoldable pub crypto_engine_hash256 : CryptoState → List ℕ → Outcome (List ℕ)
crypto_engine_hash256 c input =
    if not c.secure_element_available
    then halted
    else answer (or_zeros 32 (atecc608a_sha256 c.chip input))

-- Behind the test, `atecc608a_sha256` succeeds.
unfoldable pub crypto_engine_hash16 : CryptoState → List ℕ → Outcome (List ℕ)
crypto_engine_hash16 c input =
    if not (atecc608a_is_available c.chip)
    then halted
    else answer (take 16 (or_zeros 32 (atecc608a_sha256 c.chip input)))

-- The test before each use of a key for encryption, and before each key derivation.
abbrev pub aead_ready : CryptoState → Bool
aead_ready c =
    atecc608a_is_available c.chip
    && atecc608a_is_ready c.chip function_aead
    && c.master_key_provisioned

abbrev pub kdf_ready : CryptoState → Bool
kdf_ready c =
    atecc608a_is_available c.chip
    && atecc608a_is_ready c.chip function_kdf
    && c.device_secret_provisioned

-- `out_len` is at least 16 at each call. A failed derivation halts.
unfoldable pub crypto_engine_password_fingerprint : CryptoState → Text → Outcome (List ℕ)
crypto_engine_password_fingerprint c password =
    if not (kdf_ready c)
    then halted
    else crypto_engine_hash256 c password >>= λ hash.
        elim (atecc608a_derive_key_slot_and_output c.chip slot_device_secret hash 16) [
          | none ↦ halted
          | some fingerprint ↦ answer fingerprint
        ]

unfoldable pub crypto_engine_ecdsa_verify : CryptoState → List ℕ → List ℕ → List ℕ → Outcome Bool
crypto_engine_ecdsa_verify c public_key message_hash signature =
    if not (atecc608a_is_available c.chip) || not (atecc608a_is_ready c.chip function_ecdsa_verify)
    then halted
    else answer (atecc608a_ecdsa_verify c.chip public_key message_hash signature)

unfoldable pub crypto_engine_generate_ec_keypair :
    CryptoState → Outcome (CryptoState × Option (List ℕ))
crypto_engine_generate_ec_keypair c =
    let (chip, public_key) = atecc608a_generate_ec_keypair c.chip slot_fido_privkey_base in
    if not (atecc608a_is_available c.chip) || not (atecc608a_is_ready c.chip function_ecc_generate)
    then halted
    else answer (record c { chip = chip }, public_key)

unfoldable pub crypto_engine_ecdsa_sign : CryptoState → ℕ → List ℕ → Outcome (Option (List ℕ))
unfolding crypto_engine_hash256
crypto_engine_ecdsa_sign c key_slot_id message =
    if not (atecc608a_is_available c.chip) || not (atecc608a_is_ready c.chip function_ecdsa_sign)
    then halted
    else crypto_engine_hash256 c message >>= λ message_hash.
        answer (atecc608a_ecdsa_sign c.chip key_slot_id message_hash)

unfoldable pub crypto_engine_read_atecc_slot : CryptoState → ℕ → ℕ → Option (List ℕ)
crypto_engine_read_atecc_slot c slot_id data_len =
    if not (atecc608a_is_available c.chip)
    then none
    else atecc608a_read_slot c.chip slot_id data_len

unfoldable pub crypto_engine_write_atecc_slot : CryptoState → ℕ → List ℕ → CryptoState × Bool
crypto_engine_write_atecc_slot c slot_id input =
    let (chip, written) = atecc608a_write_slot c.chip slot_id input in
    if not (atecc608a_is_available c.chip) then (c, false) else (record c { chip = chip }, written)

-- `mix_input` up to `mix_input_current_len`: 64 bytes at most. NULL for the salt is the empty one.
abbrev pub mix_input : Text → List ℕ → List ℕ → List ℕ
mix_input pin component salt = take 64 (take 64 pin ++ component ++ salt)

unfoldable pub crypto_engine_derive_pin_key :
    CryptoState → Option Text → List ℕ → Outcome (Option (List ℕ))
crypto_engine_derive_pin_key c none salt = answer none
crypto_engine_derive_pin_key c (some pin) salt =
    if length pin == 0
    then answer none
    else if not c.device_secret_provisioned || not (atecc608a_is_available c.chip)
    then answer none
    else elim (atecc608a_read_slot c.chip slot_device_secret 16) [
      | none ↦ answer none
      | some component ↦
          if not (kdf_ready c)
          then halted
          else answer (
              atecc608a_derive_key_slot_and_output c.chip slot_device_secret
                (mix_input pin component salt) 32)
    ]

-- The ciphertext and the tag.
unfoldable pub crypto_engine_encrypt_aead :
    CryptoState → List ℕ → List ℕ → ℕ → Outcome (Option (List ℕ × List ℕ))
crypto_engine_encrypt_aead c plaintext aad ciphertext_capacity =
    if not (crypto_engine_ready_for_sensitive_ops c)
    then answer none
    else if ltb ciphertext_capacity (length plaintext)
    then answer none
    else if not (aead_ready c)
    then halted
    else answer (atecc608a_encrypt_aead c.chip slot_master_key plaintext aad ciphertext_capacity)

unfoldable pub crypto_engine_decrypt_aead :
    CryptoState → List ℕ → List ℕ → List ℕ → ℕ → Outcome (Option (List ℕ))
crypto_engine_decrypt_aead c ciphertext aad tag plaintext_capacity =
    if not (crypto_engine_ready_for_sensitive_ops c)
    then answer none
    else if ltb plaintext_capacity (length ciphertext)
    then answer none
    else if not (aead_ready c)
    then halted
    else answer
        (atecc608a_decrypt_aead c.chip slot_master_key ciphertext aad tag plaintext_capacity)
