-- ===== src/CryptoEngine/Limits.antt =====
-- firmware/src/crypto_engine.c: exactly when a password is encrypted.
use safe_key_vault.Prelude.{
  ℕ, ◌+◌, ◌*◌, ◌%◌, ◌^◌, ◌<◌, ◌≤◌, ◌≡◌, ◌↔◌, refl, arith, ap, sym, ◌∙◌, true, false, some, List,
  ◌∷◌, ◌++◌, Text, take, replicate, length, length-append, ltb, ◌==◌, answer, length-take,
}
use safe_key_vault.SecureElement.{xor_from, tag_of, bytes_of_u32, atecc608a_sha256}
use safe_key_vault.SecureElement.Sealing.{
  HoldsKey, encrypt_inv, encrypt_eq, length-xor_from, length-tag_of,
}
use safe_key_vault.CryptoEngine.{
  CryptoState, slot_master_key, aead_ready, or_zeros, crypto_engine_ready_for_sensitive_ops,
  crypto_engine_hash256,
}
use safe_key_vault.CryptoEngine.Hex.{hex_chars, hex_encode, length-hex_chars}
use safe_key_vault.CryptoEngine.Passwords.{
  secret_component, next_password_aad, format_password, print_password, seal_password,
  crypto_engine_encrypt_password,
}
use safe_key_vault.CryptoEngine.Roundtrip.{
  digest_cut, still_ready, next_aad_inv, seal_inv, encrypt_password_inv,
}

hex_encode_eq :
    (bytes : List ℕ) (n : ℕ)
    → length bytes * 2 + 1 ≤ n
    → hex_encode bytes n ≡ some (hex_chars bytes)
unfolding hex_encode
hex_encode_eq bytes n fits =
    let a : (n == 0) ≡ false = ground arith in
    let b : ltb n (length bytes * 2 + 1) ≡ false = ground arith in rw (a, b) refl

length-format : (a t r : Text) → length (format_password a t r) ≡ 5 + length a + length t + length r
length-format a t r =
    let tail = t ++ b':' ∷ r in
    omega (arith, length-append a (b':' ∷ tail), length-append t (b':' ∷ r))

print_eq :
    (aad tag raw : List ℕ) (out_len : ℕ)
    → length aad ≡ 12
    → length tag ≡ 16
    → length raw ≤ 64
    → 64 + length raw * 2 ≤ out_len
    → print_password aad tag raw out_len
      ≡ some (format_password (hex_chars aad) (hex_chars tag) (hex_chars raw))
unfolding print_password
print_eq aad tag raw out_len la lt lr fits =
    let room : ltb out_len (3 + 25 + 1 + 33 + 1 + length raw * 2 + 1) ≡ false = ground arith in
    let text = format_password (hex_chars aad) (hex_chars tag) (hex_chars raw) in
    let size = length-format (hex_chars aad) (hex_chars tag) (hex_chars raw) in
    let sa = length-hex_chars aad in
    let st = length-hex_chars tag in
    let sr = length-hex_chars raw in
    let short : length text < out_len = omega arith in
    let whole : ltb (length text) out_len ≡ true = ground arith in
    rw
      (
        room,
        hex_encode_eq aad 25 (omega arith),
        hex_encode_eq tag 33 (omega arith),
        hex_encode_eq raw 129 (omega arith),
        whole,
      )
      refl

print-room :
    (aad tag raw : List ℕ) (out_len : ℕ) (text : Text)
    → print_password aad tag raw out_len ≡ some text
    → 64 + length raw * 2 ≤ out_len
unfolding print_password
print-room aad tag raw out_len text h = ground arith

-- The state and the chip that an encryption with this key needs.
abbrev pub IsArmed : CryptoState → List ℕ → Type 0
IsArmed c key =
    (c.initialized ≡ true)
    × (c.secure_element_available ≡ true)
    × (aead_ready c ≡ true)
    × HoldsKey c.chip slot_master_key key

aad_eq :
    (c : CryptoState)
    → c.secure_element_available ≡ true
    → (aad : List ℕ) × (b : CryptoState) × (length aad ≡ 12)
      × (next_password_aad c ≡ answer (b, aad))
      × (aead_ready c ≡ aead_ready b)
      × (b.chip ≡ c.chip)
unfolding next_password_aad crypto_engine_hash256
aad_eq c here =
    let seed = bytes_of_u32 c.aad_counter ++ secret_component c ++ replicate 20 0 in
    let aad = take 12 (or_zeros 32 (atecc608a_sha256 c.chip seed)) in
    let b = record c { aad_counter = (c.aad_counter + 1) % 2 ^ 32 } in
    (aad, b, (digest_cut c seed).0, rw here refl, refl, refl)

aad-available :
    (c b : CryptoState) (aad : List ℕ)
    → next_password_aad c ≡ answer (b, aad)
    → c.secure_element_available ≡ true
unfolding next_password_aad crypto_engine_hash256
aad-available c b aad h = ground arith

seal_eq :
    (c : CryptoState) (aad key : List ℕ) (p : Text) (out_len : ℕ)
    → aead_ready c ≡ true
    → HoldsKey c.chip slot_master_key key
    → length aad ≡ 12
    → length p ≤ 48
    → 64 + length p * 2 ≤ out_len
    → (text : Text) × (seal_password c aad p out_len ≡ answer (c, some text))
unfolding seal_password
seal_eq c aad key p out_len ready holds size short room =
    let raw = xor_from 0 p key in
    let tag = take 16 (tag_of aad raw key) in
    let same = length-xor_from 0 p key in
    let tag_size : length tag ≡ 16 =
      omega (arith, length-take 16 (tag_of aad raw key), length-tag_of aad raw key) in
    let text = format_password (hex_chars aad) (hex_chars tag) (hex_chars raw) in
    (
      text,
      rw
          (
            ready,
            encrypt_eq c.chip slot_master_key p aad 64 key holds (omega arith),
            print_eq aad tag raw out_len size tag_size (omega arith) (omega arith),
          )
          refl,
    )

encrypt_eq_password :
    (c b : CryptoState) (aad : List ℕ) (p text : Text) (out_len : ℕ)
    → c.initialized ≡ true
    → 0 < out_len
    → 0 < length p
    → length p ≤ 64
    → next_password_aad c ≡ answer (b, aad)
    → seal_password b aad p out_len ≡ answer (b, some text)
    → crypto_engine_encrypt_password c p out_len ≡ answer (b, some text)
unfolding crypto_engine_encrypt_password crypto_engine_ready_for_sensitive_ops
encrypt_eq_password c b aad p text out_len ready room long short drawn sealed =
    let x : (out_len == 0) ≡ false = ground arith in
    let y : (length p == 0) ≡ false = ground arith in
    let z : ltb 64 (length p) ≡ false = ground arith in rw (x, y, z, drawn, sealed, ready) refl

-- `crypto_engine_encrypt_password` encrypts a password exactly when the engine and its secure
-- element are there, the additional test for encryption passes, slot 0 holds a key of 32 bytes,
-- the password has 1 to 48 bytes, and the buffer has 64 bytes and two for each of the password's.
pub encrypt_password_iff :
    (c : CryptoState) (p : Text) (out_len : ℕ)
    → ((c' : CryptoState) × (text : Text) × (crypto_engine_encrypt_password c p out_len
          ≡ answer (c', some text)))
      ↔ ((key : List ℕ) × IsArmed c key
          × (0 < length p)
          × (length p ≤ 48)
          × (64 + length p * 2 ≤ out_len))
encrypt_password_iff c p out_len = (
  λ (c', text, h).
      let (aad, b, ready, long, short, drawn, sealing) =
        encrypt_password_inv c c' p text out_len h in
      let (raw, tag, here, ok, sealed, printed) = seal_inv b c' aad p text out_len sealing in
      let (_, _, keys) = next_aad_inv c b aad drawn in
      let (key, holds, fits, body, _) =
        encrypt_inv b.chip slot_master_key p aad 64 raw tag sealed in
      let size = length-xor_from 0 p key in
      let room = print-room aad tag raw out_len text printed in
      let back : aead_ready c ≡ true = still_ready b c (sym keys.2) (sym keys.1) ok in
      let here_key : HoldsKey c.chip slot_master_key key = rw (← keys.2) holds in
      let length_raw : length raw ≡ length p = ap length body ∙ size in
      (key, (ready, aad-available c b aad drawn, back, here_key), long, omega arith, omega arith),
  λ (key, (ready, here, ok, holds), long, short, room).
      let (aad, b, size, drawn, same, chip) = aad_eq c here in
      let (text, sealed) =
        seal_eq b aad key p out_len (sym same ∙ ok) (rw chip holds) size short room in
      (
        b,
        text,
        encrypt_eq_password c b aad p text out_len ready (omega arith) long (omega arith) drawn
            sealed,
      ),
)
