-- ===== src/CryptoEngine/Passwords.antt =====
-- The password helpers of firmware/src/crypto_engine.c: "v1:", the additional data, the tag and
-- the ciphertext, in hexadecimal with colons between them.
use safe_key_vault.Prelude.{
  ℕ, ◌+◌, ◌-◌, ◌*◌, ◌%◌, ◌^◌, ◌&&◌, ◌||◌, not, Option, none, some, List, [], ◌∷◌, ◌++◌, Text, codes,
  take, drop, replicate, length, ltb, ◌==◌, strncmp_eq, if◌then◌else◌, Outcome, halted, answer,
  ◌>>=◌,
}
use safe_key_vault.SecureElement.{
  bytes_of_u32, atecc608a_is_available, atecc608a_read_slot, atecc608a_encrypt_aead,
}
use safe_key_vault.CryptoEngine.{
  CryptoState, slot_master_key, slot_device_secret, password_max_length, aead_ready,
  crypto_engine_ready_for_sensitive_ops, crypto_engine_hash256, crypto_engine_decrypt_aead,
}
use safe_key_vault.CryptoEngine.Hex.{hex_encode, hex_decode}

-- `device_secret_component` where it is read; zeros stand there otherwise.
abbrev pub secret_component : CryptoState → List ℕ
secret_component c =
    if c.device_secret_provisioned && atecc608a_is_available c.chip
    then elim (atecc608a_read_slot c.chip slot_device_secret 8) [
      | none ↦ replicate 8 0
      | some component ↦ component
    ]
    else replicate 8 0

-- The counter moves on, and the 12 bytes come from the hash. A production build halts where the
-- secret cannot be read.
unfoldable pub next_password_aad : CryptoState → Outcome (CryptoState × List ℕ)
next_password_aad c =
    let seed = bytes_of_u32 c.aad_counter ++ secret_component c ++ replicate 20 0 in
    crypto_engine_hash256 c seed >>= λ hash.
    answer (record c { aad_counter = (c.aad_counter + 1) % 2 ^ 32 }, take 12 hash)

abbrev pub colon : ℕ
colon = b':'

-- The text that `snprintf` prints.
abbrev pub format_password : Text → Text → Text → Text
format_password aad_hex tag_hex ciphertext_hex =
    codes "v1:" ++ (aad_hex ++ colon ∷ (tag_hex ++ colon ∷ ciphertext_hex))

-- What follows the encryption: the length test, the three `hex_encode` calls, and the text, which
-- the buffer of `out_len` bytes must hold whole.
unfoldable pub print_password : List ℕ → List ℕ → List ℕ → ℕ → Option Text
unfolding hex_encode
print_password aad tag raw out_len =
    if ltb out_len (3 + 25 + 1 + 33 + 1 + length raw * 2 + 1)
    then none
    else elim (hex_encode aad 25) [
      | none ↦ none
      | some aad_hex ↦ elim (hex_encode tag 33) [
        | none ↦ none
        | some tag_hex ↦ elim (hex_encode raw 129) [
          | none ↦ none
          | some raw_hex ↦
              let text = format_password aad_hex tag_hex raw_hex in
              if ltb (length text) out_len then some text else none
        ]
      ]
    ]

-- The encryption, once the additional data is drawn; `raw_ciphertext` has 64 bytes.
unfoldable pub seal_password : CryptoState → List ℕ → Text → ℕ → Outcome (CryptoState × Option Text)
seal_password c aad plaintext out_len =
    if not (aead_ready c)
    then halted
    else answer (
      c,
      elim (atecc608a_encrypt_aead c.chip slot_master_key plaintext aad password_max_length) [
        | none ↦ none
        | some sealed ↦ print_password aad sealed.1 sealed.0 out_len
      ],
    )

unfoldable pub crypto_engine_encrypt_password :
    CryptoState → Text → ℕ → Outcome (CryptoState × Option Text)
crypto_engine_encrypt_password c plaintext out_len =
    if out_len == 0
    then answer (c, none)
    else if not (crypto_engine_ready_for_sensitive_ops c)
    then answer (c, none)
    else if length plaintext == 0 || ltb password_max_length (length plaintext)
    then answer (c, none)
    else next_password_aad c >>= λ r. seal_password r.0 r.1 plaintext out_len

-- `strchr`: what stands before and after the first colon.
unfoldable pub split_colon : Text → Option (Text × Text)
split_colon [] = none
split_colon (c ∷ s) =
    if c == colon
    then some ([], s)
    else elim (split_colon s) [ none ↦ none | some parts ↦ some (c ∷ parts.0, parts.1) ]

-- The three fields that are decoded: the additional data, the tag and the ciphertext.
unfoldable pub parse_fields : Text → Text → Text → Option (List ℕ × List ℕ × List ℕ)
unfolding hex_decode
parse_fields aad_hex tag_hex raw_hex =
    if not (length aad_hex == 24)
      || not (length tag_hex == 32)
      || not (length raw_hex % 2 == 0)
      || length raw_hex == 0
    then none
    else elim (hex_decode aad_hex 12) [
      | none ↦ none
      | some aad ↦ elim (hex_decode tag_hex 16) [
        | none ↦ none
        | some tag ↦ elim (hex_decode raw_hex password_max_length) [
          | none ↦ none
          | some raw ↦ some (aad, tag, raw)
        ]
      ]
    ]

unfoldable pub parse_password : Text → Option (List ℕ × List ℕ × List ℕ)
unfolding split_colon parse_fields
parse_password text =
    if not (strncmp_eq 3 text (codes "v1:")) then none else elim (split_colon (drop 3 text)) [
      | none ↦ none
      | some head ↦ elim (split_colon head.1) [
        | none ↦ none
        | some rest ↦ parse_fields head.0 rest.0 rest.1
      ]
    ]

-- The bytes before the first NUL.
unfoldable pub until_nul : List ℕ → Text
until_nul [] = []
until_nul (c ∷ s) = if c == 0 then [] else c ∷ until_nul s

unfoldable pub decrypted_text : Option (List ℕ) → Option Text
unfolding until_nul
decrypted_text none = none
decrypted_text (some bytes) = some (until_nul bytes)

unfoldable pub crypto_engine_decrypt_password : CryptoState → Text → ℕ → Outcome (Option Text)
crypto_engine_decrypt_password c ciphertext out_len =
    if ltb out_len 2
    then answer none
    else if not (crypto_engine_ready_for_sensitive_ops c)
    then answer none
    else elim (parse_password ciphertext) [
      | none ↦ answer none
      | some fields ↦
          crypto_engine_decrypt_aead c fields.2 fields.0 fields.1 (out_len - 1) >>= λ bytes.
          answer (decrypted_text bytes)
    ]
