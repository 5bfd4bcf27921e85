-- ===== src/CryptoEngine/Printing.antt =====
-- firmware/src/crypto_engine.c: the text of an encrypted password is read back to its three parts.
use safe_key_vault.Prelude.{
  ℕ, ◌*◌, ◌/◌, ◌%◌, ◌<◌, ◌≤◌, ◌≡◌, ◌≢◌, refl, arith, ap, ◌∙◌, true, false, ◌&&◌, not, some, List,
  [], ◌∷◌, ◌++◌, Text, length, All, ◌==◌, bit_and, get_or, strncmp_eq, all_below, all_below_sound,
  Option-cases, inl, inr,
}
use safe_key_vault.SecurityUtils.Equality.{IsByte}
use safe_key_vault.CryptoEngine.Hex.{
  hex_chars, hex_encode, hex_decode, length-hex_chars, hex_encode-hex_decode, k_hex,
}
use safe_key_vault.CryptoEngine.Passwords.{
  colon, format_password, print_password, split_colon, parse_fields, parse_password,
}

-- The digits of a byte are no colons: one run over all 256 bytes.
digits_no_colon :
    (b : ℕ)
    → IsByte b
    → (get_or k_hex (bit_and (b / 16) 15) 0 ≢ colon) × (get_or k_hex (bit_and b 15) 0 ≢ colon)
unfolding all_below
digits_no_colon b small =
    let run =
      all_below_sound 256
        (λ b.
          not (get_or k_hex (bit_and (b / 16) 15) 0 == colon)
          && not (get_or k_hex (bit_and b 15) 0 == colon))
        b refl small in
    ground (arith, run)

hex_chars-no_colon : (bytes : List ℕ) → All IsByte bytes → All (λ c. c ≢ colon) (hex_chars bytes)
unfolding hex_chars
hex_chars-no_colon [] h = tt
hex_chars-no_colon (b ∷ bytes) (hb, h) =
    ((digits_no_colon b hb).0, ((digits_no_colon b hb).1, hex_chars-no_colon bytes h))

split_append : (a b : Text) → All (λ c. c ≢ colon) a → split_colon (a ++ colon ∷ b) ≡ some (a, b)
unfolding split_colon
split_append [] b h = refl
split_append (c ∷ a) b (hc, h) =
    let other : (c == colon) ≡ false = ground arith in rw (other, split_append a b h) refl

-- What `hex_encode` prints: its text, which holds no colon and which `hex_decode` reads back.
IsHexOf : List ℕ → Text → Type 0
IsHexOf bytes text =
    (length text ≡ length bytes * 2)
    × All (λ c. c ≢ colon) text
    × ((room : ℕ) → length bytes ≤ room → hex_decode text room ≡ some bytes)

encode-IsHexOf :
    (bytes : List ℕ) (out_cap : ℕ) (text : Text)
    → All IsByte bytes
    → hex_encode bytes out_cap ≡ some text
    → IsHexOf bytes text
unfolding hex_encode IsHexOf
encode-IsHexOf bytes out_cap text h e =
    let same : text ≡ hex_chars bytes = ground arith in
    (
      ap length same ∙ length-hex_chars bytes,
      rw same (hex_chars-no_colon bytes h),
      λ room fits. hex_encode-hex_decode bytes out_cap room text h fits e,
    )

print_inv :
    (aad tag raw : List ℕ) (out_len : ℕ) (text : Text)
    → print_password aad tag raw out_len ≡ some text
    → (a : Text) × (t : Text) × (r : Text) × (hex_encode aad 25 ≡ some a)
      × (hex_encode tag 33 ≡ some t)
      × (hex_encode raw 129 ≡ some r)
      × (text ≡ format_password a t r)
unfolding print_password
print_inv aad tag raw out_len text h = elim (Option-cases (hex_encode aad 25)) [
  | inl ea ↦ absurd (ground arith)
  | inr (a, ea) ↦ elim (Option-cases (hex_encode tag 33)) [
    | inl et ↦ absurd (ground arith)
    | inr (t, et) ↦ elim (Option-cases (hex_encode raw 129)) [
      | inl er ↦ absurd (ground arith)
      | inr (r, er) ↦ (a, t, r, ea, et, er, ground arith)
    ]
  ]
]

parse_fields_eq :
    (aad tag raw : List ℕ) (a t r : Text)
    → length aad ≡ 12
    → length tag ≡ 16
    → 0 < length raw
    → length raw ≤ 64
    → IsHexOf aad a
    → IsHexOf tag t
    → IsHexOf raw r
    → parse_fields a t r ≡ some (aad, tag, raw)
unfolding parse_fields IsHexOf
parse_fields_eq aad tag raw a t r la lt lr lm (sa, ca, da) (st, ct, dt) (sr, cr, dr) =
    let one : (length a == 24) ≡ true = ground arith in
    let two : (length t == 32) ≡ true = ground arith in
    let three : (length r % 2 == 0) ≡ true = ground arith in
    let four : (length r == 0) ≡ false = ground arith in
    rw (one, two, three, four, da 12 (omega arith), dt 16 (omega arith), dr 64 (omega arith)) refl

parse_format :
    (a t r : Text)
    → All (λ c. c ≢ colon) a
    → All (λ c. c ≢ colon) t
    → parse_password (format_password a t r) ≡ parse_fields a t r
unfolding parse_password strncmp_eq
parse_format a t r ha ht = rw (split_append a (t ++ colon ∷ r) ha, split_append t r ht) refl

-- The text that `crypto_engine_encrypt_password` prints for 12 bytes of additional data, a tag of
-- 16 bytes and a ciphertext of 1 to 64 bytes is read by `crypto_engine_decrypt_password` as
-- exactly these three.
pub print_password-parse_password :
    (aad tag raw : List ℕ) (out_len : ℕ) (text : Text)
    → (length aad ≡ 12) × All IsByte aad
    → (length tag ≡ 16) × All IsByte tag
    → (0 < length raw) × (length raw ≤ 64) × All IsByte raw
    → print_password aad tag raw out_len ≡ some text
    → parse_password text ≡ some (aad, tag, raw)
unfolding IsHexOf
print_password-parse_password aad tag raw out_len text (la, ha) (lt, ht) (lr, lm, hr) h =
    let (a, t, r, ea, et, er, same) = print_inv aad tag raw out_len text h in
    let xa = encode-IsHexOf aad 25 a ha ea in
    let xt = encode-IsHexOf tag 33 t ht et in
    let xr = encode-IsHexOf raw 129 r hr er in
    ap parse_password same
    ∙ parse_format a t r xa.1 xt.1
    ∙ parse_fields_eq aad tag raw a t r la lt lr lm xa xt xr
