-- ===== src/CryptoEngine/Hex.antt =====
-- The hexadecimal helpers of firmware/src/crypto_engine.c. Pointers are never NULL here.
use safe_key_vault.Prelude.{
  ℕ, ◌+◌, ◌-◌, ◌*◌, ◌/◌, ◌%◌, ◌≤◌, ◌≡◌, refl, arith, Bool, true, false, ◌&&◌, ◌||◌, not, Option,
  none, some, List, [], ◌∷◌, Text, codes, get_or, length, All, ltb, leb, ◌==◌, if◌then◌else◌,
  all_below, all_below_sound, bit_and, bit_or,
}
use safe_key_vault.SecurityUtils.Equality.{IsByte}

-- `k_hex`.
abbrev pub k_hex : Text
k_hex = codes "0123456789abcdef"

-- The loop of `hex_encode`: two characters for each byte.
unfoldable pub hex_chars : List ℕ → Text
hex_chars [] = []
hex_chars (b ∷ input) =
    get_or k_hex (bit_and (b / 16) 15) 0 ∷ get_or k_hex (bit_and b 15) 0 ∷ hex_chars input

unfoldable pub hex_encode : List ℕ → ℕ → Option Text
unfolding hex_chars
hex_encode input out_cap =
    if out_cap == 0 || ltb out_cap (length input * 2 + 1) then none else some (hex_chars input)

-- The value of a digit; -1 is `none`.
unfoldable pub hex_value : ℕ → Option ℕ
hex_value c =
    if leb b'0' c && leb c b'9'
    then some (c - b'0')
    else if leb b'a' c && leb c b'f'
    then some (c - b'a' + 10)
    else if leb b'A' c && leb c b'F'
    then some (c - b'A' + 10)
    else none

-- A byte from its two digits.
abbrev join_digits : Option ℕ → Option ℕ → Option ℕ
join_digits (some hi) (some lo) = some (bit_or (hi * 16 % 256) lo)
join_digits _ _ = none

abbrev push_byte : Option ℕ → Option (List ℕ) → Option (List ℕ)
push_byte (some b) (some bytes) = some (b ∷ bytes)
push_byte _ _ = none

-- The loop of `hex_decode` over an even number of characters.
unfoldable pub hex_bytes : Text → Option (List ℕ)
unfolding hex_value
hex_bytes (hi ∷ lo ∷ input) =
    push_byte (join_digits (hex_value hi) (hex_value lo)) (hex_bytes input)
hex_bytes _ = some []

-- The text is exactly the `in_len` characters to read.
unfoldable pub hex_decode : Text → ℕ → Option (List ℕ)
unfolding hex_bytes
hex_decode input out_cap =
    if not (length input % 2 == 0)
    then none
    else if ltb out_cap (length input / 2)
    then none
    else hex_bytes input

is_some_same : ℕ → Option ℕ → Bool
is_some_same n none = false
is_some_same n (some m) = n == m

some_same_sound : (n : ℕ) (o : Option ℕ) → is_some_same n o ≡ true → o ≡ some n
unfolding is_some_same
some_same_sound n none h = cc h
some_same_sound n (some m) h = ground arith

-- The digits of a byte give it back: one run over all 256 bytes.
byte_digits :
    (b : ℕ)
    → IsByte b
    → join_digits
        (hex_value (get_or k_hex (bit_and (b / 16) 15) 0))
        (hex_value (get_or k_hex (bit_and b 15) 0))
      ≡ some b
unfolding hex_value all_below is_some_same
byte_digits b small = some_same_sound b _ (
    all_below_sound 256
      (λ b. is_some_same b (
        join_digits (hex_value (get_or k_hex (bit_and (b / 16) 15) 0))
          (hex_value (get_or k_hex (bit_and b 15) 0))))
      b refl small)

pub length-hex_chars : (bytes : List ℕ) → length (hex_chars bytes) ≡ length bytes * 2
unfolding hex_chars
length-hex_chars [] = refl
length-hex_chars (b ∷ bytes) = omega (arith, length-hex_chars bytes)

hex_chars-hex_bytes : (bytes : List ℕ) → All IsByte bytes → hex_bytes (hex_chars bytes) ≡ some bytes
unfolding hex_chars hex_bytes
hex_chars-hex_bytes [] h = refl
hex_chars-hex_bytes (b ∷ bytes) (hb, h) = rw (byte_digits b hb, hex_chars-hex_bytes bytes h) refl

-- What `hex_encode` writes for a list of bytes, `hex_decode` reads back, where both buffers are
-- large enough.
pub hex_encode-hex_decode :
    (bytes : List ℕ) (out_cap in_cap : ℕ) (text : Text)
    → All IsByte bytes
    → length bytes ≤ in_cap
    → hex_encode bytes out_cap ≡ some text
    → hex_decode text in_cap ≡ some bytes
unfolding hex_encode hex_decode
hex_encode-hex_decode bytes out_cap in_cap text h fits e =
    let same : text ≡ hex_chars bytes = ground arith in
    let size = length-hex_chars bytes in
    let even : (length (hex_chars bytes) % 2 == 0) ≡ true = ground arith in
    let room : ltb in_cap (length (hex_chars bytes) / 2) ≡ false = ground arith in
    rw (same, even, room) (hex_chars-hex_bytes bytes h)
