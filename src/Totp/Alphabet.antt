-- ===== src/Totp/Alphabet.antt =====
-- `k_base32_decode_table` of firmware/src/totp.c against the alphabet of RFC 4648, and what the
-- difference does to `base32_decode`.
use safe_key_vault.Prelude.{
  map, some_same, ℕ, suc, ◌-◌, ◌*◌, ◌/◌, ◌%◌, ◌^◌, ◌<◌, ◌≤◌, ◌≡◌, refl, sym, ap, ◌∙◌, ◌⊎◌, inl, inr,
  true, false, Option, none, some, List, [], ◌∷◌, length, All, leb, ltb, ◌==◌, ◌||◌, Bool,
  Bool-cases, Option-cases, arith, if◌then◌else◌, ◌&&◌,
}
use safe_key_vault.Totp.Pending.{number_from, IsByte}
use safe_key_vault.Totp.Base32.{
  Bytes, Decoder, k_base32_decode_table, decoded_val, ignored, push, decode_from, base32_decode,
  start,
}
use safe_key_vault.Totp.Decoded.{digits_by, digits-cases, decode-skip, decode-push, decode_digits}

-- The digit of a character by RFC 4648, in either case: 'A' to 'Z' are 0 to 25, '2' to '7' are 26
-- to 31.
unfoldable pub rfc_digit : ℕ → Option ℕ
rfc_digit c =
    if leb 65 c && leb c 90
    then some (c - 65)
    else if leb 97 c && leb c 122
    then some (c - 97)
    else if leb 50 c && leb c 55
    then some (c - 24)
    else none

-- What the table has in place of an RFC digit that is not 0: a letter's is one less.
abbrev pub table_digit : ℕ → ℕ
table_digit digit = if leb digit 25 then digit - 1 else digit

abbrev pub has_zero : List ℕ → Bool
has_zero [] = false
has_zero (digit ∷ digits) = (digit == 0) || has_zero digits

-- The table against RFC 4648.
abbrev Shifted : ℕ → Type 0
Shifted c =
    ((rfc_digit c ≡ none) × (decoded_val c ≡ none))
    ⊎ ((rfc_digit c ≡ some 0) × (decoded_val c ≡ none) × (ignored c ≡ false))
    ⊎ ((digit : ℕ) × (rfc_digit c ≡ some digit)
        × ((digit == 0) ≡ false)
        × (decoded_val c ≡ some (table_digit digit)))

small-Shifted : (c : ℕ) → c < 65 → Shifted c
unfolding decoded_val k_base32_decode_table rfc_digit
small-Shifted c h = elim (Bool-cases (leb 50 c && leb c 55)) [
  | inl q ↦ inr (inr (c - 24, ground arith, ground arith, ground arith))
  | inr q ↦ inl (ground arith, ground arith)
]

capital-Shifted : (c : ℕ) → 65 ≤ c → c ≤ 90 → Shifted c
unfolding decoded_val k_base32_decode_table rfc_digit ignored
capital-Shifted c h k = elim (Bool-cases (c == 65)) [
  | inl q ↦ inr (inl (ground arith, ground arith, ground arith))
  | inr q ↦ inr (inr (c - 65, ground arith, ground arith, ground arith))
]

letter-Shifted : (c : ℕ) → 97 ≤ c → c ≤ 122 → Shifted c
unfolding decoded_val k_base32_decode_table rfc_digit ignored
letter-Shifted c h k = elim (Bool-cases (c == 97)) [
  | inl q ↦ inr (inl (ground arith, ground arith, ground arith))
  | inr q ↦ inr (inr (c - 97, ground arith, ground arith, ground arith))
]

other-Shifted : (c : ℕ) → 90 < c → (leb 97 c && leb c 122) ≡ false → Shifted c
unfolding decoded_val k_base32_decode_table rfc_digit
other-Shifted c h k = inl (ground arith, ground arith)

any-Shifted : (c : ℕ) → Shifted c
any-Shifted c = elim (Bool-cases (ltb c 65)) [
  | inl a ↦ small-Shifted c (ground arith)
  | inr a ↦ elim (Bool-cases (leb c 90)) [
    | inl b ↦ capital-Shifted c (ground arith) (ground arith)
    | inr b ↦ elim (Bool-cases (leb 97 c && leb c 122)) [
      | inl d ↦ letter-Shifted c (ground arith) (ground arith)
      | inr d ↦ other-Shifted c (ground arith) d
    ]
  ]
]

rfc-none : (c : ℕ) → rfc_digit c ≡ none → decoded_val c ≡ none
rfc-none c h = elim (any-Shifted c) [
  | inl (_, e) ↦ e
  | inr (inl (k, _, _)) ↦ cc (h, k)
  | inr (inr (digit, k, _, _)) ↦ cc (h, k)
]

rfc-zero :
    (c digit : ℕ)
    → rfc_digit c ≡ some digit
    → (digit == 0) ≡ true
    → (decoded_val c ≡ none) × (ignored c ≡ false)
rfc-zero c digit h z = elim (any-Shifted c) [
  | inl (k, _) ↦ cc (h, k)
  | inr (inl (_, e, i)) ↦ (e, i)
  | inr (inr (other, k, n, _)) ↦ cc (h, k, z, n)
]

rfc-digit :
    (c digit : ℕ)
    → rfc_digit c ≡ some digit
    → (digit == 0) ≡ false
    → decoded_val c ≡ some (table_digit digit)
rfc-digit c digit h z = elim (any-Shifted c) [
  | inl (k, _) ↦ cc (h, k)
  | inr (inl (k, _, _)) ↦ absurd (ground (arith, some_same (sym k ∙ h), z))
  | inr (inr (other, k, n, e)) ↦ e ∙ ap (λ x. some (table_digit x)) (some_same (sym k ∙ h))
]

stop_at :
    (c : ℕ) (input : Bytes) (d : Decoder) (output_capacity : ℕ)
    → decoded_val c ≡ none
    → ignored c ≡ false
    → decode_from d (c ∷ input) output_capacity ≡ none
unfolding decode_from
stop_at c input d output_capacity other bad = rw (decode_from, other, bad) refl

push_fails :
    (c digit : ℕ) (input : Bytes) (d : Decoder) (output_capacity : ℕ)
    → decoded_val c ≡ some digit
    → push d output_capacity digit ≡ none
    → decode_from d (c ∷ input) output_capacity ≡ none
unfolding decode_from
push_fails c digit input d output_capacity known full = rw (decode_from, known, full) refl

-- A text with an 'A' is refused.
zero-refused :
    (input : Bytes) (digits : List ℕ) (d : Decoder) (output_capacity : ℕ)
    → digits_by rfc_digit input ≡ some digits
    → has_zero digits ≡ true
    → decode_from d input output_capacity ≡ none
unfolding digits_by
zero-refused [] digits d output_capacity e z = absurd (ground (arith, some_same e))
zero-refused (c ∷ input) digits d output_capacity e z =
    elim (digits-cases rfc_digit c input digits e) [
      | inl (other, skip, good) ↦
          decode-skip c input d output_capacity (rfc-none c other) skip
          ∙ zero-refused input digits d output_capacity good z
      | inr (digit, more, known, good, same) ↦ elim (Bool-cases (digit == 0)) [
        | inl q ↦
            let (gone, bad) = rfc-zero c digit known q in stop_at c input d output_capacity gone bad
        | inr q ↦
            let back = rfc-digit c digit known q in
            let left : has_zero more ≡ true = rw (← same, q) at z in
            elim (Option-cases (push d output_capacity (table_digit digit))) [
              | inl full ↦ push_fails c (table_digit digit) input d output_capacity back full
              | inr (d', pushed) ↦
                  decode-push c (table_digit digit) input d d' output_capacity back pushed
                  ∙ zero-refused input more d' output_capacity good left
            ]
      ]
    ]

skip_by :
    (val : ℕ → Option ℕ) (c : ℕ) (input : Bytes)
    → val c ≡ none
    → ignored c ≡ true
    → digits_by val (c ∷ input) ≡ digits_by val input
unfolding digits_by
skip_by val c input other skip = rw (digits_by, other, skip) refl

digit_by :
    (val : ℕ → Option ℕ) (c digit : ℕ) (input : Bytes) (more : List ℕ)
    → val c ≡ some digit
    → digits_by val input ≡ some more
    → digits_by val (c ∷ input) ≡ some (digit ∷ more)
unfolding digits_by
digit_by val c digit input more known good = rw (digits_by, known, good) refl

-- A text without an 'A' has the digits of the table.
nonzero-digits :
    (input : Bytes) (digits : List ℕ)
    → digits_by rfc_digit input ≡ some digits
    → has_zero digits ≡ false
    → digits_by decoded_val input ≡ some (map table_digit digits)
unfolding digits_by
nonzero-digits [] digits e z = ap (λ ds. some (map table_digit ds)) (some_same e)
nonzero-digits (c ∷ input) digits e z = elim (digits-cases rfc_digit c input digits e) [
  | inl (other, skip, good) ↦
      skip_by decoded_val c input (rfc-none c other) skip ∙ nonzero-digits input digits good z
  | inr (digit, more, known, good, same) ↦
      let q : (digit == 0) ≡ false = ground (arith, same, z) in
      let left : has_zero more ≡ false = ground (arith, same, z) in
      digit_by decoded_val c (table_digit digit) input (map table_digit more)
        (rfc-digit c digit known q) (nonzero-digits input more good left)
      ∙ ap (λ ds. some (map table_digit ds)) same
]

length-map_digits : (digits : List ℕ) → length (map table_digit digits) ≡ length digits
length-map_digits [] = refl
length-map_digits (digit ∷ digits) = ap suc (length-map_digits digits)

refused :
    (input : Bytes) (output_capacity : ℕ)
    → decode_from start input output_capacity ≡ none
    → base32_decode input output_capacity ≡ none
unfolding base32_decode
refused input output_capacity e = rw (base32_decode, e) refl

-- What becomes of a text of base-32 digits by RFC 4648, padding and white space aside, whose
-- bytes the buffer has room for. If one of the digits is 0, an 'A' or 'a', the text is refused.
-- If none is, the text decodes to 5 n / 8 bytes for n digits: the big-endian bytes of the number
-- that the digits stand for, where the value of each letter is one less than in the RFC, less its
-- last 5 n % 8 bits.
pub base32_decode_lem :
    (input : Bytes) (output_capacity : ℕ) (digits : List ℕ)
    → digits_by rfc_digit input ≡ some digits
    → 5 * length digits / 8 ≤ output_capacity
    → ((has_zero digits ≡ true) × (base32_decode input output_capacity ≡ none))
      ⊎ ((has_zero digits ≡ false)
          × ((output : Bytes) × (base32_decode input output_capacity ≡ some output)
              × (length output ≡ 5 * length digits / 8)
              × All IsByte output
              × (number_from 256 0 output
                  ≡ number_from 32 0 (map table_digit digits) / 2 ^ (5 * length digits % 8))))
base32_decode_lem input output_capacity digits e room = elim (Bool-cases (has_zero digits)) [
  | inl z ↦
      inl (z, refused input output_capacity (zero-refused input digits start output_capacity e z))
  | inr z ↦
      let same = length-map_digits digits in
      let (output, ran, size, bytes, num) =
        decode_digits input output_capacity (map table_digit digits)
          (nonzero-digits input digits e z) (omega (arith, same)) in
      inr (
        z,
        (
          output,
          ran,
          omega (arith, same),
          bytes,
          num ∙ ap (λ n. number_from 32 0 (map table_digit digits) / 2 ^ (5 * n % 8)) same,
        ),
      )
]
