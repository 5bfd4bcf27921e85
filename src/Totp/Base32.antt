-- ===== src/Totp/Base32.antt =====
-- `base32_decode` of firmware/src/totp.c. The output is what is written to `output`.
use safe_key_vault.Prelude.{
  ℕ, ◌+◌, ◌-◌, ◌*◌, ◌/◌, ◌%◌, ◌^◌, Bool, ◌&&◌, ◌||◌, Option, none, some, List, [], ◌∷◌, ◌++◌,
  length, leb, ◌==◌, if◌then◌else◌,
}

abbrev pub Bytes : Type 0
Bytes = List ℕ

-- The table, with none for -1: the entries from 50, '2', are 26 to 31, and those from 66, 'B',
-- to 91, '[', are 0 to 25. The entry of 65, 'A', is -1.
unfoldable pub k_base32_decode_table : ℕ → Option ℕ
k_base32_decode_table i =
    if leb 50 i && leb i 55
    then some (i - 24)
    else if leb 66 i && leb i 91
    then some (i - 66)
    else none

-- What becomes of a character: small letters are made capitals, and letters and '2' to '7' are
-- looked up.
unfoldable pub decoded_val : ℕ → Option ℕ
decoded_val c =
    let up = if leb 97 c && leb c 122 then c - 32 else c in
    if leb 65 up && leb up 90
    then k_base32_decode_table up
    else if leb 50 up && leb up 55
    then k_base32_decode_table up
    else none

-- '=', a space, a tab or a line break.
unfoldable pub ignored : ℕ → Bool
ignored c = c == 61 || c == 32 || c == 9 || c == 10 || c == 13

-- `value`, `bits` and the bytes written.
pub record Decoder : Type 0 where
  pub value : ℕ
  pub bits : ℕ
  pub output : Bytes

-- One digit: a round of the loop behind the test for -1.
unfoldable pub push : Decoder → ℕ → ℕ → Option Decoder
push d output_capacity digit =
    let value = (d.value * 32 % 2 ^ 32) + digit in
    let bits = d.bits + 5 in
    if leb 8 bits
    then if leb output_capacity (length d.output)
      then none
      else some (record {
        value = value;
        bits = bits - 8;
        output = d.output ++ (value / 2 ^ (bits - 8) % 256 ∷ []);
      })
    else some (record { value = value; bits = bits; output = d.output })

unfoldable pub decode_from : Decoder → Bytes → ℕ → Option Decoder
decode_from d [] output_capacity = some d
decode_from d (c ∷ input) output_capacity = elim (decoded_val c) [
  | none ↦ if ignored c then decode_from d input output_capacity else none
  | some digit ↦ elim (push d output_capacity digit) [
    | none ↦ none
    | some d' ↦ decode_from d' input output_capacity
  ]
]

abbrev pub start : Decoder
start = record { value = 0; bits = 0; output = [] }

unfoldable pub base32_decode : Bytes → ℕ → Option Bytes
base32_decode input output_capacity = elim (decode_from start input output_capacity) [
  | none ↦ none
  | some d ↦ some d.output
]
