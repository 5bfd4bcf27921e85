-- ===== src/Totp/Decoded.antt =====
-- `base32_decode` of firmware/src/totp.c against the numbers that its input and output stand
-- for.
use safe_key_vault.Prelude.{
  some_same, none-some, ℕ, suc, ◌+◌, ◌-◌, ◌*◌, ◌/◌, ◌%◌, ◌^◌, ◌<◌, ◌≤◌, ◌≡◌, refl, sym, ap, subst,
  ◌∙◌, ◌⊎◌, inl, inr, true, false, Option, none, some, List, [], ◌∷◌, ◌++◌, length, length-append,
  All, All-append, leb, Bool-cases, Option-cases, arith, if◌then◌else◌,
}
use safe_key_vault.Totp.Pending.{
  low_number, low, high, quotient, number_from, number_from-append, IsByte,
}
use safe_key_vault.Totp.Base32.{
  Bytes, Decoder, k_base32_decode_table, decoded_val, ignored, push, decode_from, base32_decode,
  start,
}

-- After n digits that stand for `total`.
abbrev Inv : Decoder → ℕ → ℕ → Type 0
Inv d n total =
    (d.bits < 8)
    × (length d.output * 8 + d.bits ≡ 5 * n)
    × (number_from 256 0 d.output * 2 ^ d.bits + d.value % 2 ^ d.bits ≡ total)
    × All IsByte d.output

push-Inv :
    (d : Decoder) (output_capacity digit n total : ℕ)
    → Inv d n total
    → digit < 32
    → 5 * (n + 1) / 8 ≤ output_capacity
    → (d' : Decoder) × (push d output_capacity digit ≡ some d')
      × Inv d' (n + 1) (total * 32 + digit)
unfolding push
push-Inv d output_capacity digit n total (b, len, num, bytes) small room =
    elim (Bool-cases (leb 8 (d.bits + 5))) [
      | inr short ↦
          let three : d.bits < 3 = ground arith in
          (
            record { value = low_number d.value digit; bits = d.bits + 5; output = d.output },
            rw short refl,
            (
              omega arith,
              omega arith,
              low d.bits d.value (number_from 256 0 d.output) total digit three small num,
              bytes,
            ),
          )
      | inl full ↦
          let three : 3 ≤ d.bits = ground arith in
          let fits : leb output_capacity (length d.output) ≡ false = ground arith in
          let w = low_number d.value digit in
          let byte = w / 2 ^ (d.bits + 5 - 8) % 256 in
          (
            record { value = w; bits = d.bits + 5 - 8; output = d.output ++ (byte ∷ []) },
            rw (full, fits) refl,
            (
              omega arith,
              omega (arith, length-append d.output (byte ∷ [])),
              ap (λ m. m * 2 ^ (d.bits + 5 - 8) + w % 2 ^ (d.bits + 5 - 8))
                    (number_from-append 256 0 d.output byte)
                  ∙ high d.bits d.value (number_from 256 0 d.output) total digit three b small num,
              All-append IsByte d.output (byte ∷ []) bytes (omega arith, tt),
            ),
          )
    ]

-- The digits of a text, by the digit that each character stands for: padding and white space are
-- left out, and a text with another character has none.
unfoldable pub digits_by : (ℕ → Option ℕ) → Bytes → Option (List ℕ)
digits_by val [] = some []
digits_by val (c ∷ input) = elim (val c) [
  | none ↦ if ignored c then digits_by val input else none
  | some digit ↦ elim (digits_by val input) [ none ↦ none | some digits ↦ some (digit ∷ digits) ]
]

decoded_val-lt : (c digit : ℕ) → decoded_val c ≡ some digit → digit < 32
unfolding decoded_val k_base32_decode_table
decoded_val-lt c digit h = ground arith

abbrev Decodes : Bytes → Decoder → ℕ → ℕ → ℕ → List ℕ → Type 0
Decodes input d output_capacity n total digits =
    (d' : Decoder) × (decode_from d input output_capacity ≡ some d')
    × Inv d' (n + length digits) (number_from 32 total digits)

pub decode-skip :
    (c : ℕ) (input : Bytes) (d : Decoder) (output_capacity : ℕ)
    → decoded_val c ≡ none
    → ignored c ≡ true
    → decode_from d (c ∷ input) output_capacity ≡ decode_from d input output_capacity
unfolding decode_from
decode-skip c input d output_capacity other skip = rw (decode_from, other, skip) refl

pub decode-push :
    (c digit : ℕ) (input : Bytes) (d d' : Decoder) (output_capacity : ℕ)
    → decoded_val c ≡ some digit
    → push d output_capacity digit ≡ some d'
    → decode_from d (c ∷ input) output_capacity ≡ decode_from d' input output_capacity
unfolding decode_from
decode-push c digit input d d' output_capacity known pushed = rw (decode_from, known, pushed) refl

zero_more : (n : ℕ) → n ≡ n + 0
zero_more n = omega arith

-- The cases of a text that has digits.
pub digits-cases :
    (val : ℕ → Option ℕ) (c : ℕ) (input : Bytes) (digits : List ℕ)
    → digits_by val (c ∷ input) ≡ some digits
    → ((val c ≡ none) × (ignored c ≡ true) × (digits_by val input ≡ some digits))
      ⊎ ((digit : ℕ) × (more : List ℕ) × (val c ≡ some digit)
          × (digits_by val input ≡ some more)
          × (digit ∷ more ≡ digits))
unfolding digits_by
digits-cases val c input digits e = elim (Option-cases (val c)) [
  | inl other ↦ elim (Bool-cases (ignored c)) [
    | inl skip ↦
        let same : digits_by val (c ∷ input) ≡ digits_by val input =
          rw (digits_by, other, skip) refl in
        inl (other, skip, sym same ∙ e)
    | inr bad ↦
        let stop : digits_by val (c ∷ input) ≡ none = rw (digits_by, other, bad) refl in
        absurd (none-some (sym stop ∙ e))
  ]
  | inr (digit, known) ↦ elim (Option-cases (digits_by val input)) [
    | inl bad ↦
        let stop : digits_by val (c ∷ input) ≡ none = rw (digits_by, known, bad) refl in
        absurd (none-some (sym stop ∙ e))
    | inr (more, good) ↦
        let all : digits_by val (c ∷ input) ≡ some (digit ∷ more) =
          rw (digits_by, known, good) refl in
        inr (digit, more, known, good, some_same (sym all ∙ e))
  ]
]

decode-Inv :
    (input : Bytes) (d : Decoder) (output_capacity n total : ℕ) (digits : List ℕ)
    → Inv d n total
    → digits_by decoded_val input ≡ some digits
    → 5 * (n + length digits) / 8 ≤ output_capacity
    → Decodes input d output_capacity n total digits
unfolding digits_by decode_from
decode-Inv [] d output_capacity n total digits inv e room =
    subst (λ ds. Decodes [] d output_capacity n total ds) (some_same e)
      (d, refl, subst (λ m. Inv d m total) (zero_more n) inv)
decode-Inv (c ∷ input) d output_capacity n total digits inv e room =
    elim (digits-cases decoded_val c input digits e) [
      | inl (other, skip, good) ↦
          let (d', ran, inv') = decode-Inv input d output_capacity n total digits inv good room in
          (d', decode-skip c input d output_capacity other skip ∙ ran, inv')
      | inr (digit, more, known, good, same) ↦
          let count : length digits ≡ suc (length more) = sym (ap length same) in
          let (d1, pushed, inv1) =
            push-Inv d output_capacity digit n total inv (decoded_val-lt c digit known)
              (omega (arith, count)) in
          let (d', ran, inv') =
            decode-Inv input d1 output_capacity (n + 1) (total * 32 + digit) more inv1 good
              (omega (arith, count)) in
          subst (λ ds. Decodes (c ∷ input) d output_capacity n total ds) same
            (
              d',
              decode-push c digit input d d1 output_capacity known pushed ∙ ran,
              subst (λ m. Inv d' m (number_from 32 total (digit ∷ more))) (omega arith) inv',
            )
    ]

decode-some :
    (input : Bytes) (output_capacity : ℕ) (d : Decoder)
    → decode_from start input output_capacity ≡ some d
    → base32_decode input output_capacity ≡ some d.output
unfolding base32_decode
decode-some input output_capacity d e = rw (base32_decode, e) refl

-- A text whose digits the table gives.
pub decode_digits :
    (input : Bytes) (output_capacity : ℕ) (digits : List ℕ)
    → digits_by decoded_val input ≡ some digits
    → 5 * length digits / 8 ≤ output_capacity
    → (output : Bytes) × (base32_decode input output_capacity ≡ some output)
      × (length output ≡ 5 * length digits / 8)
      × All IsByte output
      × (number_from 256 0 output ≡ number_from 32 0 digits / 2 ^ (5 * length digits % 8))
decode_digits input output_capacity digits e room =
    let (d, ran, (b, len, num, bytes)) =
      decode-Inv input start output_capacity 0 0 digits (omega arith, refl, refl, tt) e
        (omega (arith, room)) in
    let left : d.bits ≡ 5 * length digits % 8 = omega (arith, len, b) in
    (
      d.output,
      decode-some input output_capacity d ran,
      omega (arith, len, b),
      bytes,
      quotient d.bits d.value (number_from 256 0 d.output) (number_from 32 0 digits) b num
          ∙ ap (λ k. number_from 32 0 digits / 2 ^ k) left,
    )
