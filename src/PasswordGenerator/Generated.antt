-- ===== src/PasswordGenerator/Generated.antt =====
-- The passwords of firmware/src/password_generator.c: their length, their characters and the
-- bounds of the buffer.
use safe_key_vault.Prelude.{
  some_same, none-some, ℕ, zero, suc, ◌+◌, ◌-◌, ◌%◌, ◌<◌, ◌≤◌, ◌≡◌, refl, sym, ap, ◌∙◌, ◌⊎◌, inl,
  inr, Bool, true, false, none, some, List, [], ◌∷◌, Text, get_or, get_elem?, length, length-append,
  All, min, ltb, leb, ◌==◌, ◌||◌, if◌then◌else◌, Bool-cases, arith,
}
use safe_key_vault.PasswordGenerator.Memorable.{with_digits}
use safe_key_vault.PasswordGenerator.{
  PasswordProfile, k_charset_strong, rng_step, seed_from_bytes, strong_chars, generate_strong,
  memorable_words, generate_memorable, password_generate,
}

-- The character stands in `k_charset_strong`.
abbrev pub InCharset : ℕ → Type 0
InCharset c = (i : ℕ) × (get_elem? k_charset_strong i ≡ some c)

get_or-get_elem? : (s : Text) (i d : ℕ) → i < length s → get_elem? s i ≡ some (get_or s i d)
get_or-get_elem? [] i d h = absurd (omega arith)
get_or-get_elem? (c ∷ s) zero d h = refl
get_or-get_elem? (c ∷ s) (suc i) d h = get_or-get_elem? s i d (omega arith)

length-strong_chars : (n state : ℕ) → length (strong_chars n state) ≡ n
unfolding strong_chars
length-strong_chars zero state = refl
length-strong_chars (suc n) state = ap suc (length-strong_chars n (rng_step state))

strong_chars-InCharset : (n state : ℕ) → All InCharset (strong_chars n state)
unfolding strong_chars
strong_chars-InCharset zero state = tt
strong_chars-InCharset (suc n) state = (
  (rng_step state % 80, get_or-get_elem? k_charset_strong (rng_step state % 80) 0 (omega arith)),
  strong_chars-InCharset n (rng_step state),
)

-- A strong password is refused exactly for a buffer of fewer than 9 bytes. Otherwise it fits with
-- its NUL, has 20 characters or as many as fit, and all of them are in the charset.
pub generate_strong_lem :
    (state out_buf_len : ℕ)
    → ((out_buf_len < 9) × (generate_strong state out_buf_len ≡ none))
      ⊎ ((password : Text) × (generate_strong state out_buf_len ≡ some password)
          × (9 ≤ out_buf_len)
          × (length password ≡ min 20 (out_buf_len - 1))
          × All InCharset password)
unfolding generate_strong
generate_strong_lem state out_buf_len = elim (Bool-cases (ltb out_buf_len 9)) [
  | inl small ↦ inl (ground arith, rw small refl)
  | inr big ↦
      let n = if ltb 20 (out_buf_len - 1) then 20 else out_buf_len - 1 in
      let least : n ≡ min 20 (out_buf_len - 1) = ground arith in
      inr (
        strong_chars n state,
        rw big refl,
        ground arith,
        length-strong_chars n state ∙ least,
        strong_chars-InCharset n state,
      )
]

passed :
    (a b c : Bool) (text password : Text)
    → (if a then none else if b then none else if c then none else some text) ≡ some password
    → (b ≡ false) × (c ≡ false) × (text ≡ password)
passed true b c text password e = cc e
passed false true c text password e = cc e
passed false false true text password e = cc e
passed false false false text password e = (refl, refl, some_same e)

-- The two last tests of `generate_memorable`.
kept :
    (small : Bool) (n out_buf_len : ℕ) (text password : Text)
    → length text ≡ n + 2
    → (if small
        then none
        else if leb out_buf_len (n + 2)
        then none
        else if ltb (length text) 8
        then none
        else some text)
      ≡ some password
    → (8 ≤ length password) × (length password < out_buf_len)
kept small n out_buf_len text password total e =
    let (room, long, same) =
      passed small (leb out_buf_len (n + 2)) (ltb (length text) 8) text password e in
    let fits : n + 2 < out_buf_len = ground arith in
    let enough : 8 ≤ length text = ground arith in
    let size = ap length same in (omega (arith, enough, size), omega (arith, fits, size, total))

memorable-fits :
    (state out_buf_len : ℕ) (password : Text)
    → generate_memorable state out_buf_len ≡ some password
    → (8 ≤ length password) × (length password < out_buf_len)
unfolding generate_memorable
memorable-fits state out_buf_len password e =
    let words = memorable_words 3 out_buf_len [] state in
    let text = with_digits words.0 words.1 in
    let total =
      length-append words.0
        ((48 + rng_step words.1 % 10) ∷ (48 + rng_step (rng_step words.1) % 10) ∷ []) in
    kept (ltb out_buf_len 9) (length words.0) out_buf_len text password total e

strong-fits :
    (state out_buf_len : ℕ) (password : Text)
    → generate_strong state out_buf_len ≡ some password
    → (8 ≤ length password) × (length password < out_buf_len)
strong-fits state out_buf_len password e = elim (generate_strong_lem state out_buf_len) [
  | inl (small, refused) ↦ absurd (none-some (sym refused ∙ e))
  | inr (text, ok, big, size, _) ↦
      let same = ap length (some_same (sym ok ∙ e)) in
      (omega (arith, same, size), omega (arith, same, size))
]

made_none :
    (profile : PasswordProfile) (rng_seed : List ℕ) (out_buf_len : ℕ)
    → (out_buf_len == 0 || length rng_seed == 0) ≡ true
    → password_generate profile rng_seed out_buf_len ≡ none
unfolding password_generate
made_none profile rng_seed out_buf_len empty = rw (password_generate, empty) refl

made :
    (profile : PasswordProfile) (rng_seed : List ℕ) (out_buf_len : ℕ)
    → (out_buf_len == 0 || length rng_seed == 0) ≡ false
    → password_generate profile rng_seed out_buf_len ≡ elim profile [
      | PasswordProfile.memorable ↦ generate_memorable (seed_from_bytes rng_seed) out_buf_len
      | PasswordProfile.strong ↦ generate_strong (seed_from_bytes rng_seed) out_buf_len
    ]
unfolding password_generate
made profile rng_seed out_buf_len asked = rw (password_generate, asked) refl

-- Whatever the buffer, a password that is made has at least 8 characters and leaves room for its
-- NUL.
pub password_generate_fits :
    (profile : PasswordProfile) (rng_seed : List ℕ) (out_buf_len : ℕ) (password : Text)
    → password_generate profile rng_seed out_buf_len ≡ some password
    → (8 ≤ length password) × (length password < out_buf_len)
password_generate_fits PasswordProfile.memorable rng_seed out_buf_len password e =
    elim (Bool-cases (out_buf_len == 0 || length rng_seed == 0)) [
      | inl empty ↦
          absurd
            (none-some (sym (made_none PasswordProfile.memorable rng_seed out_buf_len empty) ∙ e))
      | inr asked ↦
          memorable-fits (seed_from_bytes rng_seed) out_buf_len password
            (sym (made PasswordProfile.memorable rng_seed out_buf_len asked) ∙ e)
    ]
password_generate_fits PasswordProfile.strong rng_seed out_buf_len password e =
    elim (Bool-cases (out_buf_len == 0 || length rng_seed == 0)) [
      | inl empty ↦
          absurd (none-some (sym (made_none PasswordProfile.strong rng_seed out_buf_len empty) ∙ e))
      | inr asked ↦
          strong-fits (seed_from_bytes rng_seed) out_buf_len password
            (sym (made PasswordProfile.strong rng_seed out_buf_len asked) ∙ e)
    ]
