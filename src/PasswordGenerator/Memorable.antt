-- ===== src/PasswordGenerator/Memorable.antt =====
-- The memorable passwords of firmware/src/password_generator.c.
use safe_key_vault.Prelude.{
  ℕ, zero, suc, ◌+◌, ◌*◌, ◌%◌, ◌<◌, ◌≤◌, ◌≡◌, refl, true, false, some, [], ◌∷◌, ◌++◌, Text, get_or,
  length, length-append, ltb, leb, arith, all_below, all_below_sound, ◌&&◌,
}
use safe_key_vault.PasswordGenerator.{k_wordlist, rng_step, memorable_words, generate_memorable}

-- Every word of the list has 5 to 7 letters.
bounds : (n : ℕ) → (leb 5 n && leb n 7) ≡ true → (5 ≤ n) × (n ≤ 7)
bounds n h = ground arith

word-length :
    (i : ℕ) → i < 16 → (5 ≤ length (get_or k_wordlist i [])) × (length (get_or k_wordlist i []) ≤ 7)
unfolding all_below
word-length i h =
    let checked =
      all_below_sound 16
        (λ k. leb 5 (length (get_or k_wordlist k [])) && leb (length (get_or k_wordlist k [])) 7) i
        refl h in
    bounds (length (get_or k_wordlist i [])) checked

-- In a buffer of 28 bytes or more no word is left out.
memorable_words-room :
    (words out_buf_len : ℕ) (out : Text) (state : ℕ)
    → 28 ≤ out_buf_len
    → length out + 8 * words ≤ 24
    → (length out + 6 * words ≤ length (memorable_words words out_buf_len out state).0)
      × (length (memorable_words words out_buf_len out state).0 ≤ length out + 8 * words)
unfolding memorable_words
memorable_words-room zero out_buf_len out state big room = (omega arith, omega arith)
memorable_words-room (suc words) out_buf_len out state big room =
    let next = rng_step state in
    let word = get_or k_wordlist (next % 16) [] in
    let (low, high) = word-length (next % 16) (omega arith) in
    let more = length-append (out ++ word) (45 ∷ []) in
    let dash = length-append out word in
    let (a, b) =
      memorable_words-room words out_buf_len (out ++ word ++ (45 ∷ [])) next big
        (omega (arith, more, dash, low, high)) in
    let open_buffer : ltb (length out + 2) out_buf_len ≡ true = ground arith in
    let fits : leb out_buf_len (length out + length word + 2) ≡ false = ground (arith, high) in
    rw (open_buffer, fits) (omega (arith, a, more, dash, low), omega (arith, b, more, dash, high))

-- The text of a memorable password for the words before it.
abbrev pub with_digits : Text → ℕ → Text
with_digits out state =
    out ++ ((48 + rng_step state % 10) ∷ (48 + rng_step (rng_step state) % 10) ∷ [])

ltb-false : (a b : ℕ) → b ≤ a → ltb a b ≡ false
ltb-false a b h = ground arith

leb-false : (a b : ℕ) → b < a → leb a b ≡ false
leb-false a b h = ground arith

-- In a buffer of 28 bytes or more a memorable password is always made: it has 20 to 26
-- characters, so that it fits with its NUL.
pub generate_memorable_lem :
    (state out_buf_len : ℕ)
    → 28 ≤ out_buf_len
    → (password : Text) × (generate_memorable state out_buf_len ≡ some password)
      × (20 ≤ length password)
      × (length password ≤ 26)
unfolding generate_memorable
generate_memorable_lem state out_buf_len big =
    let words = memorable_words 3 out_buf_len [] state in
    let (low, high) = memorable_words-room 3 out_buf_len [] state big (omega arith) in
    let total =
      length-append words.0
        ((48 + rng_step words.1 % 10) ∷ (48 + rng_step (rng_step words.1) % 10) ∷ []) in
    let enough : ltb out_buf_len 9 ≡ false = ground arith in
    let room = leb-false out_buf_len (length words.0 + 2) (omega (arith, high)) in
    let long = ltb-false (length (with_digits words.0 words.1)) 8 (omega (arith, low, total)) in
    (
      with_digits words.0 words.1,
      rw (enough, room, long) refl,
      omega (arith, low, total),
      omega (arith, high, total),
    )
