-- ===== src/PasswordGenerator.antt =====
-- firmware/src/password_generator.c. A length of 0 is `none`, and any other length comes with the
-- text before the NUL. Pointers are never NULL here; `size_t` does not wrap.
pub mod Rng
pub mod Memorable
pub mod Generated
mod Tests
use safe_key_vault.Prelude.{
  ℕ, zero, suc, ◌+◌, ◌-◌, ◌*◌, ◌/◌, ◌%◌, ◌^◌, bit_or, bit_xor, Bool, true, false, ◌&&◌, ◌||◌,
  Option, none, some, List, [], ◌∷◌, ◌++◌, Text, codes, get_or, length, ltb, leb, ◌==◌,
  if◌then◌else◌,
}

pub data PasswordProfile : Type 0 where
  strong memorable : PasswordProfile

abbrev pub k_charset_strong : Text
k_charset_strong =
    codes "ABCDEFGHJKLMNPQRSTUVWXYZ"
    ++ codes "abcdefghijkmnopqrstuvwxyz"
    ++ codes "23456789"
    ++ codes "!@#$%^&*()-_=+[]{}:;,.?"

abbrev pub k_wordlist : List Text
k_wordlist =
    codes "amber"
    ∷ codes "river"
    ∷ codes "orbit"
    ∷ codes "forest"
    ∷ codes "cipher"
    ∷ codes "maple"
    ∷ codes "north"
    ∷ codes "saffron"
    ∷ codes "velvet"
    ∷ codes "summit"
    ∷ codes "cobalt"
    ∷ codes "harbor"
    ∷ codes "lunar"
    ∷ codes "prairie"
    ∷ codes "thunder"
    ∷ codes "atlas"
    ∷ []

-- The three assignments `x ^= ...`.
abbrev pub xor_left : ℕ → ℕ → ℕ
xor_left n x = bit_xor x (x * 2 ^ n % 2 ^ 32)

abbrev pub xor_right : ℕ → ℕ → ℕ
xor_right n x = bit_xor x (x / 2 ^ n)

-- The new state, which is also the result.
unfoldable pub rng_step : ℕ → ℕ
rng_step x = xor_left 5 (xor_right 17 (xor_left 13 x))

-- The loop over the seed, from round i on.
unfoldable pub seed_from : ℕ → ℕ → List ℕ → ℕ
seed_from state i [] = state
seed_from state i (b ∷ seed) =
    let mixed = bit_xor state (b * 2 ^ (i % 24) % 2 ^ 32) in
    let turned = bit_or (mixed * 2 ^ 7 % 2 ^ 32) (mixed / 2 ^ 25) in
    seed_from (turned * 2654435761 % 2 ^ 32) (i + 1) seed

unfoldable pub seed_from_bytes : List ℕ → ℕ
unfolding seed_from
seed_from_bytes seed =
    let state = seed_from 2783976767 0 seed in if state == 0 then 1831565813 else state

-- The loop of `generate_strong`.
unfoldable pub strong_chars : ℕ → ℕ → Text
strong_chars zero state = []
strong_chars (suc n) state =
    let next = rng_step state in
    get_or k_charset_strong (next % length k_charset_strong) 0 ∷ strong_chars n next

-- `PASSWORD_MIN_LENGTH` is 8 and `PASSWORD_GENERATED_DEFAULT_LENGTH` is 20.
unfoldable pub generate_strong : ℕ → ℕ → Option Text
unfolding strong_chars
generate_strong state out_buf_len =
    let target_len = if ltb 20 (out_buf_len - 1) then 20 else out_buf_len - 1 in
    if ltb out_buf_len 9 then none else some (strong_chars target_len state)

-- The loop of `generate_memorable` for the words that are left: the text so far and the state.
unfoldable pub memorable_words : ℕ → ℕ → Text → ℕ → Text × ℕ
memorable_words zero out_buf_len out state = (out, state)
memorable_words (suc words) out_buf_len out state =
    let next = rng_step state in
    let word = get_or k_wordlist (next % 16) [] in
    let rest = memorable_words words out_buf_len (out ++ word ++ (45 ∷ [])) next in
    if ltb (length out + 2) out_buf_len
    then if leb out_buf_len (length out + length word + 2) then (out, next) else rest
    else (out, state)

unfoldable pub generate_memorable : ℕ → ℕ → Option Text
unfolding memorable_words
generate_memorable state out_buf_len =
    if ltb out_buf_len 9
    then none
    else let (out, s0) = memorable_words 3 out_buf_len [] state in
      let s1 = rng_step s0 in
      let s2 = rng_step s1 in
      let text = out ++ ((48 + s1 % 10) ∷ (48 + s2 % 10) ∷ []) in
      if leb out_buf_len (length out + 2)
      then none
      else if ltb (length text) 8
      then none
      else some text

unfoldable pub password_generate : PasswordProfile → List ℕ → ℕ → Option Text
unfolding seed_from_bytes generate_strong generate_memorable
password_generate profile rng_seed out_buf_len =
    if out_buf_len == 0 || length rng_seed == 0 then none else elim profile [
      | PasswordProfile.memorable ↦ generate_memorable (seed_from_bytes rng_seed) out_buf_len
      | PasswordProfile.strong ↦ generate_strong (seed_from_bytes rng_seed) out_buf_len
    ]
