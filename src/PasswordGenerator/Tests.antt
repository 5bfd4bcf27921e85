-- ===== src/PasswordGenerator/Tests.antt =====
-- Runs of firmware/src/password_generator.c.
use safe_key_vault.Prelude.{ℕ, ◌≡◌, ◌≤◌, refl, some, List, [], ◌∷◌, Text, codes, length, arith}
use safe_key_vault.PasswordGenerator.{
  PasswordProfile, password_generate, generate_strong, generate_memorable, seed_from_bytes,
  rng_step,
}
use safe_key_vault.PasswordGenerator.Memorable.{generate_memorable_lem}

abbrev seed : List ℕ
seed = 1 ∷ 2 ∷ 3 ∷ 4 ∷ []

generate_memorable_lem_example :
    (password : Text) × (generate_memorable 1 33 ≡ some password)
    × (20 ≤ length password)
    × (length password ≤ 26)
generate_memorable_lem_example = generate_memorable_lem 1 33 (omega arith)

abbrev made_text : Text
made_text = codes "UvPdrnL[E"

generates : password_generate PasswordProfile.strong seed 10 ≡ some made_text
unfolding password_generate generate_strong seed_from_bytes rng_step
generates = refl
