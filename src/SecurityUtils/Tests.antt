-- ===== src/SecurityUtils/Tests.antt =====
-- firmware/src/security_utils.c at concrete buffers.
use safe_key_vault.Prelude.{ℕ, some, [], ◌∷◌, List, ◌≡◌, refl, codes}
use safe_key_vault.SecurityUtils.{security_fnv1a32}

abbrev left : List ℕ
left = 1 ∷ 2 ∷ 3 ∷ []

abbrev right : List ℕ
right = 1 ∷ 2 ∷ 4 ∷ []

fnv_of_a : security_fnv1a32 (some (codes "a")) ≡ 0xe40c292c
unfolding security_fnv1a32
fnv_of_a = refl
