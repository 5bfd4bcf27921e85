-- ===== src/SecurityUtils/Hash.antt =====
-- firmware/src/security_utils.c: the range of the hash.
use safe_key_vault.Prelude.{ℕ, bit_xor, ◌*◌, ◌%◌, ◌^◌, ◌<◌, arith, List, [], ◌∷◌, some}
use safe_key_vault.SecurityUtils.{fnv1a_from, security_fnv1a32}

fnv1a_from-lt : (h : ℕ) (xs : List ℕ) → h < 2 ^ 32 → fnv1a_from h xs < 2 ^ 32
unfolding fnv1a_from
fnv1a_from-lt h [] small = small
fnv1a_from-lt h (x ∷ xs) small = fnv1a_from-lt (bit_xor h x * 16777619 % 2 ^ 32) xs (omega arith)

-- The hash of a buffer has 32 bits.
pub security_fnv1a32-lt : (bytes : List ℕ) → security_fnv1a32 (some bytes) < 2 ^ 32
unfolding security_fnv1a32
security_fnv1a32-lt bytes = fnv1a_from-lt 2166136261 bytes (omega arith)
